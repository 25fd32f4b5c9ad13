-- ===== src/Types/Identifier.antt =====
-- src/logicblocks/event/types/identifier.py: identifiers of event sources, what they serialise to,
-- and their reading back.
pub mod Reading
use event_store.Prelude.{
  ◌≡◌, ◌↔◌, String, Bool, true, false, ◌&&◌, Option, none, some, Result, ok, err, value_error,
  arith, HasEquality, ◌==◌, string_eq, if◌then◌else◌,
}
use event_store.Types.Json.{JsonValue, JsonObject, str, object, empty, field, get}

pub data PartitionIdentifier : Type 0 where
  stream_name_prefix : String → PartitionIdentifier

pub data EventSourceIdentifier : Type 0 where
  log : EventSourceIdentifier
  log_partition : PartitionIdentifier → EventSourceIdentifier
  category : String → EventSourceIdentifier
  category_partition : String → PartitionIdentifier → EventSourceIdentifier
  stream : String → String → EventSourceIdentifier

abbrev pub partition_beq : PartitionIdentifier → PartitionIdentifier → Bool
partition_beq (stream_name_prefix a) (stream_name_prefix b) = a == b

-- The `__eq__` of the dataclasses: same class, equal fields.
abbrev pub identifier_beq : EventSourceIdentifier → EventSourceIdentifier → Bool
identifier_beq log log = true
identifier_beq (log_partition p) (log_partition q) = partition_beq p q
identifier_beq (category c) (category d) = c == d
identifier_beq (category_partition c p) (category_partition d q) = c == d && partition_beq p q
identifier_beq (stream c s) (stream d t) = c == d && s == t
identifier_beq _ _ = false

pub partition_beq_iff : (p q : PartitionIdentifier) → (partition_beq p q ≡ true) ↔ (p ≡ q)
partition_beq_iff (stream_name_prefix a) (stream_name_prefix b) =
    ground (arith, string_eq.test_iff a b)

pub identifier_beq_iff : (i j : EventSourceIdentifier) → (identifier_beq i j ≡ true) ↔ (i ≡ j)
identifier_beq_iff log log = ground arith
identifier_beq_iff (log_partition p) (log_partition q) = ground (arith, partition_beq_iff p q)
identifier_beq_iff (category c) (category d) = ground (arith, string_eq.test_iff c d)
identifier_beq_iff (category_partition c p) (category_partition d q) =
    ground (arith, string_eq.test_iff c d, partition_beq_iff p q)
identifier_beq_iff (stream c s) (stream d t) =
    ground (arith, string_eq.test_iff c d, string_eq.test_iff s t)
identifier_beq_iff _ _ = ground arith

instance abbrev pub identifier_eq : HasEquality EventSourceIdentifier
identifier_eq = record { test = identifier_beq; test_iff = identifier_beq_iff }

unfoldable pub serialise_partition : PartitionIdentifier → JsonValue
serialise_partition (stream_name_prefix value) =
    object (field "type" (str "stream-name-prefix") (field "value" (str value) empty))

unfoldable pub serialise : EventSourceIdentifier → JsonValue
unfolding serialise_partition
serialise log = object (field "type" (str "log") empty)
serialise (log_partition partition) =
    object
      (field "type" (str "log-partition") (field "partition" (serialise_partition partition) empty))
serialise (category name) =
    object (field "type" (str "category") (field "category" (str name) empty))
serialise (category_partition name partition) = object (
    field "type" (str "category-partition")
      (field "partition" (serialise_partition partition) empty))
serialise (stream category_name name) = object (
    field "type" (str "stream")
      (field "category" (str category_name) (field "stream" (str name) empty)))

-- `target(category=…, stream=…)`
unfoldable pub target : Option String → Option String → Result EventSourceIdentifier
target (some c) (some s) = ok (stream c s)
target (some c) none = ok (category c)
target none (some s) =
    err (value_error "Invalid target, if stream provided, category must also be provided")
target none none = ok log

-- Is the value of a key this text?
unfoldable pub has_text : JsonObject → String → String → Bool
unfolding get
has_text serialised key expected = elim (get serialised key) [
  | some (str value) ↦ value == expected
  | _ ↦ false
]

-- `str(value)` of a JSON value that is no text is the interpreter's.
module _ (to_str : JsonValue → String) where
  -- The cases of the `match`, in order. A mapping pattern wants its keys to be there, and lets
  -- others be.
  unfoldable pub event_sequence_identifier : JsonObject → Result EventSourceIdentifier
  unfolding has_text
  event_sequence_identifier serialised =
      if has_text serialised "type" "log" then ok log else elim (get serialised "category") [
        | none ↦ err (value_error "Invalid serialised event sequence identifier.")
        | some c ↦
            if has_text serialised "type" "category"
            then ok (category (to_str c))
            else elim (get serialised "stream") [
              | none ↦ err (value_error "Invalid serialised event sequence identifier.")
              | some s ↦
                  if has_text serialised "type" "stream"
                  then ok (stream (to_str c) (to_str s))
                  else err (value_error "Invalid serialised event sequence identifier.")
            ]
      ]
