-- ===== src/Types/Identifier/Reading.antt =====
-- Reading back what an identifier serialises to.
use event_store.Prelude.{
  ◌≡◌, refl, ap, subst, String, Option, none, some, ok, arith, ok-injective, string_eq,
}
use event_store.Types.Json.{JsonValue, JsonObject, str, object}
use event_store.Types.Identifier.{
  EventSourceIdentifier, category, stream, serialise, target, event_sequence_identifier,
}

abbrev pub ReadsBack : (JsonValue → String) → EventSourceIdentifier → Type 0
ReadsBack to_str i =
    (o : JsonObject) × (serialise i ≡ object o) × (event_sequence_identifier to_str o ≡ ok i)

-- Every identifier that `target` makes serialises to a mapping that is read back as that
-- identifier, if the interpreter's `str` leaves a text as it is.
pub target-ReadsBack :
    (to_str : JsonValue → String) (c s : Option String) (i : EventSourceIdentifier)
    → ((t : String) → to_str (str t) ≡ t)
    → target c s ≡ ok i
    → ReadsBack to_str i
unfolding target serialise event_sequence_identifier
target-ReadsBack to_str none none i same h =
    subst (ReadsBack to_str) (ok-injective h) (_, refl, refl)
target-ReadsBack to_str none (some s) i same h = ground (arith, h)
target-ReadsBack to_str (some c) none i same h =
    subst (ReadsBack to_str) (ok-injective h) (_, refl, ap (λ t. ok (category t)) (same c))
target-ReadsBack to_str (some c) (some s) i same h =
    subst (ReadsBack to_str) (ok-injective h) (_, refl, (λ i. ok (stream (same c i) (same s i))))
