-- ===== src/Store/Adapter/Specification.antt =====
-- What a save promises, with no indices and no transaction: the log is a list of events, and a
-- save appends to it the new events, numbered.
use event_store.Prelude.{
  ℕ, suc, ℤ, pos, String, List, [], ◌∷◌, length, last?, select, Result, ok, err, ◌>>=◌, ◌>>◌, ◌<◌,
  All,
}
use event_store.Types.Conversion.{raising, serialise_to_string, serialise_to_json_value}
use event_store.Types.Event.{SerialisedEvent}
use event_store.Store.Conditions.{WriteCondition}
use event_store.Store.Enforcers.{convert, assert_satisfied}
use event_store.Store.Db.{StreamIdentifier, key}
use event_store.Store.Db.Represents.{Log, Represents, in_stream, sequence_numbers}
use event_store.Store.Adapter.{Adapter, EventToStore, NewStoredEvent}
use event_store.Store.Adapter.Positions.{IsContiguous}

-- The events of one stream.
abbrev pub own : StreamIdentifier → Log → Log
own target l = select (in_stream (key target)) l

abbrev pub IsIncreasing : List ℕ → Type 0
IsIncreasing [] = Unit
IsIncreasing (n ∷ ns) = All (λ m. n < m) ns × IsIncreasing ns

-- The adapter holds the log: the database represents it, the positions of each stream count from
-- 0, and the sequence numbers rise along the log and stay below the next one.
pub record IsValid (a : Adapter) (l : Log) : Type 0 where
  pub represents : Represents a.db l
  pub contiguous : IsContiguous l
  pub below : All (λ e. e.sequence_number < a.sequence) l
  pub increasing : IsIncreasing (sequence_numbers l)

-- What the log keeps of an event: every field as it is, but for the name, which is serialised to a
-- text, and the payload, which is serialised to a JSON value after it.
unfoldable pub kept : NewStoredEvent → Result SerialisedEvent
kept event = elim (serialise_to_string event.name raising) [
  | err e ↦ err e
  | ok name ↦ elim (serialise_to_json_value event.payload raising) [
    | err e ↦ err e
    | ok payload ↦ ok (record {
      id = event.id;
      name = name;
      stream = event.stream;
      category = event.category;
      position = event.position;
      sequence_number = event.sequence_number;
      payload = payload;
      observed_at = event.observed_at;
      occurred_at = event.occurred_at;
    })
  ]
]

unfoldable pub serialise_all : List NewStoredEvent → Result (List SerialisedEvent)
unfolding kept
serialise_all [] = ok []
serialise_all (event ∷ events) = do
  serialised ← kept event
  rest ← serialise_all events
  ok (serialised ∷ rest)

module _ (uuid4_hex : ℕ → String) where
  unfoldable pub event_at_position : StreamIdentifier → ℤ → ℕ → EventToStore → NewStoredEvent
  event_at_position target position sequence_number new_event = record {
    id = uuid4_hex sequence_number;
    name = new_event.name;
    stream = target.stream;
    category = target.category;
    position = position;
    sequence_number = sequence_number;
    payload = new_event.payload;
    observed_at = new_event.observed_at;
    occurred_at = new_event.occurred_at;
  }

  -- The new events, with positions and sequence numbers that count on from the given ones.
  unfoldable pub numbered : StreamIdentifier → ℕ → ℕ → List EventToStore → List NewStoredEvent
  unfolding event_at_position
  numbered target n sequence [] = []
  numbered target n sequence (event ∷ events) =
      event_at_position target (pos n) sequence event
      ∷ numbered target (suc n) (suc sequence) events

  -- What a save to a stream returns, and what it appends to the log.
  unfoldable pub saved :
      Log
      → ℕ
      → StreamIdentifier
      → List EventToStore
      → WriteCondition
      → Result (List NewStoredEvent × List SerialisedEvent)
  unfolding numbered serialise_all
  saved l sequence target events condition = do
    assert_satisfied (convert condition) (last? (own target l))
    let stored = numbered target (length (own target l)) sequence events
    serialised ← serialise_all stored
    ok (stored, serialised)
