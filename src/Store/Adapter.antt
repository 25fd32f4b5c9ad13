-- ===== src/Store/Adapter.antt =====
-- src/logicblocks/event/store/adapters/memory/adapter.py: the in-memory storage adapter. A method
-- returns its result, or the exception that it raises, beside the adapter that it leaves. The
-- calls run one after the other here, as they do under the lock of the default guarantee.
pub mod Positions
pub mod Specification
pub mod Publishing
pub mod Appending
pub mod Refinement
pub mod Reads
pub mod Category
pub mod History
pub mod Once
use event_store.Prelude.{
  ℕ, suc, ◌+◌, ℤ, pos, ◌+ℤ◌, String, Option, none, some, List, [], ◌∷◌, Result, ok, err, Error,
  value_error, ◌>>=◌, ◌>>◌,
}
use event_store.Types.Conversion.{
  JsonPersistable, StringPersistable, raising, serialise_to_string, serialise_to_json_value,
}
use event_store.Types.Event.{NewEvent, StoredEvent, SerialisedEvent}
use event_store.Types.Identifier.{
  EventSourceIdentifier, log, log_partition, category, category_partition, stream,
}
use event_store.Sources.{QueryConstraint, convert_constraint}
use event_store.Store.Conditions.{WriteCondition, no_condition}
use event_store.Store.Enforcers.{convert, assert_satisfied}
use event_store.Store.Db.{
  EventsDb, StreamIdentifier, Transaction, Scan, new_db, snapshot, transaction, add_to, commit,
  last_stream_event, last_stream_position, last_event, scan_events,
}
use event_store.Store.Texts.{sorted_items}

abbrev pub EventToStore : Type 0
EventToStore = NewEvent StringPersistable JsonPersistable

abbrev pub NewStoredEvent : Type 0
NewStoredEvent = StoredEvent StringPersistable JsonPersistable

-- src/logicblocks/event/store/types.py
pub record StreamPublishDefinition : Type 0 where
  pub events : List EventToStore
  pub condition : Option WriteCondition

-- `stream_request.get("condition", NoCondition())`
unfoldable pub condition_of : StreamPublishDefinition → WriteCondition
condition_of request = elim request.condition [ none ↦ no_condition | some c ↦ c ]

pub record Adapter : Type 0 where
  pub sequence : ℕ
  pub db : EventsDb

unfoldable pub new_adapter : Adapter
unfolding new_db
new_adapter = record { sequence = 0; db = new_db convert_constraint }

-- The copy of a stored event that goes to the database.
unfoldable pub serialise_event : NewStoredEvent → Result SerialisedEvent
serialise_event event = do
  name ← serialise_to_string event.name raising
  payload ← serialise_to_json_value event.payload raising
  ok (record {
    id = event.id;
    name = name;
    stream = event.stream;
    category = event.category;
    position = event.position;
    sequence_number = event.sequence_number;
    payload = payload;
    observed_at = event.observed_at;
    occurred_at = event.occurred_at;
  })

-- What a save has come to: the events that it stores, or the exception; the sequence, of which
-- taken numbers are not given back; and the events that wait for the commit.
pub record Progress (A : Type 0) : Type 0 where
  pub result : Result A
  pub sequence : ℕ
  pub transaction : Transaction

unfoldable pub and_then :
    {A B : Type 0} → Progress A → (A → ℕ → Transaction → Progress B) → Progress B
and_then p next = elim p.result [
  | ok a ↦ next a p.sequence p.transaction
  | err e ↦ record { result = err e; sequence = p.sequence; transaction = p.transaction }
]

-- What is found before a save numbers its events: the last position of the stream, if the stream
-- can be read and the condition holds.
unfoldable pub checked_position : Transaction → StreamIdentifier → WriteCondition → Result ℤ
checked_position t target condition = do
  latest_event ← last_stream_event t.db target
  assert_satisfied (convert condition) latest_event
  last_stream_position t.db target

-- `transaction.commit()` after the last event, and nothing of the transaction after an exception.
unfoldable pub finish : {A : Type 0} → Adapter → Progress A → Result A × Adapter
finish a p = elim p.result [
  | ok stored ↦ (ok stored, record a { sequence = p.sequence; db = commit p.transaction })
  | err e ↦ (err e, record a { sequence = p.sequence })
]

-- What `save` returns for either kind of target.
pub data Saved : Type 0 where
  of_stream : List NewStoredEvent → Saved
  of_category : List (String × List NewStoredEvent) → Saved

unfoldable pub as_saved : {A : Type 0} → (A → Saved) → Result A × Adapter → Result Saved × Adapter
as_saved f (ok a, adapter) = (ok (f a), adapter)
as_saved f (err e, adapter) = (err e, adapter)

-- `uuid4_hex n` is the identifier that is drawn for the event that takes sequence number `n`.
module _ (uuid4_hex : ℕ → String) where
  unfoldable pub stored_event : StreamIdentifier → ℤ → ℕ → ℕ → EventToStore → NewStoredEvent
  stored_event target last_stream_position count sequence_number new_event = record {
    id = uuid4_hex sequence_number;
    name = new_event.name;
    stream = target.stream;
    category = target.category;
    position = last_stream_position +ℤ pos count +ℤ pos 1;
    sequence_number = sequence_number;
    payload = new_event.payload;
    observed_at = new_event.observed_at;
    occurred_at = new_event.occurred_at;
  }

  -- The loop over the events, with `count`, `next(self._sequence)` and the transaction.
  unfoldable pub store_events :
      StreamIdentifier
      → ℤ
      → ℕ
      → List EventToStore
      → ℕ
      → Transaction
      → Progress (List NewStoredEvent)
  unfolding stored_event and_then
  store_events target last count [] sequence t = record {
    result = ok [];
    sequence = sequence;
    transaction = t;
  }
  store_events target last count (new_event ∷ events) sequence t =
      let event = stored_event target last count sequence new_event in
      elim (serialise_event event) [
        | err e ↦ record { result = err e; sequence = suc sequence; transaction = t }
        | ok serialised ↦
            and_then
              (store_events target last (suc count) events (suc sequence) (add_to t serialised))
              (λ stored sequence' t'. record {
                result = ok (event ∷ stored);
                sequence = sequence';
                transaction = t';
              })
      ]

  -- One stream's part of a save: the condition, then the events.
  unfoldable pub publish :
      StreamIdentifier
      → List EventToStore
      → WriteCondition
      → ℕ
      → Transaction
      → Progress (List NewStoredEvent)
  unfolding checked_position store_events
  publish target events condition sequence t = elim (checked_position t target condition) [
    | err e ↦ record { result = err e; sequence = sequence; transaction = t }
    | ok last ↦ store_events target last 0 events sequence t
  ]

  unfoldable pub save_to_stream :
      Adapter
      → StreamIdentifier
      → List EventToStore
      → WriteCondition
      → Result (List NewStoredEvent) × Adapter
  unfolding publish finish
  save_to_stream a target events condition =
      finish a (publish target events condition a.sequence (transaction a.db))

  -- The loop over the streams of a category.
  unfoldable pub publish_streams :
      String
      → List (String × StreamPublishDefinition)
      → ℕ
      → Transaction
      → Progress (List (String × List NewStoredEvent))
  unfolding publish and_then condition_of
  publish_streams category_name [] sequence t = record {
    result = ok [];
    sequence = sequence;
    transaction = t;
  }
  publish_streams category_name ((name, request) ∷ streams) sequence t =
      and_then
        (publish (record { category = category_name; stream = name }) request.events
          (condition_of request) sequence t)
        (λ stored sequence' t'.
          and_then (publish_streams category_name streams sequence' t') (λ results sequence'' t''.
            record {
              result = ok ((name, stored) ∷ results);
              sequence = sequence'';
              transaction = t'';
            }))

  unfoldable pub save_to_category :
      Adapter
      → String
      → List (String × StreamPublishDefinition)
      → Result (List (String × List NewStoredEvent)) × Adapter
  unfolding publish_streams finish sorted_items
  save_to_category a category_name streams =
      finish a (publish_streams category_name (sorted_items streams) a.sequence (transaction a.db))

  unfoldable pub save :
      Adapter
      → EventSourceIdentifier
      → Option (List EventToStore)
      → WriteCondition
      → Option (List (String × StreamPublishDefinition))
      → Result Saved × Adapter
  unfolding save_to_stream save_to_category as_saved
  save a (stream c s) (some events) condition _ =
      as_saved of_stream (save_to_stream a (record { category = c; stream = s }) events condition)
  save a (stream c s) none _ _ =
      (err (value_error "The `events` parameter must be provided for stream level publish."), a)
  save a (category c) _ _ (some streams) = as_saved of_category (save_to_category a c streams)
  save a (category c) _ _ none =
      (err (value_error "The `streams` parameter must be provided for category level publish."), a)
  save a _ _ _ _ = (err (value_error "Unsupported target type"), a)

-- The reads work on a snapshot.
unfoldable pub latest : Adapter → EventSourceIdentifier → Result (Option SerialisedEvent)
unfolding snapshot
latest a target = last_event (snapshot a.db) target

unfoldable pub scan : Adapter → EventSourceIdentifier → List QueryConstraint → Scan
unfolding snapshot
scan a target constraints = scan_events (snapshot a.db) target constraints
