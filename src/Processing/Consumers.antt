-- ===== src/Processing/Consumers.antt =====
-- src/logicblocks/event/processing/consumers/state: how far a consumer has come, kept in memory and
-- saved to a stream of a category. A method that saves or loads takes the adapter of the category as
-- it is when the method runs, and leaves one. A time `now` is what the clock gives to a new event.
pub mod Saving
pub mod Loading
pub mod Lags
pub mod Consuming
pub mod Alone
pub mod Progress
pub mod Starting
pub mod Finishing
pub mod Running
pub mod Resuming
use event_store.Prelude.{
  ℕ, suc, ℤ, pos, String, string_eq, Bool, true, false, ◌&&◌, not, Option, none, some, List, [],
  ◌∷◌, map, leb, nat_beq, Result, ok, err, value_error, index_error, ◌>>=◌, Dict, lookup, assign,
  if◌then◌else◌,
}
use event_store.Types.Json.{
  JsonValue, null, bool, int, object, JsonObject, empty, field, get, put, merge,
}
use event_store.Types.Conversion.{text, json}
use event_store.Types.Event.{Datetime, SerialisedEvent, new_event}
use event_store.Sources.{QueryConstraint, sequence_number_after}
use event_store.Store.Conditions.{WriteCondition, position_is, empty_stream}
use event_store.Store.Adapter.{Adapter, EventToStore, NewStoredEvent, Saved, of_stream, of_category}
use event_store.Store.EventStream.{latest, publish}
use event_store.Store.EventCategory.{EventCategory, stream}

pub record EventConsumerState : Type 0 where
  pub state : JsonObject

-- `isinstance(value, int)`, which a Boolean passes too
unfoldable pub as_int : JsonValue → Option ℤ
as_int (int i) = some i
as_int (bool true) = some (pos 1)
as_int (bool false) = some (pos 0)
as_int _ = none

-- `_normalise_state_for_backwards_compat`
unfoldable pub normalise_state : Option JsonObject → Option JsonValue → JsonObject
unfolding as_int put
normalise_state state maybe_last_sequence_number =
    let state : JsonObject = elim state [ none ↦ empty | some s ↦ s ] in
    elim maybe_last_sequence_number [
      | none ↦ state
      | some value ↦ elim (as_int value) [
        | none ↦ state
        | some i ↦ put state "last_sequence_number" value
      ]
    ]

abbrev cannot_deserialise : Result EventConsumerState
cannot_deserialise = err (value_error "Cannot deserialise value.")

-- `EventConsumerState.deserialise`, of an object, once its `state` is read
unfoldable pub deserialise_state : JsonObject → Option JsonValue → Result EventConsumerState
unfolding normalise_state
deserialise_state value none =
    ok (record { state = normalise_state none (get value "last_sequence_number") })
deserialise_state value (some null) =
    ok (record { state = normalise_state none (get value "last_sequence_number") })
deserialise_state value (some (object state)) =
    ok (record { state = normalise_state (some state) (get value "last_sequence_number") })
deserialise_state value (some _) = cannot_deserialise

-- `EventConsumerState.deserialise`
unfoldable pub deserialise : JsonValue → Result EventConsumerState
unfolding deserialise_state get
deserialise (object value) = deserialise_state value (get value "state")
deserialise _ = cannot_deserialise

unfoldable pub serialise : EventConsumerState → JsonValue
serialise self = object (field "state" (object self.state) empty)

-- `EventConsumerStateConverter`
pub record EventConsumerStateConverter (E : Type 0) : Type 0 where
  pub event_to_state : E → JsonObject
  pub initial_state : JsonObject
  pub state_to_query_constraint : JsonObject → Option QueryConstraint

-- `StoredEventEventConsumerStateConverter.state_to_query_constraint`
unfoldable pub constraint_of : JsonObject → Option QueryConstraint
unfolding get as_int
constraint_of state = elim (get state "last_sequence_number") [
  | none ↦ none
  | some value ↦ elim (as_int value) [ none ↦ none | some i ↦ some (sequence_number_after i) ]
]

-- `StoredEventEventConsumerStateConverter`
unfoldable pub stored_event_converter : EventConsumerStateConverter SerialisedEvent
unfolding constraint_of
stored_event_converter = record {
  event_to_state = λ event. field "last_sequence_number" (int (pos event.sequence_number)) empty;
  initial_state = field "last_sequence_number" null empty;
  state_to_query_constraint = constraint_of;
}

pub record EventConsumerStateStore : Type 0 where
  pub category : EventCategory
  pub persistence_interval : Option ℕ
  pub states : Dict String (Option EventConsumerState)
  pub positions : Dict String (Option ℤ)
  pub persistence_lags : Dict String ℕ

unfoldable pub new_store : EventCategory → Option ℕ → EventConsumerStateStore
new_store category persistence_interval = record {
  category = category;
  persistence_interval = persistence_interval;
  states = [];
  positions = [];
  persistence_lags = [];
}

-- `d.get(k, None)`, where a value may be `None`
unfoldable pub get_or_none : {A : Type 0} → Dict String (Option A) → String → Option A
get_or_none d k = elim (lookup k d) [ none ↦ none | some v ↦ v ]

-- `self._persistence_lags[partition]`
unfoldable pub lag : EventConsumerStateStore → String → ℕ
lag self partition = elim (lookup partition self.persistence_lags) [ none ↦ 0 | some n ↦ n ]

-- What reading that leaves: a `defaultdict` has the key from then on.
unfoldable pub read_lag : EventConsumerStateStore → String → EventConsumerStateStore
unfolding lag
read_lag self partition = record self {
  persistence_lags = assign partition (lag self partition) self.persistence_lags;
}

unfoldable pub with_extra : JsonObject → Option JsonObject → JsonObject
unfolding merge
with_extra state none = state
with_extra state (some extra_state) = merge state extra_state

module _ {E : Type 0} (converter : EventConsumerStateConverter E) where
  unfoldable pub record_processed :
      EventConsumerStateStore → E → Option JsonObject → String → EventConsumerStateStore
  unfolding with_extra lag
  record_processed self event extra_state partition =
      let combined_state = with_extra (converter.event_to_state event) extra_state in
      record self {
        states = assign partition (some (record { state = combined_state })) self.states;
        persistence_lags = assign partition (suc (lag self partition)) self.persistence_lags;
      }

  unfoldable pub reset :
      EventConsumerStateStore → Option JsonObject → String → EventConsumerStateStore
  unfolding with_extra
  reset self extra_state partition =
      let combined_state = with_extra converter.initial_state extra_state in
      record self {
        states = assign partition (some (record { state = combined_state })) self.states;
        persistence_lags = assign partition 0 self.persistence_lags;
      }

-- The event of a state.
unfoldable pub state_changed : EventConsumerState → Datetime → EventToStore
unfolding serialise new_event
state_changed state now = new_event (text "state-changed") (json (serialise state)) none none now

-- `stored_events[0].position`
unfoldable pub first_position : Saved → Result ℤ
first_position (of_stream []) = err index_error
first_position (of_stream (event ∷ events)) = ok event.position
first_position (of_category streams) = err index_error

unfoldable pub condition_at : Option ℤ → WriteCondition
condition_at none = empty_stream
condition_at (some position) = position_is (some position)

-- `self._positions.get(partition)`, or the position of the latest event of the partition's stream
unfoldable pub known_position : EventConsumerStateStore → String → Adapter → Result (Option ℤ)
unfolding get_or_none latest stream
known_position self partition a = elim (get_or_none self.positions partition) [
  | some position ↦ ok (some position)
  | none ↦ do
    event ← latest (stream self.category partition) a
    ok (elim event [ none ↦ none | some e ↦ some e.position ])
]

-- What a method raises, if it does, with the store and the adapter that it leaves.
abbrev pub Outcome : Type 0 → Type 0
Outcome A = Result A × EventConsumerStateStore × Adapter

module _ (uuid4_hex : ℕ → String) (now : Datetime) where
  -- What follows the publication in a turn of the loop of `save`.
  unfoldable pub publication_saved :
      EventConsumerStateStore → String → Result Saved × Adapter → Outcome (Unit {0})
  unfolding first_position
  publication_saved self partition (published, a) = elim (published >>= first_position) [
    | err e ↦ (err e, self, a)
    | ok position ↦ (
      ok tt,
      record self {
        positions = assign partition (some position) self.positions;
        persistence_lags = assign partition 0 self.persistence_lags;
      },
      a,
    )
  ]

  unfoldable pub publish_state :
      EventConsumerStateStore → String → EventConsumerState → Adapter → Outcome (Unit {0})
  unfolding known_position condition_at state_changed publish stream publication_saved
  publish_state self partition state a = elim (known_position self partition a) [
    | err e ↦ (err e, self, a)
    | ok position ↦ publication_saved self partition (
        publish uuid4_hex (stream self.category partition) (state_changed state now ∷ [])
          (condition_at position) a)
  ]

  -- A turn of the loop of `save`.
  unfoldable pub save_partition : EventConsumerStateStore → String → Adapter → Outcome (Unit {0})
  unfolding get_or_none lag read_lag publish_state
  save_partition self partition a = elim (get_or_none self.states partition) [
    | none ↦ (ok tt, self, a)
    | some state ↦
        if nat_beq (lag self partition) 0
        then (ok tt, read_lag self partition, a)
        else publish_state self partition state a
  ]

  -- The loop of `save`.
  unfoldable pub save_partitions :
      EventConsumerStateStore → List String → Adapter → Outcome (Unit {0})
  unfolding save_partition
  save_partitions self [] a = (ok tt, self, a)
  save_partitions self (partition ∷ partitions) a =
      let (result, self', a') = save_partition self partition a in
      let rest = save_partitions self' partitions a' in
      elim result [ ok u ↦ rest | err e ↦ (err e, self', a') ]

  unfoldable pub save : EventConsumerStateStore → Option String → Adapter → Outcome (Unit {0})
  unfolding save_partitions
  save self none a = save_partitions self (map (λ entry. entry.0) self.persistence_lags) a
  save self (some partition) a = save_partitions self (partition ∷ []) a

  -- `save_if_needed`, once the persistence interval is read; one of 0 is no interval.
  unfoldable pub save_if_due :
      Option ℕ → EventConsumerStateStore → String → Adapter → Outcome (Unit {0})
  unfolding read_lag lag save
  save_if_due none self partition a = (ok tt, self, a)
  save_if_due (some interval) self partition a =
      if nat_beq interval 0
      then (ok tt, self, a)
      else if leb interval (lag self partition)
      then save self (some partition) a
      else (ok tt, read_lag self partition, a)

  unfoldable pub save_if_needed : EventConsumerStateStore → String → Adapter → Outcome (Unit {0})
  unfolding save_if_due
  save_if_needed self partition a = save_if_due self.persistence_interval self partition a

-- What `load` keeps of the latest event of the partition's stream.
unfoldable pub load_event :
    EventConsumerStateStore
    → String
    → Option SerialisedEvent
    → Adapter
    → Outcome (Option EventConsumerState)
unfolding deserialise
load_event self partition none a = (
  ok none,
  record self {
    states = assign partition none self.states;
    positions = assign partition none self.positions;
  },
  a,
)
load_event self partition (some event) a = elim (deserialise event.payload) [
  | err e ↦ (err e, self, a)
  | ok state ↦ (
    ok (some state),
    record self {
      states = assign partition (some state) self.states;
      positions = assign partition (some event.position) self.positions;
    },
    a,
  )
]

unfoldable pub load :
    EventConsumerStateStore → String → Adapter → Outcome (Option EventConsumerState)
unfolding get_or_none latest stream load_event
load self partition a = elim (get_or_none self.states partition) [
  | some state ↦ (ok (some state), self, a)
  | none ↦ elim (latest (stream self.category partition) a) [
    | err e ↦ (err e, self, a)
    | ok event ↦ load_event self partition event a
  ]
]

-- The constraint of a loaded state.
unfoldable pub loaded_constraint :
    {E : Type 0}
    → EventConsumerStateConverter E
    → Option EventConsumerState
    → Option QueryConstraint
loaded_constraint converter none = none
loaded_constraint converter (some state) = converter.state_to_query_constraint state.state

unfoldable pub load_to_query_constraint :
    {E : Type 0}
    → EventConsumerStateConverter E
    → EventConsumerStateStore
    → String
    → Adapter
    → Outcome (Option QueryConstraint)
unfolding load loaded_constraint
load_to_query_constraint converter self partition a =
    let (loaded, self', a') = load self partition a in
    (loaded >>= λ state. ok (loaded_constraint converter state), self', a')
