-- ===== src/Store/Db.antt =====
-- src/logicblocks/event/store/adapters/memory/db.py: the events by sequence number, and the three
-- indices of sequence numbers. A defaultdict of lists is a function.
pub mod Represents
pub mod Reads
use event_store.Prelude.{
  ℕ, suc, ◌+◌, ◌-◌, ℤ, pos, negsuc, String, Bool, true, false, ◌||◌, Option, none, some, List, [],
  ◌∷◌, ◌++◌, length, get_elem?, set, replicate, any, last?, leb, if◌then◌else◌, HasEquality, ◌==◌,
  pair_eq, string_eq, Result, ok, err, value_error, index_error, ◌>>=◌,
}
use event_store.Types.Event.{SerialisedEvent}
use event_store.Types.Identifier.{
  EventSourceIdentifier, PartitionIdentifier, log, log_partition, category, category_partition,
  stream,
}
use event_store.Sources.{QueryConstraint, QueryConstraintCheck, meets}

abbrev pub StreamKey : Type 0
StreamKey = String × String

abbrev pub EventPositionList : Type 0
EventPositionList = List ℕ

-- A `StreamIdentifier`, as the database is given it.
pub record StreamIdentifier : Type 0 where
  pub category : String
  pub stream : String

abbrev pub key : StreamIdentifier → StreamKey
key target = (target.category, target.stream)

pub record EventsDb : Type 0 where
  pub events : List (Option SerialisedEvent)
  pub log_index : EventPositionList
  pub category_index : String → EventPositionList
  pub stream_index : StreamKey → EventPositionList
  pub constraint_converter : QueryConstraint → QueryConstraintCheck SerialisedEvent

-- `InMemoryEventsDB(events=None, …)`
unfoldable pub new_db : (QueryConstraint → QueryConstraintCheck SerialisedEvent) → EventsDb
new_db converter = record {
  events = [];
  log_index = [];
  category_index = λ k. [];
  stream_index = λ k. [];
  constraint_converter = converter;
}

-- Values do not change, so a copy of them is the same value.
unfoldable pub snapshot : EventsDb → EventsDb
snapshot db = record {
  events = db.events;
  log_index = db.log_index;
  category_index = db.category_index;
  stream_index = db.stream_index;
  constraint_converter = db.constraint_converter;
}

-- `self._events[i]`
unfoldable pub event_at : EventsDb → ℕ → Result (Option SerialisedEvent)
event_at db i = elim (get_elem? db.events i) [ none ↦ err index_error | some slot ↦ ok slot ]

-- `[self._events[i] for i in index]`
unfoldable pub events_at : EventsDb → EventPositionList → Result (List (Option SerialisedEvent))
unfolding event_at
events_at db [] = ok []
events_at db (i ∷ index) = do slot ← event_at db i; rest ← events_at db index; ok (slot ∷ rest)

-- The `any(event is None …)` check, and the list as one of events.
unfoldable pub without_none : List (Option SerialisedEvent) → Result (List SerialisedEvent)
without_none [] = ok []
without_none (none ∷ slots) = err (value_error "Invalid state: stream contains None values.")
without_none (some event ∷ slots) = do rest ← without_none slots; ok (event ∷ rest)

unfoldable pub stream_events : EventsDb → StreamIdentifier → Result (List SerialisedEvent)
unfolding events_at without_none
stream_events db target = do slots ← events_at db (db.stream_index (key target)); without_none slots

unfoldable pub last_stream_event : EventsDb → StreamIdentifier → Result (Option SerialisedEvent)
unfolding stream_events
last_stream_event db target = do events ← stream_events db target; ok (last? events)

unfoldable pub position_or_none : Option SerialisedEvent → ℤ
position_or_none none = negsuc 0
position_or_none (some event) = event.position

unfoldable pub last_stream_position : EventsDb → StreamIdentifier → Result ℤ
unfolding last_stream_event position_or_none
last_stream_position db target = do
  last_stream_event ← last_stream_event db target
  ok (position_or_none last_stream_event)

-- `index[k] += [i]`
unfoldable pub index_append {ℓ} :
    {K : Type ℓ} ⦃e : HasEquality K⦄ → (K → EventPositionList) → K → ℕ → K → EventPositionList
index_append index k i k' = if k == k' then index k ++ i ∷ [] else index k'

-- `self._events` with room for the sequence number
unfoldable pub grown : List (Option SerialisedEvent) → ℕ → List (Option SerialisedEvent)
grown events n =
    if leb (length events) n then events ++ replicate (n - length events + 1) none else events

unfoldable pub add : EventsDb → SerialisedEvent → EventsDb
unfolding index_append grown
add db event = record {
  events = set (grown db.events event.sequence_number) event.sequence_number (some event);
  log_index = db.log_index ++ event.sequence_number ∷ [];
  category_index = index_append db.category_index event.category event.sequence_number;
  stream_index = index_append db.stream_index (event.category, event.stream) event.sequence_number;
  constraint_converter = db.constraint_converter;
}

unfoldable pub select_index : EventsDb → EventSourceIdentifier → Result EventPositionList
select_index db log = ok db.log_index
select_index db (category c) = ok (db.category_index c)
select_index db (stream c s) = ok (db.stream_index (c, s))
select_index db (log_partition partition) = err (value_error "Unknown target")
select_index db (category_partition c partition) = err (value_error "Unknown target")

-- `self._events[index[-1]] if index else None`
unfoldable pub event_at_last : EventsDb → Option ℕ → Result (Option SerialisedEvent)
unfolding event_at
event_at_last db none = ok none
event_at_last db (some i) = event_at db i

unfoldable pub last_event : EventsDb → EventSourceIdentifier → Result (Option SerialisedEvent)
unfolding select_index event_at_last
last_event db target = do index ← select_index db target; event_at_last db (last? index)

-- What the generator yields, and how it ends.
pub record Scan : Type 0 where
  pub yielded : List SerialisedEvent
  pub ended : Result (Unit {0})

abbrev pub before : List SerialisedEvent → Scan → Scan
before events scan = record scan { yielded = events ++ scan.yielded }

-- The loop of `scan_events`.
unfoldable pub scan_index : EventsDb → List QueryConstraint → EventPositionList → Scan
unfolding meets
scan_index db constraints [] = record { yielded = []; ended = ok tt }
scan_index db constraints (i ∷ index) =
    let rest = scan_index db constraints index in
    elim (get_elem? db.events i) [
      | none ↦ record { yielded = []; ended = err index_error }
      | some none ↦ record {
        yielded = [];
        ended = err (value_error "Invalid state: event is None");
      }
      | some (some event) ↦
          if meets db.constraint_converter constraints event then before (event ∷ []) rest else rest
    ]

unfoldable pub scan_events : EventsDb → EventSourceIdentifier → List QueryConstraint → Scan
unfolding select_index scan_index
scan_events db target constraints = elim (select_index db target) [
  | err e ↦ record { yielded = []; ended = err e }
  | ok index ↦ scan_index db constraints index
]

-- `InMemoryEventsDBTransaction`: events wait for the commit, and reads go to the database.
pub record Transaction : Type 0 where
  pub db : EventsDb
  pub added_events : List SerialisedEvent

unfoldable pub transaction : EventsDb → Transaction
transaction db = record { db = db; added_events = [] }

unfoldable pub add_to : Transaction → SerialisedEvent → Transaction
add_to t event = record t { added_events = t.added_events ++ event ∷ [] }

unfoldable pub add_all : EventsDb → List SerialisedEvent → EventsDb
unfolding add
add_all db [] = db
add_all db (event ∷ events) = add_all (add db event) events

unfoldable pub commit : Transaction → EventsDb
unfolding add_all
commit t = add_all t.db t.added_events
