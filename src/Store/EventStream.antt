-- ===== src/Store/EventStream.antt =====
-- `EventStream` of src/logicblocks/event/store/store.py: one stream of an adapter. The adapter is
-- shared, so a method takes it as it is when the method runs. Of the log lines there is the one that
-- serialises the events before they are saved, which can raise; those after the save serialise what
-- has been serialised already.
pub mod Publishing
use event_store.Prelude.{ℕ, String, Option, none, some, List, [], ◌∷◌, Result, ok, err, ◌>>=◌}
use event_store.Types.Conversion.{as_str, serialise_to_string, serialise_to_json_value}
use event_store.Types.Event.{SerialisedEvent}
use event_store.Types.Identifier.{EventSourceIdentifier, stream}
use event_store.Sources.{QueryConstraint}
use event_store.Store.Conditions.{WriteCondition}
use event_store.Store.Db.{StreamIdentifier, Scan}
use event_store.Store.Adapter.{Adapter, EventToStore, Saved, save, scan, latest as adapter_latest}

pub record EventStream : Type 0 where
  pub identifier : StreamIdentifier

-- The identifier as a target of the adapter's methods.
abbrev pub target : EventStream → EventSourceIdentifier
target self = stream self.identifier.category self.identifier.stream

unfoldable pub latest : EventStream → Adapter → Result (Option SerialisedEvent)
unfolding adapter_latest
latest self a = adapter_latest a (target self)

-- The serialisation of the events for the log line before a save.
unfoldable pub log_publishing : List EventToStore → Result (Unit {0})
log_publishing [] = ok tt
log_publishing (event ∷ events) = do
  name ← serialise_to_string event.name as_str
  payload ← serialise_to_json_value event.payload as_str
  log_publishing events

unfoldable pub publish :
    (ℕ → String)
    → EventStream
    → List EventToStore
    → WriteCondition
    → Adapter
    → Result Saved × Adapter
unfolding log_publishing save
publish uuid4_hex self events condition a = elim (log_publishing events) [
  | err e ↦ (err e, a)
  | ok u ↦ save uuid4_hex a (target self) (some events) condition none
]

unfoldable pub iterate : EventStream → List QueryConstraint → Adapter → Scan
unfolding scan
iterate self constraints a = scan a (target self) constraints
