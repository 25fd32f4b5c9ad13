-- ===== src/Store/EventCategory.antt =====
-- `EventCategory` of src/logicblocks/event/store/store.py: one category of an adapter.
pub mod Narrowing
use event_store.Prelude.{ℕ, String, Option, none, some, List, Result}
use event_store.Types.Event.{SerialisedEvent}
use event_store.Types.Identifier.{EventSourceIdentifier, category}
use event_store.Sources.{QueryConstraint}
use event_store.Store.Conditions.{no_condition}
use event_store.Store.Db.{Scan}
use event_store.Store.EventStream.{EventStream}
use event_store.Store.Adapter.{
  Adapter, StreamPublishDefinition, Saved, save, scan, latest as adapter_latest,
}

-- `CategoryIdentifier`
pub record CategoryIdentifier : Type 0 where
  pub category : String

pub record EventCategory : Type 0 where
  pub identifier : CategoryIdentifier

abbrev pub target : EventCategory → EventSourceIdentifier
target self = category self.identifier.category

unfoldable pub latest : EventCategory → Adapter → Result (Option SerialisedEvent)
unfolding adapter_latest
latest self a = adapter_latest a (target self)

unfoldable pub stream : EventCategory → String → EventStream
stream self name = record {
  identifier = record { category = self.identifier.category; stream = name };
}

unfoldable pub iterate : EventCategory → List QueryConstraint → Adapter → Scan
unfolding scan
iterate self constraints a = scan a (target self) constraints

unfoldable pub publish :
    (ℕ → String)
    → EventCategory
    → List (String × StreamPublishDefinition)
    → Adapter
    → Result Saved × Adapter
unfolding save
publish uuid4_hex self streams a = save uuid4_hex a (target self) none no_condition (some streams)
