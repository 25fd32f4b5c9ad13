-- ===== src/Store/EventLog.antt =====
-- `EventLog` of src/logicblocks/event/store/store.py: the entire log of an adapter.
use event_store.Prelude.{Option, List, Result}
use event_store.Types.Event.{SerialisedEvent}
use event_store.Types.Identifier.{log as log_identifier}
use event_store.Sources.{QueryConstraint}
use event_store.Store.Db.{Scan}
use event_store.Store.Adapter.{Adapter, scan, latest as adapter_latest}

-- A log identifier has no field.
pub data EventLog : Type 0 where
  event_log : EventLog

unfoldable pub latest : EventLog → Adapter → Result (Option SerialisedEvent)
unfolding adapter_latest
latest self a = adapter_latest a log_identifier

unfoldable pub iterate : EventLog → List QueryConstraint → Adapter → Scan
unfolding scan
iterate self constraints a = scan a log_identifier constraints
