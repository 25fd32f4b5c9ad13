-- ===== src/Store/EventStore.antt =====
-- `EventStore` of src/logicblocks/event/store/store.py: the interface into one adapter, which gives
-- out scoped stores.
use event_store.Prelude.{String}
use event_store.Store.EventStream.{EventStream}
use event_store.Store.EventCategory.{EventCategory}
use event_store.Store.EventLog.{EventLog, event_log}

unfoldable pub stream : String → String → EventStream
stream category name = record { identifier = record { category = category; stream = name } }

unfoldable pub category : String → EventCategory
category name = record { identifier = record { category = name } }

unfoldable pub log : EventLog
log = event_log
