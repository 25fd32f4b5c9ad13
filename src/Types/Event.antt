-- ===== src/Types/Event.antt =====
-- src/logicblocks/event/types/event.py: new and stored events. A time is a number of microseconds.
use event_store.Prelude.{ℕ, ℤ, String, Option, none, some}
use event_store.Types.Json.{JsonValue}

abbrev pub Datetime : Type 0
Datetime = ℕ

pub record NewEvent (Name Payload : Type 0) : Type 0 where
  pub name : Name
  pub payload : Payload
  pub observed_at : Datetime
  pub occurred_at : Datetime

-- `NewEvent.__init__`; `now` is what the clock gives.
unfoldable pub new_event :
    {Name Payload : Type 0}
    → Name
    → Payload
    → Option Datetime
    → Option Datetime
    → Datetime
    → NewEvent Name Payload
new_event name payload none none now = record {
  name = name;
  payload = payload;
  observed_at = now;
  occurred_at = now;
}
new_event name payload (some observed) none now = record {
  name = name;
  payload = payload;
  observed_at = observed;
  occurred_at = observed;
}
new_event name payload none (some occurred) now = record {
  name = name;
  payload = payload;
  observed_at = now;
  occurred_at = occurred;
}
new_event name payload (some observed) (some occurred) now = record {
  name = name;
  payload = payload;
  observed_at = observed;
  occurred_at = occurred;
}

pub record StoredEvent (Name Payload : Type 0) : Type 0 where
  pub id : String
  pub name : Name
  pub stream : String
  pub category : String
  pub position : ℤ
  pub sequence_number : ℕ
  pub payload : Payload
  pub observed_at : Datetime
  pub occurred_at : Datetime

-- An event as the in-memory database keeps it.
abbrev pub SerialisedEvent : Type 0
SerialisedEvent = StoredEvent String JsonValue
