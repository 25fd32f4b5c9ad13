-- ===== src/Types/Projection.antt =====
-- src/logicblocks/event/types/projection.py: a projection, the value that events reduce to.
use event_store.Prelude.{String}
use event_store.Types.Identifier.{EventSourceIdentifier}

pub record Projection (State Metadata : Type 0) : Type 0 where
  pub id : String
  pub name : String
  pub source : EventSourceIdentifier
  pub state : State
  pub metadata : Metadata
