-- ===== src/Projecting.antt =====
-- src/logicblocks/event/projection/projector.py: a projector reduces the events of a source to a
-- projection. What a subclass supplies are fields; `handler` is `getattr(self, name, None)`, and
-- `to_snake_case` a parameter. A state or metadata may be `None`, which is `none`, as it is for an
-- argument that is left out: the code does not tell the two apart.
pub mod Folding
use event_store.Prelude.{
  String, Option, none, some, List, [], ◌∷◌, Result, ok, err, missing_projection_handler_error,
  ◌>>=◌,
}
use event_store.Types.Identifier.{EventSourceIdentifier}
use event_store.Types.Event.{SerialisedEvent}
use event_store.Types.Projection.{Projection}
use event_store.Sources.Memory.{EventSource}

pub data MissingHandlerBehaviour : Type 0 where
  raise_error : MissingHandlerBehaviour
  ignore : MissingHandlerBehaviour

-- A handler of events.
abbrev pub Handler : Type 0 → Type 0
Handler State = Option State → SerialisedEvent → Result (Option State)

pub record Projector (State Metadata : Type 0) : Type 0 where
  pub class_name : String
  pub projection_name : String
  pub missing_handler_behaviour : MissingHandlerBehaviour
  pub initial_state_factory : Result (Option State)
  pub initial_metadata_factory : Result (Option Metadata)
  pub id_factory : Option State → EventSourceIdentifier → Result String
  pub update_metadata : Option State → Option Metadata → SerialisedEvent → Result (Option Metadata)
  pub handler : String → Option (Handler State)

unfoldable pub resolve_missing :
    {State : Type 0} → MissingHandlerBehaviour → String → SerialisedEvent → Result (Handler State)
resolve_missing raise_error class_name event =
    err (missing_projection_handler_error event.name class_name)
resolve_missing ignore class_name event = ok (λ state _. ok state)

module _ {State Metadata : Type 0} where
  unfoldable pub resolve_state : Projector State Metadata → Option State → Result (Option State)
  resolve_state self none = self.initial_state_factory
  resolve_state self (some state) = ok (some state)

  unfoldable pub resolve_metadata :
      Projector State Metadata → Option Metadata → Result (Option Metadata)
  resolve_metadata self none = self.initial_metadata_factory
  resolve_metadata self (some metadata) = ok (some metadata)

  -- The end of `project`
  unfoldable pub projection_of :
      Projector State Metadata
      → EventSourceIdentifier
      → Option State × Option Metadata
      → Result (Projection (Option State) (Option Metadata))
  projection_of self identifier (state, metadata) = do
    id ← self.id_factory state identifier
    ok (record {
      id = id;
      name = self.projection_name;
      source = identifier;
      state = state;
      metadata = metadata;
    })

module _ {State Metadata : Type 0} (to_snake_case : String → String) where
  -- The handler that an event has.
  unfoldable pub found_handler : Projector State Metadata → SerialisedEvent → Option (Handler State)
  found_handler self event = self.handler (to_snake_case event.name)

  unfoldable pub resolve_handler :
      Projector State Metadata → SerialisedEvent → Result (Handler State)
  unfolding found_handler resolve_missing
  resolve_handler self event = elim (found_handler self event) [
    | some handler ↦ ok handler
    | none ↦ resolve_missing self.missing_handler_behaviour self.class_name event
  ]

  unfoldable pub apply :
      Projector State Metadata → SerialisedEvent → Option State → Result (Option State)
  unfolding resolve_state resolve_handler
  apply self event state = do
    state ← resolve_state self state
    handler ← resolve_handler self event
    handler state event

  -- The loop of `project`
  unfoldable pub project_events :
      Projector State Metadata
      → List SerialisedEvent
      → Option State
      → Option Metadata
      → Result (Option State × Option Metadata)
  unfolding apply
  project_events self [] state metadata = ok (state, metadata)
  project_events self (event ∷ events) state metadata = do
    state ← apply self event state
    metadata ← self.update_metadata state metadata event
    project_events self events state metadata

  unfoldable pub project :
      Projector State Metadata
      → EventSource SerialisedEvent
      → Option State
      → Option Metadata
      → Result (Projection (Option State) (Option Metadata))
  unfolding resolve_state resolve_metadata project_events projection_of
  project self source state metadata = do
    state ← resolve_state self state
    metadata ← resolve_metadata self metadata
    reached ← project_events self (source.iterate []) state metadata
    projection_of self source.identifier reached
