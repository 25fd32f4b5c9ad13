-- ===== src/Sources/Memory.antt =====
-- src/logicblocks/event/sources/memory.py and constrained.py: a source of events that are given as a
-- list, and a source with constraints of its own over another. A set of constraints is a list of its
-- members.
pub mod Constraining
use event_store.Prelude.{Bool, Option, List, [], ◌∷◌, ◌++◌, all, last?, if◌then◌else◌}
use event_store.Types.Identifier.{EventSourceIdentifier}
use event_store.Sources.{QueryConstraint, QueryConstraintCheck}

-- What a source answers: its identifier, its latest event, and the events that meet constraints.
pub record EventSource (E : Type 0) : Type 0 where
  pub identifier : EventSourceIdentifier
  pub latest : Option E
  pub iterate : List QueryConstraint → List E

module _ {E : Type 0} where
  -- The loop of `InMemoryEventSource.iterate`.
  unfoldable pub iterate_events :
      (QueryConstraint → QueryConstraintCheck E) → List QueryConstraint → List E → List E
  iterate_events converter constraints [] = []
  iterate_events converter constraints (event ∷ events) =
      let rest = iterate_events converter constraints events in
      if all (λ constraint. converter constraint event) constraints then event ∷ rest else rest

  unfoldable pub in_memory :
      List E → EventSourceIdentifier → (QueryConstraint → QueryConstraintCheck E) → EventSource E
  unfolding iterate_events
  in_memory events identifier converter = record {
    identifier = identifier;
    latest = last? events;
    iterate = λ constraints. iterate_events converter constraints events;
  }

  unfoldable pub constrained : EventSource E → List QueryConstraint → EventSource E
  constrained delegate constraints = record {
    identifier = delegate.identifier;
    latest = delegate.latest;
    iterate = λ more. delegate.iterate (constraints ++ more);
  }

  -- `EventSource.read`
  unfoldable pub read : EventSource E → List QueryConstraint → List E
  read source constraints = source.iterate constraints
