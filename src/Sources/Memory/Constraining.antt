-- ===== src/Sources/Memory/Constraining.antt =====
-- What constraints over constraints come to.
use event_store.Prelude.{
  ◌≡◌, refl, sym, ◌∙◌, Bool, ◌&&◌, List, [], ◌∷◌, ◌++◌, all, select, select-select, select-cong,
  arith,
}
use event_store.Types.Identifier.{EventSourceIdentifier}
use event_store.Sources.{QueryConstraint, QueryConstraintCheck}
use event_store.Sources.Memory.{iterate_events, in_memory, constrained, read}

module _ {E : Type 0} (converter : QueryConstraint → QueryConstraintCheck E) where
  abbrev pub meets_all : List QueryConstraint → E → Bool
  meets_all constraints event = all (λ constraint. converter constraint event) constraints

  iterate_events-select :
      (constraints : List QueryConstraint) (events : List E)
      → iterate_events converter constraints events ≡ select (meets_all constraints) events
  unfolding iterate_events
  iterate_events-select constraints [] = refl
  iterate_events-select constraints (event ∷ events) =
      rw (iterate_events-select constraints events) refl

  meets_all-append :
      (own more : List QueryConstraint) (event : E)
      → meets_all (own ++ more) event ≡ (meets_all more event && meets_all own event)
  meets_all-append [] more event = ground arith
  meets_all-append (c ∷ own) more event = ground (arith, meets_all-append own more event)

  -- Reading a source with constraints of its own over an in-memory source yields, of what the
  -- in-memory source yields for the constraints given, the events that meet its own as well, in the
  -- same order.
  pub read-constrained :
      (events : List E) (identifier : EventSourceIdentifier) (own more : List QueryConstraint)
      → read (constrained (in_memory events identifier converter) own) more
        ≡ select (meets_all own) (read (in_memory events identifier converter) more)
  unfolding read constrained in_memory
  read-constrained events identifier own more =
      rw (iterate_events-select (own ++ more) events, iterate_events-select more events)
        (select-cong _ _ events (meets_all-append own more)
          ∙ sym (select-select (meets_all own) (meets_all more) events))
