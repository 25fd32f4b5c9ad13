-- ===== src/Sources.antt =====
-- src/logicblocks/event/sources/constraints.py: constraints on what is read from a source.
pub mod Memory
use event_store.Prelude.{ℤ, pos, ltb_ℤ, Bool, List, all}
use event_store.Types.Event.{StoredEvent}

pub data QueryConstraint : Type 0 where
  sequence_number_after : ℤ → QueryConstraint

abbrev pub QueryConstraintCheck : Type 0 → Type 0
QueryConstraintCheck Event = Event → Bool

module _ {Name Payload : Type 0} where
  -- `TypeRegistryConstraintConverter` with its default converter
  -- (src/logicblocks/event/store/adapters/memory/converters.py)
  unfoldable pub convert_constraint :
      QueryConstraint → QueryConstraintCheck (StoredEvent Name Payload)
  convert_constraint (sequence_number_after sequence_number) event =
      ltb_ℤ sequence_number (pos event.sequence_number)

  -- `all(converter.convert(constraint)(event) for constraint in constraints)`
  unfoldable pub meets :
      (QueryConstraint → QueryConstraintCheck (StoredEvent Name Payload))
      → List QueryConstraint
      → StoredEvent Name Payload
      → Bool
  meets converter constraints event = all (λ c. converter c event) constraints
