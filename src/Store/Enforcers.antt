-- ===== src/Store/Enforcers.antt =====
-- src/logicblocks/event/store/adapters/memory/converters.py: the default converters of write
-- conditions into enforcers, what the enforcers raise, and the converters of query constraints.
pub mod Meaning
use event_store.Prelude.{
  ℤ, pos, ltb_ℤ, Bool, Option, none, some, Result, ok, err, Error, unmet_write_condition, ◌>>=◌,
  ◌>>◌, ◌==◌, option_eq, int_eq, if◌then◌else◌,
}
use event_store.Types.Event.{SerialisedEvent}
use event_store.Store.Conditions.{
  WriteCondition, no_condition, position_is, empty_stream, and_condition, or_condition, Conditions,
  nil, cons,
}

mutual
  pub data WriteConditionEnforcer : Type 0 where
    no_condition_enforcer : WriteConditionEnforcer
    position_is_enforcer : Option ℤ → WriteConditionEnforcer
    empty_stream_enforcer : WriteConditionEnforcer
    and_enforcer : Enforcers → WriteConditionEnforcer
    or_enforcer : Enforcers → WriteConditionEnforcer

  pub data Enforcers : Type 0 where
    empty : Enforcers
    enforcer : WriteConditionEnforcer → Enforcers → Enforcers

-- `TypeRegistryConditionConverter.convert` with the default converters, one for each class.
unfoldable mutual
  pub convert : WriteCondition → WriteConditionEnforcer
  convert no_condition = no_condition_enforcer
  convert (position_is position) = position_is_enforcer position
  convert empty_stream = empty_stream_enforcer
  convert (and_condition cs) = and_enforcer (convert_all cs)
  convert (or_condition cs) = or_enforcer (convert_all cs)

  pub convert_all : Conditions → Enforcers
  convert_all nil = empty
  convert_all (cons c cs) = enforcer (convert c) (convert_all cs)

-- `latest_event.position if latest_event else None`
unfoldable pub latest_event_position : Option SerialisedEvent → Option ℤ
latest_event_position none = none
latest_event_position (some event) = some event.position

-- What the loop of the disjunction raises when it ends: the last failure, if there was one.
unfoldable pub raise_first : Option Error → Result (Unit {0})
raise_first none = ok tt
raise_first (some e) = err e

-- `try: …; return` with its `except UnmetWriteConditionError as e`, and what follows it.
unfoldable pub or_next : Result (Unit {0}) → (Error → Result (Unit {0})) → Result (Unit {0})
or_next (ok _) next = ok tt
or_next (err (unmet_write_condition message)) next = next (unmet_write_condition message)
or_next (err other) next = err other

-- `assert_satisfied` of each class, with the latest event of the context, and the loops of the
-- conjunction and of the disjunction.
unfoldable mutual
  unfolding latest_event_position raise_first or_next

  pub assert_satisfied : WriteConditionEnforcer → Option SerialisedEvent → Result (Unit {0})
  assert_satisfied no_condition_enforcer latest = ok tt
  assert_satisfied (position_is_enforcer position) latest =
      if latest_event_position latest == position
      then ok tt
      else err (unmet_write_condition "unexpected stream position")
  assert_satisfied empty_stream_enforcer latest = elim latest [
    | none ↦ ok tt
    | some e ↦ err (unmet_write_condition "stream is not empty")
  ]
  assert_satisfied (and_enforcer enforcers) latest = assert_all enforcers latest
  assert_satisfied (or_enforcer enforcers) latest = assert_any enforcers latest none

  pub assert_all : Enforcers → Option SerialisedEvent → Result (Unit {0})
  assert_all empty latest = ok tt
  assert_all (enforcer e es) latest = assert_satisfied e latest >> assert_all es latest

  pub assert_any : Enforcers → Option SerialisedEvent → Option Error → Result (Unit {0})
  assert_any empty latest first_exception = raise_first first_exception
  assert_any (enforcer e es) latest first_exception =
      or_next (assert_satisfied e latest) (λ exception. assert_any es latest (some exception))
