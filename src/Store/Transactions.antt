-- ===== src/Store/Transactions.antt =====
-- src/logicblocks/event/store/transactions.py: what wraps a handler that reads and saves events. A
-- handler is a function of the state that it works on, and leaves a state with its result.
pub mod Retrying
use event_store.Prelude.{
  ℕ, zero, suc, ◌-◌, Bool, true, false, Option, none, some, Result, ok, err, Error,
  unmet_write_condition, value_error, index_error, runtime_error, missing_projection_handler_error,
  if◌then◌else◌,
}

-- `exception`, as a test, of `retry_on_unmet_condition_error` and `ignore_on_unmet_condition_error`
unfoldable pub is_unmet_condition : Error → Bool
is_unmet_condition (unmet_write_condition message) = true
is_unmet_condition (value_error message) = false
is_unmet_condition index_error = false
is_unmet_condition (runtime_error message) = false
is_unmet_condition (missing_projection_handler_error event class_name) = false

module _ {S A : Type 0} (exception : Error → Bool) where
  -- `except self.exception` after a call, and what follows it.
  unfoldable pub on_exception :
      {B : Type 0} → Result A × S → (A → B) → (S → Result B × S) → Result B × S
  on_exception (ok a, s) returned next = (ok (returned a), s)
  on_exception (err e, s) returned next = if exception e then next s else (err e, s)

  -- The loop over `range`, with the call after it.
  unfoldable pub attempt : ℕ → (S → Result A × S) → S → Result A × S
  unfolding on_exception
  attempt zero handler s = handler s
  attempt (suc n) handler s = on_exception (handler s) (λ a. a) (λ s'. attempt n handler s')

  -- `retry_on_error.wrap_handler`
  unfoldable pub retry_on_error : ℕ → (S → Result A × S) → S → Result A × S
  unfolding attempt
  retry_on_error tries handler = attempt (tries - 1) handler

  -- `ignore_on_error.wrap_handler`
  unfoldable pub ignore_on_error : (S → Result A × S) → S → Result (Option A) × S
  unfolding on_exception
  ignore_on_error handler s = on_exception (handler s) some (λ s'. (ok none, s'))
