-- ===== src/Store/Enforcers/Meaning.antt =====
-- The enforcers raise exactly when a condition does not hold, and nothing but the store's own
-- exception.
use event_store.Prelude.{
  ℤ, option_eq, int_eq, ◌==◌, ◌≡◌, refl, Bool, true, false, ◌&&◌, ◌||◌, Option, none, some, String,
  Result, ok, err, Error, unmet_write_condition, value_error, index_error, runtime_error,
  missing_projection_handler_error, ◌>>◌, if◌then◌else◌,
}
use event_store.Types.Event.{SerialisedEvent}
use event_store.Store.Conditions.{
  WriteCondition, no_condition, position_is, empty_stream, and_condition, or_condition, Conditions,
  nil, cons,
}
use event_store.Store.Conditions.Meaning.{holds, all_hold, any_holds}
use event_store.Store.Enforcers.{
  convert, convert_all, assert_satisfied, assert_all, assert_any, or_next,
}

-- Did it raise only what the store's clients catch?
abbrev pub Agrees : Bool → Result (Unit {0}) → Type 0
Agrees b (ok _) = b ≡ true
Agrees b (err (unmet_write_condition message)) = b ≡ false
Agrees b (err _) = ⊥

and-Agrees :
    (a b : Bool) (m k : Result (Unit {0})) → Agrees a m → Agrees b k → Agrees (a && b) (m >> k)
and-Agrees a b (ok u) k p q = rw p q
and-Agrees a b (err (unmet_write_condition message)) k p q = rw p refl
and-Agrees a b (err (value_error message)) k p q = absurd p
and-Agrees a b (err index_error) k p q = absurd p
and-Agrees a b (err (runtime_error message)) k p q = absurd p
and-Agrees a b (err (missing_projection_handler_error event class_name)) k p q = absurd p

or-Agrees :
    (a b : Bool) (m : Result (Unit {0})) (k : Error → Result (Unit {0}))
    → Agrees a m
    → ((message : String) → Agrees b (k (unmet_write_condition message)))
    → Agrees (a || b) (or_next m k)
unfolding or_next
or-Agrees a b (ok u) k p q = rw p refl
or-Agrees a b (err (unmet_write_condition message)) k p q = rw p (q message)
or-Agrees a b (err (value_error message)) k p q = absurd p
or-Agrees a b (err index_error) k p q = absurd p
or-Agrees a b (err (runtime_error message)) k p q = absurd p
or-Agrees a b (err (missing_projection_handler_error event class_name)) k p q = absurd p

if-Agrees :
    (b : Bool) (message : String)
    → Agrees b (if b then ok tt else err (unmet_write_condition message))
if-Agrees true message = refl
if-Agrees false message = refl

position-Agrees :
    (latest : Option SerialisedEvent) (p : Option ℤ)
    → Agrees (holds latest (position_is p)) (assert_satisfied (convert (position_is p)) latest)
unfolding holds convert assert_satisfied
position-Agrees none p = if-Agrees (none == p) "unexpected stream position"
position-Agrees (some e) p = if-Agrees (some e.position == p) "unexpected stream position"

mutual
  unfolding holds convert assert_satisfied

  satisfied-Agrees :
      (c : WriteCondition) (latest : Option SerialisedEvent)
      → Agrees (holds latest c) (assert_satisfied (convert c) latest)
  satisfied-Agrees no_condition latest = refl
  satisfied-Agrees (position_is p) latest = position-Agrees latest p
  satisfied-Agrees empty_stream none = refl
  satisfied-Agrees empty_stream (some e) = refl
  satisfied-Agrees (and_condition cs) latest = all-Agrees cs latest
  satisfied-Agrees (or_condition nil) latest = refl
  satisfied-Agrees (or_condition (cons c cs)) latest =
      or-Agrees _ _ _ (λ e. assert_any (convert_all cs) latest (some e)) (satisfied-Agrees c latest)
        (any-Agrees cs latest)

  all-Agrees :
      (cs : Conditions) (latest : Option SerialisedEvent)
      → Agrees (all_hold latest cs) (assert_all (convert_all cs) latest)
  all-Agrees nil latest = refl
  all-Agrees (cons c cs) latest =
      and-Agrees _ _ _ _ (satisfied-Agrees c latest) (all-Agrees cs latest)

  any-Agrees :
      (cs : Conditions) (latest : Option SerialisedEvent) (message : String)
      → Agrees
          (any_holds latest cs)
          (assert_any (convert_all cs) latest (some (unmet_write_condition message)))
  any-Agrees nil latest message = refl
  any-Agrees (cons c cs) latest message =
      or-Agrees _ _ _ (λ e. assert_any (convert_all cs) latest (some e)) (satisfied-Agrees c latest)
        (any-Agrees cs latest)

-- The enforcer of a condition raises nothing if the condition holds of the latest event, and else
-- raises an unmet write condition, and never another exception.
pub assert_satisfied-Agrees :
    (c : WriteCondition) (latest : Option SerialisedEvent)
    → Agrees (holds latest c) (assert_satisfied (convert c) latest)
assert_satisfied-Agrees c latest = satisfied-Agrees c latest
