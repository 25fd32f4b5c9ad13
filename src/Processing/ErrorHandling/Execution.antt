-- ===== src/Processing/ErrorHandling/Execution.antt =====
-- src/logicblocks/event/processing/services/error.py: the loop of a service that handles its errors,
-- on fuel, and the runs of that loop as a relation.
use event_store.Prelude.{
  ℕ, zero, suc, ◌<◌, ◌≡◌, refl, sym, ◌∙◌, ap, subst, ◌↔◌, ◌⊎◌, inl, inr, Option, none, some, arith,
}
use event_store.Processing.ErrorHandling.{
  system_exit, Outcome, returned, raised, Call, ErrorHandler, ErrorHandlerDecision, exit_fatally,
  raise_exception, continue_execution, retry_execution,
}

-- What one turn of the loop comes to.
pub data Turn (T : Type 0) : Type 0 where
  ends : Outcome T → Turn T
  again : Turn T

-- The `match` on the decision.
unfoldable pub decide : {T : Type 0} → ErrorHandlerDecision T → Turn T
decide (raise_exception exception) = ends (raised exception)
decide (continue_execution value) = ends (returned value)
decide (exit_fatally exit_code) = ends (raised (system_exit exit_code))
decide retry_execution = again

module _ {S T : Type 0} where
  -- What the handler says, or an exception of its own.
  unfoldable pub handled : Outcome (ErrorHandlerDecision T) × S → Turn T × S
  unfolding decide
  handled (returned decision, s) = (decide decision, s)
  handled (raised e, s) = (ends (raised e), s)

  unfoldable pub executed : ErrorHandler S T → Outcome T × S → Turn T × S
  unfolding handled
  executed handler (returned value, s) = (ends (returned value), s)
  executed handler (raised exception, s) = handled (handler exception s)

  Turn-cases :
      (t : Turn T × S)
      → ((o : Outcome T) × (s : S) × (t ≡ (ends o, s))) ⊎ ((s : S) × (t ≡ (again, s)))
  Turn-cases (ends o, s) = inl (o, s, refl)
  Turn-cases (again, s) = inr (s, refl)

pub some-injective : {A : Type 0} {a b : A} → some a ≡ some b → a ≡ b
some-injective {a = a} p = cc

module _ {S T : Type 0} (do_execute : Call S T) (handler : ErrorHandler S T) where
  unfoldable pub turn : S → Turn T × S
  unfolding executed
  turn s = executed handler (do_execute s)

  abbrev pub go_on : Turn T × S → (S → Option (Outcome T × S)) → Option (Outcome T × S)
  go_on (ends outcome, s) rest = some (outcome, s)
  go_on (again, s) rest = rest s

  -- `ErrorHandlingServiceMixin.execute`, for a number of turns
  unfoldable pub execute : ℕ → S → Option (Outcome T × S)
  unfolding turn
  execute zero s = none
  execute (suc fuel) s = go_on (turn s) (λ s'. execute fuel s')

  -- The turns from a state to an outcome.
  pub data Executes : S → Outcome T × S → Type 0 where
    concludes : {s s' : S} {o : Outcome T} → turn s ≡ (ends o, s') → Executes s (o, s')
    retries : {s s' : S} {r : Outcome T × S} → turn s ≡ (again, s') → Executes s' r → Executes s r

  execute-suc :
      (n : ℕ) (s : S) (t : Turn T × S)
      → turn s ≡ t
      → execute (suc n) s ≡ go_on t (λ s'. execute n s')
  unfolding execute
  execute-suc n s t e = ap (λ t. go_on t (λ s'. execute n s')) e

  execute-Executes : (n : ℕ) (s : S) (r : Outcome T × S) → execute n s ≡ some r → Executes s r
  unfolding execute
  execute-Executes zero s r h = ground arith
  execute-Executes (suc n) s r h = elim (Turn-cases (turn s)) [
    | inl (o, s', e) ↦
        subst (λ r. Executes s r) (some-injective (sym (execute-suc n s _ e) ∙ h)) (concludes e)
    | inr (s', e) ↦ retries e (execute-Executes n s' r (sym (execute-suc n s _ e) ∙ h))
  ]

  Executes-execute : {s : S} {r : Outcome T × S} → Executes s r → (n : ℕ) × (execute n s ≡ some r)
  Executes-execute {s = s} (concludes e) = (1, execute-suc 0 s _ e)
  Executes-execute {s = s} (retries e rest) =
      let (n, h) = Executes-execute rest in (suc n, execute-suc n s _ e ∙ h)

  -- The loop comes to an outcome, given enough turns, exactly if a finite run of turns, all but the
  -- last of them retried, leads to that outcome.
  pub execute-iff_Executes :
      (s : S) (r : Outcome T × S) → ((n : ℕ) × (execute n s ≡ some r)) ↔ Executes s r
  execute-iff_Executes s r = ((λ run. execute-Executes run.0 s r run.1), Executes-execute)

  execute-within :
      (m : S → ℕ)
      → ((s s' : S) → turn s ≡ (again, s') → m s' < m s)
      → (n : ℕ) (s : S) → m s < n
      → (r : Outcome T × S) × (execute n s ≡ some r) × Executes s r
  execute-within m lowers zero s h = elim h [ ]
  execute-within m lowers (suc n) s h = elim (Turn-cases (turn s)) [
    | inl (o, s', e) ↦ ((o, s'), execute-suc n s _ e, concludes e)
    | inr (s', e) ↦
        let (r, same, run) = execute-within m lowers n s' (omega (arith, lowers s s' e)) in
        (r, execute-suc n s _ e ∙ same, retries e run)
  ]

  -- If every turn that is retried lowers a measure of the state, the loop comes to an outcome within
  -- one turn more than the measure, by a run of turns that leads to it.
  pub execute-measured :
      (m : S → ℕ)
      → ((s s' : S) → turn s ≡ (again, s') → m s' < m s)
      → (s : S) → (r : Outcome T × S) × (execute (suc (m s)) s ≡ some r) × Executes s r
  execute-measured m lowers s = execute-within m lowers (suc (m s)) s (omega arith)
