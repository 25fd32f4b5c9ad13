-- ===== src/Store/Transactions/Retrying.antt =====
-- What a retry comes to: the outcome of one of the calls of its handler.
use event_store.Prelude.{
  ℕ, zero, suc, ◌-◌, ◌<◌, ◌≡◌, refl, Bool, true, false, ◌⊎◌, inl, inr, Result, ok, err, Error,
  Bool-cases, arith, ◌∙◌, ap,
}
use event_store.Store.Transactions.{attempt, retry_on_error, on_exception}

abbrev pub is_caught : {A : Type 0} → (Error → Bool) → Result A → Bool
is_caught exception (ok a) = false
is_caught exception (err e) = exception e

module _ {S A : Type 0} where
  -- The outcome of call number `k` of a handler that is called again and again.
  unfoldable pub call : (S → Result A × S) → ℕ → S → Result A × S
  call handler zero s = handler s
  call handler (suc k) s = call handler k (handler s).1

  on_exception-not_caught :
      (exception : Error → Bool) (x : Result A × S) (next : S → Result A × S)
      → is_caught exception x.0 ≡ false
      → on_exception exception x (λ a. a) next ≡ x
  unfolding on_exception
  on_exception-not_caught exception (ok a, s) next h = refl
  on_exception-not_caught exception (err e, s) next h = rw h refl

  on_exception-caught :
      (exception : Error → Bool) (x : Result A × S) (next : S → Result A × S)
      → is_caught exception x.0 ≡ true
      → on_exception exception x (λ a. a) next ≡ next x.1
  unfolding on_exception
  on_exception-caught exception (ok a, s) next h = ground arith
  on_exception-caught exception (err e, s) next h = rw h refl

  -- Call number `k` ends a retry of `n + 1` calls: those before it raised the exception, and it
  -- did not, unless it was the last.
  abbrev pub Ends : (Error → Bool) → (S → Result A × S) → ℕ → S → ℕ → Type 0
  Ends exception handler n s k =
      (k < suc n)
      × ((j : ℕ) → j < k → is_caught exception (call handler j s).0 ≡ true)
      × ((k ≡ n) ⊎ (is_caught exception (call handler k s).0 ≡ false))

  caught-suc :
      (exception : Error → Bool) (handler : S → Result A × S) (s : S) (k : ℕ)
      → is_caught exception (handler s).0 ≡ true
      → ((j : ℕ) → j < k → is_caught exception (call handler j (handler s).1).0 ≡ true)
      → (j : ℕ) → j < suc k
      → is_caught exception (call handler j s).0 ≡ true
  unfolding call
  caught-suc exception handler s k first rest zero h = first
  caught-suc exception handler s k first rest (suc j) h = rest j (omega arith)

  attempt-Ends :
      (exception : Error → Bool) (handler : S → Result A × S) (n : ℕ) (s : S)
      → (k : ℕ) × (attempt exception n handler s ≡ call handler k s) × Ends exception handler n s k
  unfolding attempt call
  attempt-Ends exception handler zero s = (0, refl, (omega arith, (λ j h. ground arith), inl refl))
  attempt-Ends exception handler (suc n) s = elim (Bool-cases (is_caught exception (handler s).0)) [
    | inr q ↦ (
      0,
      on_exception-not_caught exception (handler s) _ q,
      (omega arith, (λ j h. ground arith), inr q),
    )
    | inl q ↦
        let (k, same, (below, caught, ends)) = attempt-Ends exception handler n (handler s).1 in
        (
          suc k,
          on_exception-caught exception (handler s) _ q ∙ same,
          (
            omega arith,
            caught-suc exception handler s k q caught,
            elim ends [ inl last ↦ inl (ap suc last) | inr other ↦ inr other ],
          ),
        )
  ]

  -- A retry calls its handler at most `tries` times, and once if that is 0. It comes to the outcome
  -- of one of the calls: every call before it raised the exception that is retried, and it is the
  -- last one allowed, or did not raise that exception.
  pub retry_on_error-Ends :
      (exception : Error → Bool) (tries : ℕ) (handler : S → Result A × S) (s : S)
      → (k : ℕ) × (retry_on_error exception tries handler s ≡ call handler k s)
        × Ends exception handler (tries - 1) s k
  unfolding retry_on_error
  retry_on_error-Ends exception tries handler s = attempt-Ends exception handler (tries - 1) s
