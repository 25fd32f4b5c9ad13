-- ===== src/Processing/Coordinator/Chunks.antt =====
-- `chunk` deals out every item of a list once.
use event_store.Prelude.{
  ℕ, zero, suc, ◌+◌, ◌-◌, ◌<◌, ◌≡◌, refl, ap, ◌∙◌, List, [], ◌∷◌, some, get_elem?, arith,
  HasEquality, count,
}
use event_store.Processing.Coordinator.{stride, chunks_from}

i_zero : (i : ℕ) → i + 0 ≡ i
i_zero i = omega arith

pred_suc : (n : ℕ) → suc n - 1 ≡ n
pred_suc n = omega arith

pub zero_add : (n : ℕ) → 0 + n ≡ n
zero_add n = omega arith

suc_add : (i m : ℕ) → suc i + m ≡ i + suc m
suc_add i m = omega arith

module _ {ℓ} {A : Type ℓ} where
  pub get_elem?-chunks_from :
      (values : List A) (chunks i n j : ℕ)
      → j < n
      → get_elem? (chunks_from values chunks i n) j ≡ some (stride (i + j) chunks values)
  unfolding chunks_from
  get_elem?-chunks_from values chunks i zero j h = ground arith
  get_elem?-chunks_from values chunks i (suc n) zero h =
      ap (λ k. some (stride k chunks values)) (omega arith)
  get_elem?-chunks_from values chunks i (suc n) (suc j) h =
      get_elem?-chunks_from values chunks (suc i) n j (omega arith)
      ∙ ap (λ k. some (stride k chunks values)) (omega arith)

module _ {ℓ} {A : Type ℓ} ⦃e : HasEquality A⦄ (x : A) where
  -- How often an item stands in `m` chunks from number `i` on.
  abbrev pub spread : List A → ℕ → ℕ → ℕ → ℕ
  spread values chunks i zero = 0
  spread values chunks i (suc m) = count x (stride i chunks values) + spread values chunks (suc i) m

  spread-snoc :
      (values : List A) (chunks i m : ℕ)
      → spread values chunks i (suc m)
        ≡ spread values chunks i m + count x (stride (i + m) chunks values)
  spread-snoc values chunks i zero =
      omega (arith, ap (λ k. count x (stride k chunks values)) (i_zero i))
  spread-snoc values chunks i (suc m) = omega (
    arith,
    spread-snoc values chunks (suc i) m,
    ap (λ k. count x (stride k chunks values)) (suc_add i m),
  )

  spread-cons :
      (v : A) (values : List A) (chunks i m : ℕ)
      → spread (v ∷ values) chunks (suc i) m ≡ spread values chunks i m
  unfolding stride
  spread-cons v values chunks i zero = refl
  spread-cons v values chunks i (suc m) = omega (arith, spread-cons v values chunks (suc i) m)

  spread-nil : (chunks i m : ℕ) → spread [] chunks i m ≡ 0
  unfolding stride
  spread-nil chunks i zero = refl
  spread-nil chunks i (suc m) = omega (arith, spread-nil chunks (suc i) m)

  -- Chunks, at least one, hold an item as often as the list does.
  pub spread-all : (values : List A) (n : ℕ) → spread values (suc n) 0 (suc n) ≡ count x values
  unfolding stride
  spread-all [] n = spread-nil (suc n) 0 (suc n)
  spread-all (v ∷ values) n =
      let at_gap = ap (λ k. count x (stride k (suc n) values)) (pred_suc n) in
      let at_end = ap (λ k. count x (stride k (suc n) values)) (zero_add n) in
      omega (
        arith,
        at_gap,
        at_end,
        spread-cons v values (suc n) 0 n,
        spread-snoc values (suc n) 0 n,
        spread-all values n,
      )
