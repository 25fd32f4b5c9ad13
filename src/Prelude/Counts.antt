-- ===== src/Prelude/Counts.antt =====
-- How often an item stands in a list, and sums over lists.
use Prim.Native.Nat.{ℕ, ◌+◌, ◌≤◌}
use mathlib.Core.Path.{◌≡◌, refl, ap, subst}
use mathlib.Core.Logic.{inl, inr}
use mathlib.Core.Bool.{Bool, true, false, ◌&&◌}
use mathlib.Core.List.{List, [], ◌∷◌, ◌++◌}
use native.Mathlib.Omega.{arith}
use event_store.Prelude.Tests.{ltb, if◌then◌else◌, Bool-cases}
use event_store.Prelude.Lists.{any, select, All}
use event_store.Prelude.Equality.{HasEquality, ◌==◌, beq_refl}

-- 1 for what holds
abbrev pub bit : Bool → ℕ
bit true = 1
bit false = 0

module _ {ℓ} {A : Type ℓ} where
  abbrev pub sum : (A → ℕ) → List A → ℕ
  sum f [] = 0
  sum f (x ∷ xs) = f x + sum f xs

  pub sum-append : (f : A → ℕ) (xs ys : List A) → sum f (xs ++ ys) ≡ sum f xs + sum f ys
  sum-append f [] ys = omega arith
  sum-append f (x ∷ xs) ys = omega (arith, sum-append f xs ys)

  pub sum-cong : (f g : A → ℕ) (xs : List A) → ((x : A) → f x ≡ g x) → sum f xs ≡ sum g xs
  sum-cong f g [] h = refl
  sum-cong f g (x ∷ xs) h = omega (arith, h x, sum-cong f g xs h)

  pub sum-le : (f g : A → ℕ) (xs : List A) → ((x : A) → f x ≤ g x) → sum f xs ≤ sum g xs
  sum-le f g [] h = omega arith
  sum-le f g (x ∷ xs) h = omega (arith, h x, sum-le f g xs h)

  pub sum-zero : (f : A → ℕ) (xs : List A) → ((x : A) → f x ≡ 0) → sum f xs ≡ 0
  sum-zero f [] h = refl
  sum-zero f (x ∷ xs) h = omega (arith, h x, sum-zero f xs h)

  pub sum-select :
      (f : A → ℕ) (p : A → Bool) (xs : List A)
      → sum f (select p xs) ≡ sum (λ x. if p x then f x else 0) xs
  sum-select f p [] = refl
  sum-select f p (x ∷ xs) = ground (arith, sum-select f p xs)

  -- Some item passes a test, if the sum of the tests is not 0.
  pub any-sum : (p : A → Bool) (xs : List A) → any p xs ≡ ltb 0 (sum (λ x. bit (p x)) xs)
  any-sum p [] = ground arith
  any-sum p (x ∷ xs) = ground (arith, any-sum p xs)

module _ {ℓ} {A : Type ℓ} ⦃e : HasEquality A⦄ where
  -- `x in xs`
  abbrev pub member : A → List A → Bool
  member x xs = any (λ y. y == x) xs

  abbrev pub count : A → List A → ℕ
  count x xs = sum (λ y. bit (y == x)) xs

  pub any-cong_on :
      (p q : A → Bool) (xs : List A)
      → ((x : A) → member x xs ≡ true → p x ≡ q x)
      → any p xs ≡ any q xs
  any-cong_on p q [] h = refl
  any-cong_on p q (x ∷ xs) h =
      let here : p x ≡ q x = h x (ground (arith, beq_refl x)) in
      let rest = any-cong_on p q xs (λ y m. h y (ground (arith, m))) in ground (arith, here, rest)

  pub member-select :
      (x : A) (p : A → Bool) (xs : List A) → member x (select p xs) ≡ (member x xs && p x)
  member-select x p [] = refl
  member-select x p (y ∷ xs) =
      let same : (y == x) ≡ true → p y ≡ p x = λ h. ap p ((e.test_iff y x).0 h) in
      ground (arith, same, member-select x p xs)

  -- Without the first of an item.
  abbrev without : A → List A → List A
  without x [] = []
  without x (y ∷ ys) = let rest = without x ys in if y == x then ys else y ∷ rest

  sum-without :
      (f : A → ℕ) (x : A) (ys : List A) → member x ys ≡ true → sum f ys ≡ f x + sum f (without x ys)
  sum-without f x [] h = ground arith
  sum-without f x (y ∷ ys) h = elim (Bool-cases (y == x)) [
    | inl s ↦ let same : f y ≡ f x = ap f ((e.test_iff y x).0 s) in rw s (omega (arith, same))
    | inr s ↦ let rest = sum-without f x ys (ground (arith, h, s)) in rw s (omega (arith, rest))
  ]

  -- A sum goes by how often each item stands in a list.
  pub sum-same_counts :
      (f : A → ℕ) (xs ys : List A) → ((x : A) → count x xs ≡ count x ys) → sum f xs ≡ sum f ys
  sum-same_counts f [] [] h = refl
  sum-same_counts f [] (y ∷ ys) h = ground (arith, h y, beq_refl y)
  sum-same_counts f (x ∷ xs) ys h =
      let there : member x ys ≡ true = ground (arith, any-sum (λ y. y == x) ys, h x, beq_refl x) in
      let rest =
        sum-same_counts f xs (without x ys)
          (λ z. omega (arith, h z, sum-without (λ y. bit (y == z)) x ys there)) in
      omega (arith, rest, sum-without f x ys there)

pub member-All {ℓ κ} :
    {A : Type ℓ} ⦃e : HasEquality A⦄ (P : A → Type κ) (x : A) (xs : List A)
    → All P xs
    → member x xs ≡ true
    → P x
member-All P x [] h m = ground arith
member-All ⦃e⦄ P x (y ∷ xs) h m = elim (Bool-cases (y == x)) [
  | inl s ↦ subst P ((e.test_iff y x).0 s) h.0
  | inr s ↦ member-All P x xs h.1 (ground (arith, m, s))
]
