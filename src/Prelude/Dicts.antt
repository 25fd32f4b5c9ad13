-- ===== src/Prelude/Dicts.antt =====
-- A dictionary as the list of its entries, in the order of insertion.
use mathlib.Core.Path.{◌≡◌, refl, ap, sym, ◌∙◌}
use mathlib.Core.Logic.{inl, inr}
use mathlib.Core.Bool.{true, false, not}
use mathlib.Core.List.{List, [], ◌∷◌, map}
use mathlib.Core.Option.{Option, none, some}
use native.Mathlib.Omega.{arith}
use event_store.Prelude.Tests.{if◌then◌else◌, Bool-cases}
use event_store.Prelude.Lists.{select}
use event_store.Prelude.Equality.{HasEquality, ◌==◌}

abbrev pub Dict {ℓ κ} : Type ℓ → Type κ → Type (ℓ ⊔ κ)
Dict K V = List (K × V)

module _ {ℓ} {K : Type ℓ} ⦃e : HasEquality K⦄ where
  same_test : (j k k' : K) → (j == k) ≡ true → (j == k') ≡ (k == k')
  same_test j k k' h = ap (λ x. x == k') ((e.test_iff j k).0 h)

  other_test : (j k k' : K) → (j == k) ≡ false → (k == k') ≡ true → (j == k') ≡ false
  other_test j k k' h same = ap (λ x. j == x) (sym ((e.test_iff k k').0 same)) ∙ h

module _ {ℓ κ} {K : Type ℓ} {V : Type κ} ⦃e : HasEquality K⦄ where
  -- `d.get(k)`
  abbrev pub lookup : K → Dict K V → Option V
  lookup k [] = none
  lookup k (entry ∷ d) = if entry.0 == k then some entry.1 else lookup k d

  -- `d[k] = v`: an entry that is there keeps its place.
  abbrev pub assign : K → V → Dict K V → Dict K V
  assign k v [] = (k, v) ∷ []
  assign k v (entry ∷ d) = if entry.0 == k then (k, v) ∷ d else entry ∷ assign k v d

  -- `d.pop(k, None)`, less what it returns; no key is there twice.
  abbrev pub pop : K → Dict K V → Dict K V
  pop k d = select (λ entry. not (entry.0 == k)) d

  -- `d.values()`
  abbrev pub values : Dict K V → List V
  values d = map (λ entry. entry.1) d

  pub lookup-assign :
      (k : K) (v : V) (d : Dict K V) (k' : K)
      → lookup k' (assign k v d) ≡ (if k == k' then some v else lookup k' d)
  lookup-assign k v [] k' = refl
  lookup-assign k v ((j, w) ∷ d) k' = elim (Bool-cases (j == k)) [
    | inl h ↦ ground (arith, h, same_test j k k' h)
    | inr h ↦ ground (arith, h, other_test j k k' h, lookup-assign k v d k')
  ]

  pub lookup-pop :
      (k : K) (d : Dict K V) (k' : K)
      → lookup k' (pop k d) ≡ (if k == k' then none else lookup k' d)
  lookup-pop k [] k' = ground arith
  lookup-pop k ((j, w) ∷ d) k' = elim (Bool-cases (j == k)) [
    | inl h ↦ ground (arith, h, same_test j k k' h, lookup-pop k d k')
    | inr h ↦ ground (arith, h, other_test j k k' h, lookup-pop k d k')
  ]
