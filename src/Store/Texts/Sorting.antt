-- ===== src/Store/Texts/Sorting.antt =====
-- The items of a mapping, sorted by their names, still have distinct names.
use event_store.Prelude.{String, List, [], ◌∷◌, All, ◌≢◌, sym, Bool-cases, inl, inr}
use event_store.Store.Texts.{text_lt, insert_item, sorted_items}

-- The keys of a mapping are distinct.
abbrev pub HasDistinctNames {ℓ} : {A : Type ℓ} → List (String × A) → Type 0
HasDistinctNames [] = Unit
HasDistinctNames ((name, request) ∷ streams) =
    All (λ s. s.0 ≢ name) streams × HasDistinctNames streams

module _ {ℓ} {A : Type ℓ} where
  insert_item-All {κ} :
      (P : String × A → Type κ) (item : String × A) (items : List (String × A))
      → P item
      → All P items
      → All P (insert_item item items)
  unfolding insert_item
  insert_item-All P (k, v) [] p h = (p, tt)
  insert_item-All P (k, v) ((j, w) ∷ items) p h = elim (Bool-cases (text_lt j k)) [
    | inl before ↦ rw before (h.0, insert_item-All P (k, v) items p h.1)
    | inr after ↦ rw after (p, h)
  ]

  insert_item-HasDistinctNames :
      (item : String × A) (items : List (String × A))
      → All (λ x. x.0 ≢ item.0) items
      → HasDistinctNames items
      → HasDistinctNames (insert_item item items)
  unfolding insert_item
  insert_item-HasDistinctNames (k, v) [] f d = (tt, tt)
  insert_item-HasDistinctNames (k, v) ((j, w) ∷ items) f d = elim (Bool-cases (text_lt j k)) [
    | inl before ↦ rw before (
      insert_item-All (λ x. x.0 ≢ j) (k, v) items (λ e. f.0 (sym e)) d.0,
      insert_item-HasDistinctNames (k, v) items f.1 d.1,
    )
    | inr after ↦ rw after (f, d)
  ]

  sorted_items-All {κ} :
      (P : String × A → Type κ) (items : List (String × A))
      → All P items
      → All P (sorted_items items)
  unfolding sorted_items
  sorted_items-All P [] h = tt
  sorted_items-All P (item ∷ items) h =
      insert_item-All P item (sorted_items items) h.0 (sorted_items-All P items h.1)

  -- Sorting keeps the names distinct.
  pub sorted_items-HasDistinctNames :
      (items : List (String × A)) → HasDistinctNames items → HasDistinctNames (sorted_items items)
  unfolding sorted_items
  sorted_items-HasDistinctNames [] d = tt
  sorted_items-HasDistinctNames (item ∷ items) d =
      insert_item-HasDistinctNames item (sorted_items items)
        (sorted_items-All (λ x. x.0 ≢ item.0) items d.0) (sorted_items-HasDistinctNames items d.1)
