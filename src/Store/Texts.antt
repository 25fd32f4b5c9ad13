-- ===== src/Store/Texts.antt =====
-- Python's order on texts, by code points, and `sorted` on the keys of a mapping.
pub mod Sorting
use Prim.Native.Char.{code}
use event_store.Prelude.{String, Bool, true, false, ◌==◌, nat_eq, ltb, List, [], ◌∷◌, if◌then◌else◌}

-- `a < b`
unfoldable pub text_lt : String → String → Bool
text_lt String.[] String.[] = false
text_lt String.[] (String.◌∷◌ d t) = true
text_lt (String.◌∷◌ c s) String.[] = false
text_lt (String.◌∷◌ c s) (String.◌∷◌ d t) =
    let rest = text_lt s t in
    if ltb (code c) (code d) then true else if code c == code d then rest else false

module _ {ℓ} {A : Type ℓ} where
  unfoldable pub insert_item : String × A → List (String × A) → List (String × A)
  insert_item (k, v) [] = (k, v) ∷ []
  insert_item (k, v) ((j, w) ∷ items) =
      if text_lt j k then (j, w) ∷ insert_item (k, v) items else (k, v) ∷ (j, w) ∷ items

  -- The items of a mapping by `sorted(mapping.keys())`.
  unfoldable pub sorted_items : List (String × A) → List (String × A)
  unfolding insert_item text_lt
  sorted_items [] = []
  sorted_items (item ∷ items) = insert_item item (sorted_items items)
