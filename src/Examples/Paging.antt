-- ===== src/Examples/Paging.antt =====
-- Pages of four results, each its own identifier.
use event_store.Prelude.{◌+ℤ◌, ℕ, ◌*◌, ◌≡◌, refl, String, string_eq, some, List, [], ◌∷◌, take}
use event_store.Persistence.Paging.{
  Result, ResultSet, forwards, backwards, KeySetPagingClause, convert_offset, convert_key_set,
  offset, offset_of, slice, with_results,
}
use event_store.Persistence.Paging.Pages.{first_pages, convert_key_set-page, convert_offset-pages}

abbrev result : String → Result String ℕ
result name = record { record_ = name; extra = 0 }

abbrev result_set : List (Result String ℕ) → ResultSet String ℕ
result_set results = record { results = results; extra = 0 }

abbrev four : List (Result String ℕ)
four = result "a" ∷ result "b" ∷ result "c" ∷ result "d" ∷ []

abbrev after_b : KeySetPagingClause
after_b = record { last_id = some "b"; direction = forwards; item_count = 1 }

abbrev before_b : KeySetPagingClause
before_b = record { last_id = some "b"; direction = backwards; item_count = 1 }

convert_key_set-page_example :
    (convert_key_set (λ name. name) after_b (result_set four) ≡ result_set (result "c" ∷ []))
    × (convert_key_set (λ name. name) before_b (result_set four) ≡ result_set (result "a" ∷ []))
convert_key_set-page_example =
    convert_key_set-page (λ name. name) (result "a" ∷ []) (result "b")
      (result "c" ∷ result "d" ∷ []) 0 1 (refl, tt) (refl, (refl, tt))

convert_offset-pages_example : first_pages 3 (result_set four) 2 ≡ take (2 * 3) four
convert_offset-pages_example = convert_offset-pages 3 (result_set four) 2

-- Page 0 starts at a negative offset, and has no result.
page_zero_run :
    convert_offset (record { page_number = 0; item_count = 3 }) (result_set four) ≡ result_set []
unfolding convert_offset offset offset_of slice with_results ◌+ℤ◌
page_zero_run = refl
