-- ===== src/Persistence/Paging.antt =====
-- The paging clauses of src/logicblocks/event/query/clauses.py as the converters of
-- src/logicblocks/event/persistence/memory/converters/clause.py apply them. Page numbers and counts of
-- items are natural numbers; what else a result holds is any type.
pub mod Pages
use event_store.Prelude.{
  ℕ, zero, suc, ◌+◌, ◌-◌, ◌*◌, ℤ, pos, negsuc, ◌+ℤ◌, sub_ℕ, String, string_eq, ◌==◌, Option, none,
  some, List, [], ◌∷◌, length, take, drop, if◌then◌else◌,
}

pub record Result (R Extra : Type 0) : Type 0 where
  pub record_ : R
  pub extra : Extra

pub record ResultSet (R Extra : Type 0) : Type 0 where
  pub results : List (Result R Extra)
  pub extra : Extra

pub data PagingDirection : Type 0 where
  forwards : PagingDirection
  backwards : PagingDirection

pub record KeySetPagingClause : Type 0 where
  pub last_id : Option String
  pub direction : PagingDirection
  pub item_count : ℕ

pub record OffsetPagingClause : Type 0 where
  pub page_number : ℕ
  pub item_count : ℕ

-- `(page_number - 1) * item_count`
unfoldable pub offset_of : ℕ → ℕ → ℤ
offset_of zero item_count = sub_ℕ 0 item_count
offset_of (suc k) item_count = pos (k * item_count)

unfoldable pub offset : OffsetPagingClause → ℤ
unfolding offset_of
offset self = offset_of self.page_number self.item_count

-- Where a bound of a slice stands in a list of a length.
abbrev pub bound : ℤ → ℕ → ℕ
bound (pos n) len = n
bound (negsuc n) len = len - suc n

-- `xs[start:stop]`
unfoldable pub slice {ℓ} : {A : Type ℓ} → ℤ → ℤ → List A → List A
slice start stop xs =
    let first = bound start (length xs) in take (bound stop (length xs) - first) (drop first xs)

pub data LastIndex : Type 0 where
  last_index_not_found : LastIndex
  last_index_not_provided : LastIndex
  last_index_found : ℕ → LastIndex

-- `with_results`
unfoldable pub with_results :
    {R Extra : Type 0} → List (Result R Extra) → ResultSet R Extra → ResultSet R Extra
with_results results self = record self { results = results }

unfoldable pub convert_offset :
    {R Extra : Type 0} → OffsetPagingClause → ResultSet R Extra → ResultSet R Extra
unfolding offset slice with_results
convert_offset item result_set =
    with_results (slice (offset item) (offset item +ℤ pos item.item_count) result_set.results)
      result_set

-- `[index for index, result in enumerate(results) if …]`, counted from a number on
unfoldable pub last_indices :
    {R Extra : Type 0} → (R → String) → String → ℕ → List (Result R Extra) → List ℕ
last_indices id last_id index [] = []
last_indices id last_id index (r ∷ results) =
    let rest = last_indices id last_id (suc index) results in
    if id r.record_ == last_id then index ∷ rest else rest

abbrev pub only_index : List ℕ → LastIndex
only_index [] = last_index_not_found
only_index (index ∷ []) = last_index_found index
only_index (index ∷ other ∷ indices) = last_index_not_found

unfoldable pub determine_last_index :
    {R Extra : Type 0} → (R → String) → List (Result R Extra) → Option String → LastIndex
unfolding last_indices
determine_last_index id results none = last_index_not_provided
determine_last_index id results (some last_id) = only_index (last_indices id last_id 0 results)

unfoldable pub page {ℓ} : {A : Type ℓ} → LastIndex → PagingDirection → ℕ → List A → List A
unfolding slice
page last_index_not_found direction item_count results = []
page last_index_not_provided backwards item_count results = []
page last_index_not_provided forwards item_count results = slice (pos 0) (pos item_count) results
page (last_index_found last_index) forwards item_count results =
    slice (pos (suc last_index)) (pos (suc last_index + item_count)) results
page (last_index_found last_index) backwards item_count results =
    slice (pos (last_index - item_count)) (pos last_index) results

unfoldable pub convert_key_set :
    {R Extra : Type 0} → (R → String) → KeySetPagingClause → ResultSet R Extra → ResultSet R Extra
unfolding determine_last_index page with_results
convert_key_set id item result_set =
    let last_index = determine_last_index id result_set.results item.last_id in
    with_results (page last_index item.direction item.item_count result_set.results) result_set
