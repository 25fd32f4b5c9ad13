-- ===== src/Persistence/Paging/Pages.antt =====
-- Pages beside the parts of the results that they stand for.
use native.Mathlib.Nat.{suc-mul, zero-mul}
use event_store.Prelude.{
  ℕ, zero, suc, ◌+◌, ◌-◌, ◌*◌, ◌≤◌, pos, ◌+ℤ◌, +ℤ-pos, ◌≡◌, refl, sym, ap, ◌∙◌, String, string_eq,
  ◌==◌, beq_refl, true, false, some, List, [], ◌∷◌, ◌++◌, All, length, take, drop, arith,
}
use event_store.Persistence.Paging.{
  Result, ResultSet, forwards, backwards, offset, offset_of, slice, with_results, convert_offset,
  last_indices, last_index_found, determine_last_index, page, convert_key_set,
}

module _ {ℓ} {A : Type ℓ} where
  take-nil : (n : ℕ) → take {A = A} n [] ≡ []
  take-nil zero = refl
  take-nil (suc n) = refl

  take-prefix : (xs zs : List A) → take (length xs) (xs ++ zs) ≡ xs
  take-prefix [] zs = refl
  take-prefix (x ∷ xs) zs = ap (◌∷◌ x) (take-prefix xs zs)

  take-add : (a n : ℕ) (xs : List A) → take (a + n) xs ≡ take a xs ++ take n (drop a xs)
  take-add zero n xs = ground arith
  take-add (suc a) n [] = take-nil (suc a + n) ∙ sym (take-nil n)
  take-add (suc a) n (x ∷ xs) =
      let same : suc a + n ≡ suc (a + n) = omega arith in
      ap (λ k. take k (x ∷ xs)) same ∙ ap (◌∷◌ x) (take-add a n xs)

  drop-past : (xs : List A) (r : A) (ys : List A) → drop (suc (length xs)) (xs ++ r ∷ ys) ≡ ys
  drop-past [] r ys = refl
  drop-past (x ∷ xs) r ys = drop-past xs r ys

  take-before :
      (a : ℕ) (xs zs : List A)
      → a ≤ length xs
      → take (length xs - a) (drop a (xs ++ zs)) ≡ drop a xs
  take-before zero [] zs h = refl
  take-before zero (x ∷ xs) zs h =
      let same : suc (length xs) - 0 ≡ suc (length xs) = omega arith in
      ap (λ k. take k (x ∷ (xs ++ zs))) same ∙ ap (◌∷◌ x) (take-prefix xs zs)
  take-before (suc a) [] zs h = ground arith
  take-before (suc a) (x ∷ xs) zs h =
      let same : suc (length xs) - suc a ≡ length xs - a = omega arith in
      ap (λ k. take k (drop a (xs ++ zs))) same ∙ take-before a xs zs (ground (arith, h))

  page-forwards :
      (n : ℕ) (xs : List A) (r : A) (ys : List A)
      → page (last_index_found (length xs)) forwards n (xs ++ r ∷ ys) ≡ take n ys
  unfolding page slice
  page-forwards n xs r ys =
      let same : suc (length xs) + n - suc (length xs) ≡ n = omega arith in
      ap (λ k. take k (drop (suc (length xs)) (xs ++ r ∷ ys))) same
      ∙ ap (take n) (drop-past xs r ys)

  page-backwards :
      (n : ℕ) (xs : List A) (r : A) (ys : List A)
      → page (last_index_found (length xs)) backwards n (xs ++ r ∷ ys) ≡ drop (length xs - n) xs
  unfolding page slice
  page-backwards n xs r ys = take-before (length xs - n) xs (r ∷ ys) (omega arith)

  slice-page : (a n : ℕ) (xs : List A) → slice (pos a) (pos a +ℤ pos n) xs ≡ take n (drop a xs)
  unfolding slice
  slice-page a n xs =
      let same : a + n - a ≡ n = omega arith in rw (+ℤ-pos a n) (ap (λ k. take k (drop a xs)) same)

module _ {R Extra : Type 0} (id : R → String) (last_id : String) where
  last_indices-none :
      (index : ℕ) (xs : List (Result R Extra))
      → All (λ q. (id q.record_ == last_id) ≡ false) xs
      → last_indices id last_id index xs ≡ []
  unfolding last_indices
  last_indices-none index [] h = refl
  last_indices-none index (x ∷ xs) h = rw h.0 (last_indices-none (suc index) xs h.1)

  last_indices-one :
      (index : ℕ) (xs : List (Result R Extra)) (r : Result R Extra) (ys : List (Result R Extra))
      → (id r.record_ == last_id) ≡ true
      → All (λ q. (id q.record_ == last_id) ≡ false) xs
      → All (λ q. (id q.record_ == last_id) ≡ false) ys
      → last_indices id last_id index (xs ++ r ∷ ys) ≡ (index + length xs) ∷ []
  unfolding last_indices
  last_indices-one index [] r ys e hx hy =
      rw (e, last_indices-none (suc index) ys hy) (ap (λ (k : ℕ). k ∷ []) (omega arith))
  last_indices-one index (x ∷ xs) r ys e hx hy =
      rw (hx.0, last_indices-one (suc index) xs r ys e hx.1 hy)
        (ap (λ (k : ℕ). k ∷ []) (omega arith))

module _ {R Extra : Type 0} where
  -- If exactly one result has the last identifier, the page forwards is the first results after it,
  -- and the page backwards the last ones before it, as many as the clause's count at most.
  pub convert_key_set-page :
      (id : R → String) (xs : List (Result R Extra)) (r : Result R Extra)
      (ys : List (Result R Extra)) (extra : Extra) (item_count : ℕ)
      → All (λ q. (id q.record_ == id r.record_) ≡ false) xs
      → All (λ q. (id q.record_ == id r.record_) ≡ false) ys
      → ((convert_key_set id
            (record {
              last_id = some (id r.record_);
              direction = forwards;
              item_count = item_count;
            })
            (record { results = xs ++ r ∷ ys; extra = extra }))
          ≡ record { results = take item_count ys; extra = extra })
        × ((convert_key_set id
              (record {
                last_id = some (id r.record_);
                direction = backwards;
                item_count = item_count;
              })
              (record { results = xs ++ r ∷ ys; extra = extra }))
            ≡ record { results = drop (length xs - item_count) xs; extra = extra })
  unfolding convert_key_set determine_last_index page slice with_results
  convert_key_set-page id xs r ys extra item_count hx hy =
      let one : last_indices id (id r.record_) 0 (xs ++ r ∷ ys) ≡ length xs ∷ [] =
        last_indices-one id (id r.record_) 0 xs r ys (beq_refl (id r.record_)) hx hy
        ∙ ap (λ (k : ℕ). k ∷ []) (omega arith) in
      let set : List (Result R Extra) → ResultSet R Extra =
        λ results. record { results = results; extra = extra } in
      (
        rw one (ap set (page-forwards item_count xs r ys)),
        rw one (ap set (page-backwards item_count xs r ys)),
      )

-- The results of the first pages, one after the other.
abbrev pub first_pages : {R Extra : Type 0} → ℕ → ResultSet R Extra → ℕ → List (Result R Extra)
first_pages item_count result_set zero = []
first_pages item_count result_set (suc k) =
    first_pages item_count result_set k
    ++ (convert_offset (record { page_number = suc k; item_count = item_count }) result_set).results

-- The pages of a number of items, up to any page number, are together the first results: no result
-- is left out or stands twice.
pub convert_offset-pages :
    {R Extra : Type 0} (item_count : ℕ) (result_set : ResultSet R Extra) (k : ℕ)
    → first_pages item_count result_set k ≡ take (k * item_count) result_set.results
unfolding convert_offset offset offset_of slice with_results
convert_offset-pages item_count result_set zero =
    ap (λ j. take j result_set.results) (sym (zero-mul item_count))
convert_offset-pages item_count result_set (suc k) =
    let results = result_set.results in
    let a = k * item_count in
    ap (λ before. before ++ slice (pos a) (pos a +ℤ pos item_count) results)
      (convert_offset-pages item_count result_set k)
    ∙ ap (λ page. take a results ++ page) (slice-page a item_count results)
    ∙ sym (take-add a item_count results)
    ∙ ap (λ j. take j results) (sym (suc-mul k item_count))
