-- ===== src/Processing/ErrorHandling/Precedence.antt =====
-- Which of the groups of an application's type mappings a class is handled by.
use event_store.Prelude.{
  String, ◌≡◌, refl, subst, ◌∙◌, Bool, Option, none, some, List, [], ◌∷◌, any, ◌==◌, string_eq,
  lookup, assign, lookup-assign, inl, inr, Bool-cases, arith, if◌then◌else◌, ℤ,
}
use event_store.Processing.ErrorHandling.{
  BaseException, Call, returned, ErrorHandlingDefinition, TypeMappings, exit_handler, raise_handler,
  continue_handler, retry_handler,
}
use event_store.Processing.ErrorHandling.Mappings.{
  dictionary, all_to, merge, callback_or, exit_fatally_type_mapping, raise_exception_type_mapping,
  continue_execution_type_mapping, retry_execution_type_mapping, error_handler_type_mappings,
  resolve_exit_fatally, resolve_raise_exception, resolve_continue_execution,
  resolve_retry_execution, mappings_of, resolve_exception_types, resolve_callback, resolve_factory,
  item,
}

-- `cls in types`
abbrev pub names : List String → String → Bool
names types cls = any (λ c. c == cls) types

-- `found` where there is one, else the other.
abbrev or_else : {A : Type 0} → Option A → Option A → Option A
or_else none other = other
or_else (some found) other = some found

module _ {S T : Type 0} where
  -- No class stands twice.
  abbrev Distinct : TypeMappings S T → Type 0
  Distinct [] = Unit
  Distinct (entry ∷ d) = (lookup entry.0 d ≡ none) × Distinct d

  Distinct-assign :
      (cls : String) (x : ErrorHandlingDefinition S T) (d : TypeMappings S T)
      → Distinct d
      → Distinct (assign cls x d)
  Distinct-assign cls x [] h = (refl, tt)
  Distinct-assign cls x ((k, y) ∷ d) h = elim (Bool-cases (k == cls)) [
    | inl e ↦ rw e (subst (λ c. lookup c d ≡ none) ((string_eq.test_iff k cls).0 e) h.0, h.1)
    | inr e ↦ rw e (
      lookup-assign cls x d k
          ∙ ground (arith, e, h.0, string_eq.test_iff k cls, string_eq.test_iff cls k),
      Distinct-assign cls x d h.1,
    )
  ]

  Distinct-all_to :
      (x : ErrorHandlingDefinition S T) (types : List String) (d : TypeMappings S T)
      → Distinct d
      → Distinct (all_to x types d)
  unfolding all_to
  Distinct-all_to x [] d h = h
  Distinct-all_to x (cls ∷ types) d h =
      Distinct-all_to x types (assign cls x d) (Distinct-assign cls x d h)

  lookup-all_to :
      (x : ErrorHandlingDefinition S T) (types : List String) (d : TypeMappings S T) (cls : String)
      → lookup cls (all_to x types d) ≡ (if names types cls then some x else lookup cls d)
  unfolding all_to
  lookup-all_to x [] d cls = ground arith
  lookup-all_to x (c ∷ types) d cls =
      lookup-all_to x types (assign c x d) cls ∙ ground (arith, lookup-assign c x d cls)

  lookup-merge :
      (xs ys : TypeMappings S T) (cls : String)
      → Distinct ys
      → lookup cls (merge xs ys) ≡ or_else (lookup cls ys) (lookup cls xs)
  unfolding merge
  lookup-merge xs [] cls h = refl
  lookup-merge xs ((k, y) ∷ ys) cls h =
      lookup-merge (assign k y xs) ys cls h.1 ∙ elim (Bool-cases (k == cls)) [
        | inl e ↦
            let unfound : lookup cls ys ≡ none =
              subst (λ c. lookup c ys ≡ none) ((string_eq.test_iff k cls).0 e) h.0 in
            rw (unfound, lookup-assign k y xs cls, e) refl
        | inr e ↦ rw (lookup-assign k y xs cls, e) refl
      ]

  merge-all_to :
      (xs : TypeMappings S T) (x : ErrorHandlingDefinition S T) (types : List String) (cls : String)
      → lookup cls (merge xs (all_to x types []))
        ≡ (if names types cls then some x else lookup cls xs)
  merge-all_to xs x types cls =
      lookup-merge xs (all_to x types []) cls (Distinct-all_to x types [] tt)
      ∙ rw (lookup-all_to x types [] cls)
          (elim (Bool-cases (names types cls)) [ inl e ↦ rw e refl | inr e ↦ rw e refl ])

module _ {S T : Type 0} where
  -- A class that several groups of mappings name is retried if it is named there, else continued,
  -- else raised, else exited with; a class that none names has no definition. The groups are made
  -- by the four builders, and reading them raises nothing.
  pub mappings-precedence :
      (exits raises continues retries : List String) (exit_code : BaseException → Call S ℤ)
      (exception : BaseException → Call S BaseException) (value : BaseException → Call S T)
      (on_exit on_raise on_continue on_retry : Option (BaseException → Call S Unit))
      → (d : TypeMappings S T) × (error_handler_type_mappings
            (dictionary (exit_fatally_type_mapping exits exit_code on_exit))
            (dictionary (raise_exception_type_mapping raises exception on_raise))
            (some (continue_execution_type_mapping continues value on_continue))
            (dictionary (retry_execution_type_mapping retries on_retry))
          ≡ returned d)
        × ((cls : String)
            → lookup cls d ≡ (
                if names retries cls
                then some (record { handler = retry_handler; callback = callback_or on_retry })
                else if names continues cls
                then some (record {
                  handler = continue_handler value;
                  callback = callback_or on_continue;
                })
                else if names raises cls
                then some (record {
                  handler = raise_handler (some exception);
                  callback = callback_or on_raise;
                })
                else if names exits cls
                then some
                    (record { handler = exit_handler exit_code; callback = callback_or on_exit })
                else none))
  unfolding error_handler_type_mappings resolve_exit_fatally resolve_raise_exception
      resolve_continue_execution resolve_retry_execution mappings_of resolve_exception_types
      resolve_callback resolve_factory item exit_fatally_type_mapping raise_exception_type_mapping
      continue_execution_type_mapping retry_execution_type_mapping
  mappings-precedence exits raises continues retries exit_code exception value on_exit on_raise
        on_continue on_retry =
      (
        _,
        refl,
        λ cls.
            rw
              (
                merge-all_to _ _ retries cls,
                merge-all_to _ _ continues cls,
                merge-all_to _ _ raises cls,
                lookup-all_to _ exits [] cls,
              )
              refl,
      )
