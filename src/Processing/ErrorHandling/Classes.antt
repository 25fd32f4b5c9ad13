-- ===== src/Processing/ErrorHandling/Classes.antt =====
-- Which definition a type mapping error handler takes: the one of the most specific class.
use event_store.Prelude.{
  Option-cases, String, ◌≡◌, refl, ap, ◌∙◌, ◌⊎◌, inl, inr, none, some, List, [], ◌∷◌, ◌++◌,
  string_eq, lookup, All,
}
use event_store.Processing.ErrorHandling.{
  BaseException, Call, ◌>>=◌, ErrorHandler, ErrorHandlerDecision, ErrorHandlingDefinition,
  TypeMappings, mro, handle_as, handle,
}

module _ {S T : Type 0} (type_mappings : TypeMappings S T) (default : ErrorHandler S T) where
  -- A class with no definition.
  abbrev pub Unmapped : String → Type 0
  Unmapped cls = lookup cls type_mappings ≡ none

  -- The handling of an exception by its classes: by the first that has a definition, whose
  -- callback is called before its handler, or by default if none has one.
  abbrev pub HandledAs : List String → BaseException → Call S (ErrorHandlerDecision T) → Type 0
  HandledAs classes exception call =
      (All Unmapped classes × (call ≡ default exception))
      ⊎ (before : List String) × (cls : String) × (after : List String)
        × (definition : ErrorHandlingDefinition S T) × (classes ≡ before ++ cls ∷ after)
        × All Unmapped before
        × (lookup cls type_mappings ≡ some definition)
        × (call ≡ (definition.callback exception >>= λ _. definition.handler exception))

  pub handle_as-Unmapped :
      (cls : String) (classes : List String) (exception : BaseException)
      → Unmapped cls
      → handle_as type_mappings default (cls ∷ classes) exception
        ≡ handle_as type_mappings default classes exception
  unfolding handle_as
  handle_as-Unmapped cls classes exception e = rw (e, handle_as) refl

  pub handle_as-mapped :
      (cls : String) (classes : List String) (exception : BaseException)
      (definition : ErrorHandlingDefinition S T)
      → lookup cls type_mappings ≡ some definition
      → handle_as type_mappings default (cls ∷ classes) exception
        ≡ (definition.callback exception >>= λ _. definition.handler exception)
  unfolding handle_as
  handle_as-mapped cls classes exception definition e = rw (e, handle_as) refl

  handle_as-HandledAs :
      (classes : List String) (exception : BaseException)
      → HandledAs classes exception (handle_as type_mappings default classes exception)
  unfolding handle_as
  handle_as-HandledAs [] exception = inl (tt, refl)
  handle_as-HandledAs (cls ∷ classes) exception = elim (Option-cases (lookup cls type_mappings)) [
    | inl e ↦
        let skipped = handle_as-Unmapped cls classes exception e in
        elim (handle_as-HandledAs classes exception) [
          | inl (unmapped, same) ↦ inl ((e, unmapped), skipped ∙ same)
          | inr (before, found, after, definition, split, unmapped, mapped, same) ↦ inr (
            cls ∷ before,
            found,
            after,
            definition,
            ap (◌∷◌ cls) split,
            (e, unmapped),
            mapped,
            skipped ∙ same,
          )
        ]
    | inr (definition, e) ↦
        let taken = handle_as-mapped cls classes exception definition e in
        inr ([], cls, classes, definition, refl, tt, e, taken)
  ]

  -- An exception is handled by the definition of the first of its classes, the most specific
  -- first, that the mappings have, after its callback, or by default if they have none of them.
  pub handle-HandledAs :
      (exception : BaseException)
      → HandledAs (mro exception) exception (handle type_mappings default exception)
  unfolding handle
  handle-HandledAs exception = handle_as-HandledAs (mro exception) exception
