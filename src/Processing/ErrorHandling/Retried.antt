-- ===== src/Processing/ErrorHandling/Retried.antt =====
-- Which exceptions the handlers of type mappings retry.
use event_store.Prelude.{
  String, ℤ, ◌≡◌, ◌≢◌, refl, sym, ap, ◌∙◌, Bool, true, false, Option, none, some, List, [], ◌∷◌,
  any, ◌⊎◌, lookup, string_eq, arith, inl, inr, Bool-cases, if◌then◌else◌,
}
use event_store.Processing.ErrorHandling.{
  BaseException, Call, on_return, Outcome, returned, raised, ErrorHandler, ErrorHandlerDecision,
  ErrorHandlingDefinition, pure, exit_fatally, raise_exception, continue_execution, retry_execution,
  TypeMappings, is_exception, exit_handler, raise_handler, continue_handler, retry_handler,
  handle_as,
}
use event_store.Processing.ErrorHandling.Classes.{handle_as-Unmapped, handle_as-mapped}
use event_store.Processing.ErrorHandling.Mappings.{callback_or}
use event_store.Processing.ErrorHandling.Precedence.{names}

abbrev pub retried : {T : Type 0} → Outcome (ErrorHandlerDecision T) → Bool
retried (returned (exit_fatally exit_code)) = false
retried (returned (raise_exception exception)) = false
retried (returned (continue_execution value)) = false
retried (returned retry_execution) = true
retried (raised exception) = false

module _ {S T : Type 0} where
  abbrev pub NeverRetries : ErrorHandler S T → Type 0
  NeverRetries handler = (e : BaseException) (s : S) → retried (handler e s).0 ≡ false

  decision-NeverRetries :
      {A : Type 0} (f : A → ErrorHandlerDecision T)
      → ((a : A) → retried (returned (f a)) ≡ false)
      → (x : Outcome A × S) → retried (on_return x (λ a s'. (returned (f a), s'))).0 ≡ false
  decision-NeverRetries f h (returned a, s) = h a
  decision-NeverRetries f h (raised e, s) = refl

module _ {S : Type 0} (T : Type 0) where
  exit_handler-NeverRetries : (f : BaseException → Call S ℤ) → NeverRetries {T = T} (exit_handler f)
  unfolding exit_handler
  exit_handler-NeverRetries f e s = decision-NeverRetries exit_fatally (λ code. refl) (f e s)

  pub raise_handler-NeverRetries :
      (f : Option (BaseException → Call S BaseException)) → NeverRetries {T = T} (raise_handler f)
  unfolding raise_handler
  raise_handler-NeverRetries none e s = refl
  raise_handler-NeverRetries (some f) e s =
      decision-NeverRetries raise_exception (λ e'. refl) (f e s)

module _ {S T : Type 0} where
  continue_handler-NeverRetries : (f : BaseException → Call S T) → NeverRetries (continue_handler f)
  unfolding continue_handler
  continue_handler-NeverRetries f e s = elim (Bool-cases (is_exception e)) [
    | inl h ↦ rw h (decision-NeverRetries continue_execution (λ v. refl) (f e s))
    | inr h ↦ rw h refl
  ]

  -- A handler that never retries does not after its callback either.
  after_callback :
      (handler : ErrorHandler S T) (e : BaseException) (x : Outcome Unit × S)
      → NeverRetries handler
      → retried (on_return x (λ _. handler e)).0 ≡ false
  after_callback handler e (returned u, s) h = h e s
  after_callback handler e (raised e', s) h = refl

  pub never_retried :
      (x : Outcome (ErrorHandlerDecision T) × S) (s' : S)
      → retried x.0 ≡ false
      → x ≢ (returned retry_execution, s')
  never_retried x s' never h =
      let both : false ≡ true =
        sym never ∙ ap (λ (y : Outcome (ErrorHandlerDecision T) × S). retried y.0) h in
      ground (arith, both)

  abbrev decision_of : Bool → BaseException → Call S (ErrorHandlerDecision T)
  decision_of b e = if b then pure retry_execution else pure (raise_exception e)

  decided :
      (b : Bool) (e : BaseException) (s s' : S)
      → decision_of b e s ≡ (returned retry_execution, s')
      → (b ≡ true) × (s ≡ s')
  decided true e s s' h = (refl, ap (λ (x : Outcome (ErrorHandlerDecision T) × S). x.1) h)
  decided false e s s' h = absurd (never_retried (decision_of false e s) s' refl h)

  after_retry_callback :
      (e : BaseException) (x : Outcome Unit × S) (s' : S)
      → on_return x (λ _. retry_handler {T = T} e) ≡ (returned retry_execution, s')
      → (is_exception e ≡ true) × (x ≡ (returned tt, s'))
  unfolding retry_handler
  after_retry_callback e (returned u, s) s' h =
      let (yields, same) = decided (is_exception e) e s s' h in
      (yields, ap (λ (s : S). (returned tt, s)) same)
  after_retry_callback e (raised e', s) s' h = absurd (never_retried (raised e', s) s' refl h)

-- The definition that the mappings of `mappings-precedence` have for a class.
abbrev pub expected :
    {S T : Type 0}
    → List String
    → List String
    → List String
    → List String
    → (BaseException → Call S ℤ)
    → (BaseException → Call S BaseException)
    → (BaseException → Call S T)
    → (on_exit on_raise on_continue on_retry : Option (BaseException → Call S Unit)) → String
    → Option (ErrorHandlingDefinition S T)
expected exits raises continues retries exit_code exception value on_exit on_raise on_continue
      on_retry cls =
    if names retries cls
    then some (record { handler = retry_handler; callback = callback_or on_retry })
    else if names continues cls
    then some (record { handler = continue_handler value; callback = callback_or on_continue })
    else if names raises cls
    then some (record { handler = raise_handler (some exception); callback = callback_or on_raise })
    else if names exits cls
    then some (record { handler = exit_handler exit_code; callback = callback_or on_exit })
    else none

module _ {S T : Type 0} (retries : List String)
    (on_retry : Option (BaseException → Call S Unit)) where
  -- What a definition of mappings is: that of a retry, or one that never retries.
  abbrev pub Classified : Option (ErrorHandlingDefinition S T) → String → Type 0
  Classified found cls =
      (found ≡ none)
      ⊎ (definition : ErrorHandlingDefinition S T) × (found ≡ some definition)
        × (NeverRetries definition.handler
            ⊎ (names retries cls ≡ true)
              × (definition ≡ record { handler = retry_handler; callback = callback_or on_retry }))

  pub handle_as-retried :
      (d : TypeMappings S T) (default : ErrorHandler S T) (classes : List String)
      (e : BaseException) (s s' : S)
      → ((cls : String) → Classified (lookup cls d) cls)
      → NeverRetries default
      → handle_as d default classes e s ≡ (returned retry_execution, s')
      → (is_exception e ≡ true)
        × (any (names retries) classes ≡ true)
        × (callback_or on_retry e s ≡ (returned tt, s'))
  unfolding handle_as
  handle_as-retried d default [] e s s' classified never h =
      absurd (never_retried (default e s) s' (never e s) h)
  handle_as-retried d default (cls ∷ classes) e s s' classified never h = elim (classified cls) [
    | inl unmapped ↦
        let (one, two, three) = handle_as-retried d default classes e s s' classified never (
          ap (λ (call : Call S (ErrorHandlerDecision T)). call s)
            (sym (handle_as-Unmapped d default cls classes e unmapped))
          ∙ h) in
        (one, ground (arith, two), three)
    | inr (definition, found, inl ends) ↦
        let call =
          ap (λ (c : Call S (ErrorHandlerDecision T)). c s)
            (sym (handle_as-mapped d default cls classes e definition found))
          ∙ h in
        absurd (
          never_retried _ s' (after_callback definition.handler e (definition.callback e s) ends)
            call)
    | inr (definition, found, inr (named, same)) ↦
        let call =
          ap (λ (x : ErrorHandlingDefinition S T). on_return (x.callback e s) (λ _. x.handler e))
            (sym same)
          ∙ ap (λ (c : Call S (ErrorHandlerDecision T)). c s)
              (sym (handle_as-mapped d default cls classes e definition found))
          ∙ h in
        let (accepted, called) = after_retry_callback e (callback_or on_retry e s) s' call in
        (accepted, ground (arith, named), called)
  ]

  -- The mappings that the four builders make are of that kind.
  pub expected-Classified :
      (exits raises continues : List String) (exit_code : BaseException → Call S ℤ)
      (exception : BaseException → Call S BaseException) (value : BaseException → Call S T)
      (on_exit on_raise on_continue : Option (BaseException → Call S Unit)) (cls : String)
      → Classified
          (expected exits raises continues retries exit_code exception value on_exit on_raise
            on_continue on_retry cls)
          cls
  expected-Classified exits raises continues exit_code exception value on_exit on_raise on_continue
        cls =
      elim (Bool-cases (names retries cls)) [
        | inl r ↦ rw r (inr (_, refl, inr (refl, refl)))
        | inr r ↦ rw r (elim (Bool-cases (names continues cls)) [
          | inl c ↦ rw c (inr (_, refl, inl (continue_handler-NeverRetries value)))
          | inr c ↦ rw c (elim (Bool-cases (names raises cls)) [
            | inl x ↦ rw x (inr (_, refl, inl (raise_handler-NeverRetries T (some exception))))
            | inr x ↦ rw x (elim (Bool-cases (names exits cls)) [
              | inl o ↦ rw o (inr (_, refl, inl (exit_handler-NeverRetries T exit_code)))
              | inr o ↦ rw o (inl refl)
            ])
          ])
        ])
      ]
