-- ===== src/Processing/ErrorHandling/Fatal.antt =====
-- An exception that is no `Exception`, such as the cancellation of a task, gets through every error
-- handler that type mappings make.
use event_store.Prelude.{
  Option-cases, ℕ, suc, String, ℤ, ◌≡◌, refl, sym, ap, subst, ◌∙◌, true, false, Option, some, List,
  [], ◌∷◌, ◌==◌, string_eq, lookup, inl, inr, Bool-cases, arith, if◌then◌else◌,
}
use event_store.Processing.ErrorHandling.{
  BaseException, system_exit, Call, on_return, Outcome, returned, raised, ErrorHandler,
  ErrorHandlerDecision, exit_fatally, raise_exception, continue_execution, retry_execution,
  ErrorHandlingDefinition, TypeMappings, is_exception, mro, handle, handle_as, raise_handler,
}
use event_store.Processing.ErrorHandling.Classes.{handle_as-Unmapped, handle_as-mapped}
use event_store.Processing.ErrorHandling.Mappings.{
  TypeMappingValue, TypeMappingDict, error_handler_type_mappings,
}
use event_store.Processing.ErrorHandling.Execution.{
  ends, some-injective, go_on, execute, turn, executed, handled, decide,
}
use event_store.Processing.ErrorHandling.Propagation.{
  propagates, Propagates, OnReturned, AllPropagate, raise_handler-Propagates,
  error_handler_type_mappings-AllPropagate,
}

module _ {S T : Type 0} where
  lookup-Propagates :
      (cls : String) (m : TypeMappings S T) (d : ErrorHandlingDefinition S T)
      → AllPropagate m
      → lookup cls m ≡ some d
      → Propagates d.handler
  lookup-Propagates cls [] d hm found = ground arith
  lookup-Propagates cls ((k, x) ∷ m) d hm found = elim (Bool-cases (k == cls)) [
    | inl e ↦
        let same : x ≡ d =
          some-injective (sym (ap (λ b. if b then some x else lookup cls m) e) ∙ found) in
        subst (λ d. Propagates d.handler) same hm.0
    | inr e ↦
        lookup-Propagates cls m d hm.1
          (sym (ap (λ b. if b then some x else lookup cls m) e) ∙ found)
  ]

  after_callback :
      (handler : ErrorHandler S T) (e : BaseException) (x : Outcome Unit × S)
      → Propagates handler
      → is_exception e ≡ false
      → propagates (on_return x (λ _. handler e)).0 ≡ true
  unfolding propagates
  after_callback handler e (returned u, s) hp h = hp e s h
  after_callback handler e (raised e', s) hp h = refl

  handle_as-Propagates :
      (m : TypeMappings S T) (default : ErrorHandler S T) (classes : List String)
      → AllPropagate m
      → Propagates default
      → Propagates (handle_as m default classes)
  unfolding handle_as
  handle_as-Propagates m default [] hm hd e s h = hd e s h
  handle_as-Propagates m default (cls ∷ classes) hm hd e s h = elim (Option-cases (lookup cls m)) [
    | inl none_found ↦
        subst (λ call. propagates (call s).0 ≡ true)
          (sym (handle_as-Unmapped m default cls classes e none_found))
          (handle_as-Propagates m default classes hm hd e s h)
    | inr (d, found) ↦
        subst (λ call. propagates (call s).0 ≡ true)
          (sym (handle_as-mapped m default cls classes e d found))
          (after_callback d.handler e (d.callback e s) (lookup-Propagates cls m d hm found) h)
  ]

  handled-ends :
      (x : Outcome (ErrorHandlerDecision T) × S)
      → propagates x.0 ≡ true
      → (e : BaseException) × (s : S) × (handled x ≡ (ends (raised e), s))
  unfolding handled decide propagates
  handled-ends (returned (exit_fatally code), s) h = (system_exit code, s, refl)
  handled-ends (returned (raise_exception e), s) h = (e, s, refl)
  handled-ends (returned (continue_execution v), s) h = ground arith
  handled-ends (returned retry_execution, s) h = ground arith
  handled-ends (raised e, s) h = (e, s, refl)

  -- Whatever type mappings an application gives, if the default handler raises, an exception that
  -- is no `Exception` ends the loop in the turn it comes from, with an exception: it is not
  -- retried, and no value is returned for it.
  pub execute-fatal :
      (do_execute : Call S T) (exits : TypeMappingValue S (Option (BaseException → Call S ℤ)))
      (raises : TypeMappingValue S (Option (BaseException → Call S BaseException)))
      (continues : Option (TypeMappingDict S (BaseException → Call S T)))
      (retries : TypeMappingValue S Unit)
      (exception_factory : Option (BaseException → Call S BaseException)) (d : TypeMappings S T)
      (s s' : S) (e : BaseException) (n : ℕ)
      → error_handler_type_mappings exits raises continues retries ≡ returned d
      → do_execute s ≡ (raised e, s')
      → is_exception e ≡ false
      → (e' : BaseException) × (s'' : S) × (execute do_execute
            (handle d (raise_handler exception_factory))
            (suc n)
            s
          ≡ some (raised e', s''))
  unfolding execute turn executed handle
  execute-fatal do_execute exits raises continues retries factory d s s' e n made raises' h =
      let all_propagate : AllPropagate d =
        subst (OnReturned AllPropagate) made
          (error_handler_type_mappings-AllPropagate exits raises continues retries) in
      let handler = handle d (raise_handler factory) in
      let (e', s'', same) = handled-ends (handler e s') (
        handle_as-Propagates d (raise_handler factory) (mro e) all_propagate
          (raise_handler-Propagates T factory) e s' h) in
      (
        e',
        s'',
        ap
              (λ x.
                go_on do_execute handler (executed handler x) (λ t. execute do_execute handler n t))
              raises'
            ∙ ap (λ x. go_on do_execute handler x (λ t. execute do_execute handler n t)) same,
      )
