-- ===== src/Processing/ErrorHandling/Termination.antt =====
-- A service whose work fails with retried exceptions only so often comes to an end.
use event_store.Prelude.{
  ℕ, suc, ◌<◌, String, ℤ, ◌≡◌, ◌≢◌, refl, sym, ap, ◌∙◌, subst, true, Option, some, List, any,
  lookup, string_eq,
}
use event_store.Processing.ErrorHandling.{
  BaseException, Call, Outcome, returned, raised, ErrorHandler, ErrorHandlerDecision,
  retry_execution, exit_fatally, raise_exception, continue_execution, ErrorHandlingDefinition,
  TypeMappings, is_exception, mro, handle, raise_handler,
}
use event_store.Processing.ErrorHandling.Mappings.{
  dictionary, callback_or, exit_fatally_type_mapping, raise_exception_type_mapping,
  continue_execution_type_mapping, retry_execution_type_mapping, error_handler_type_mappings,
}
use event_store.Processing.ErrorHandling.Precedence.{names, mappings-precedence}
use event_store.Processing.ErrorHandling.Retried.{
  handle_as-retried, expected-Classified, Classified, raise_handler-NeverRetries,
}
use event_store.Processing.ErrorHandling.Execution.{
  Turn, ends, again, turn, executed, handled, decide, execute, Executes, execute-measured,
}

returned-injective : {A : Type 0} {a b : A} → returned a ≡ returned b → a ≡ b
returned-injective {a = a} p = cc

module _ {S T : Type 0} where
  handled-again :
      (x : Outcome (ErrorHandlerDecision T) × S) (s : S)
      → handled x ≡ (again, s)
      → x ≡ (returned retry_execution, s)
  unfolding handled decide
  handled-again (returned (exit_fatally code), s') s h = cc
  handled-again (returned (raise_exception e), s') s h = cc
  handled-again (returned (continue_execution v), s') s h = cc
  handled-again (returned retry_execution, s') s h =
      ap (λ (t : Turn T × S). (returned retry_execution, t.1)) h
  handled-again (raised e, s') s h = cc

  ends_again : (o : Outcome T) (s s' : S) → ◌≢◌ {A = Turn T × S} (ends o, s) (again, s')
  ends_again o s s' h = cc

  executed-again :
      (handler : ErrorHandler S T) (x : Outcome T × S) (s : S)
      → executed handler x ≡ (again, s)
      → (e : BaseException) × (s' : S) × (x ≡ (raised e, s'))
        × (handler e s' ≡ (returned retry_execution, s))
  unfolding executed
  executed-again handler (returned v, s') s h = absurd (ends_again (returned v) s' s h)
  executed-again handler (raised e, s') s h = (e, s', refl, handled-again (handler e s') s h)

  -- A service with the four groups of type mappings, whose other exceptions raise, comes to an
  -- outcome, by a run of turns that leads to it, if every failure that its mappings retry lowers a
  -- measure: an exception that is an `Exception`, with a class that the group of retries names,
  -- after its callback. The turns are at most one more than the measure; no other failure is
  -- assumed to lower it.
  pub execute-terminates :
      (do_execute : Call S T) (exits raises continues retries : List String)
      (exit_code : BaseException → Call S ℤ) (exception : BaseException → Call S BaseException)
      (value : BaseException → Call S T)
      (on_exit on_raise on_continue on_retry : Option (BaseException → Call S Unit))
      (exception_factory : Option (BaseException → Call S BaseException)) (d : TypeMappings S T)
      (m : S → ℕ)
      → error_handler_type_mappings
          (dictionary (exit_fatally_type_mapping exits exit_code on_exit))
          (dictionary (raise_exception_type_mapping raises exception on_raise))
          (some (continue_execution_type_mapping continues value on_continue))
          (dictionary (retry_execution_type_mapping retries on_retry))
        ≡ returned d
      → ((s s' s'' : S) (e : BaseException)
          → do_execute s ≡ (raised e, s')
          → is_exception e ≡ true
          → any (names retries) (mro e) ≡ true
          → callback_or on_retry e s' ≡ (returned tt, s'')
          → m s'' < m s)
      → (s : S)
      → (r : Outcome T × S) × (execute do_execute
            (handle d (raise_handler exception_factory))
            (suc (m s))
            s
          ≡ some r)
        × Executes do_execute (handle d (raise_handler exception_factory)) s r
  unfolding turn handle
  execute-terminates do_execute exits raises continues retries exit_code exception value on_exit
        on_raise on_continue on_retry factory d m made lowers =
      let (d', made', found) =
        mappings-precedence exits raises continues retries exit_code exception value on_exit
          on_raise on_continue on_retry in
      let same : d' ≡ d = returned-injective (sym made' ∙ made) in
      let classified : (cls : String) → Classified retries on_retry (lookup cls d) cls = λ cls.
        subst (λ (o : Option (ErrorHandlingDefinition S T)). Classified retries on_retry o cls)
          (sym (found cls) ∙ ap (λ (x : TypeMappings S T). lookup cls x) same)
          (expected-Classified retries on_retry exits raises continues exit_code exception value
            on_exit on_raise on_continue cls) in
      execute-measured do_execute (handle d (raise_handler factory)) m (λ s s'' h.
        let (e, s', fails, retries_it) =
          executed-again (handle d (raise_handler factory)) (do_execute s) s'' h in
        let (accepted, named, called) =
          handle_as-retried retries on_retry d (raise_handler factory) (mro e) e s' s'' classified
            (raise_handler-NeverRetries T factory) retries_it in
        lowers s s' s'' e fails accepted named called)
