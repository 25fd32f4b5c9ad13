-- ===== src/Examples/Services.antt =====
-- A service whose work fails a number of times, and the type mappings of its errors.
use event_store.Prelude.{
  ap, ℕ, zero, suc, ◌<◌, String, ℤ, pos, ◌≡◌, refl, true, false, Option, none, some, List, [], ◌∷◌,
  lookup, any, string_eq, arith, if◌then◌else◌, ◌&&◌,
}
use event_store.Processing.ErrorHandling.{
  BaseException, instance_of, Call, pure, Outcome, returned, raised, mro, is_exception, handle,
  TypeMappings, retry_handler, raise_handler, continue_handler, exit_handler,
  default_exception_factory,
}
use event_store.Processing.ErrorHandling.Mappings.{
  no_value, sequence, dictionary, no_callback, error_handler_type_mappings, TypeMappingValue,
  TypeMappingDict, callback_or, all_to, merge, mappings_of, item, retry_execution_type_mapping,
  exit_fatally_type_mapping, continue_execution_type_mapping, raise_exception_type_mapping,
  resolve_exit_fatally, resolve_raise_exception, resolve_continue_execution,
  resolve_retry_execution, resolve_exception_types, resolve_callback, resolve_factory,
}
use event_store.Processing.ErrorHandling.Execution.{
  turn, executed, handled, decide, execute, Executes,
}
use event_store.Processing.ErrorHandling.Termination.{execute-terminates}
use event_store.Processing.ErrorHandling.Classes.{HandledAs, handle-HandledAs}
use event_store.Processing.ErrorHandling.Precedence.{names, mappings-precedence}
use event_store.Processing.ErrorHandling.Fatal.{execute-fatal}
use event_store.Processing.ErrorHandling.Missing.{
  Reads, has_keys, has_callback, is_there, error_handler_type_mappings-Reads,
}

abbrev timeout : BaseException
timeout =
    instance_of ("TimeoutError" ∷ "OSError" ∷ "Exception" ∷ "BaseException" ∷ "object" ∷ []) "slow"

abbrev cancelled : BaseException
cancelled = instance_of ("CancelledError" ∷ "BaseException" ∷ "object" ∷ []) ""

-- Work that times out as often as its state says.
abbrev flaky : Call ℕ ℕ
flaky zero = (returned 5, 0)
flaky (suc n) = (raised timeout, n)

abbrev stopped : Call ℕ ℕ
stopped s = (raised cancelled, s)

abbrev zero_code : BaseException → Call ℕ ℤ
zero_code e = pure (pos 0)

abbrev seven : BaseException → Call ℕ ℕ
seven e = pure 7

abbrev retry_os_errors : TypeMappings ℕ ℕ
retry_os_errors = ("OSError", record { handler = retry_handler; callback = no_callback }) ∷ []

handle-HandledAs_example :
    HandledAs retry_os_errors
      (raise_handler none)
      (mro timeout)
      timeout
      (handle retry_os_errors (raise_handler none) timeout)
handle-HandledAs_example = handle-HandledAs retry_os_errors (raise_handler none) timeout

-- An application that retries errors of the operating system.
abbrev retried_names : List String
retried_names = "OSError" ∷ []

abbrev os_mappings : TypeMappings ℕ ℕ
os_mappings = ("OSError", record { handler = retry_handler; callback = callback_or none }) ∷ []

os_made :
    error_handler_type_mappings
      (dictionary (exit_fatally_type_mapping [] zero_code none))
      (dictionary (raise_exception_type_mapping [] default_exception_factory none))
      (some (continue_execution_type_mapping [] seven none))
      (dictionary (retry_execution_type_mapping retried_names none))
    ≡ returned os_mappings
unfolding error_handler_type_mappings resolve_exit_fatally resolve_raise_exception
    resolve_continue_execution resolve_retry_execution mappings_of resolve_exception_types
    resolve_callback resolve_factory item all_to merge exit_fatally_type_mapping
    raise_exception_type_mapping continue_execution_type_mapping retry_execution_type_mapping
os_made = refl

-- Each time out leaves one less to come.
flaky-lowers :
    (s s' s'' : ℕ) (e : BaseException)
    → flaky s ≡ (raised e, s')
    → is_exception e ≡ true
    → any (names retried_names) (mro e) ≡ true
    → callback_or {S = ℕ} none e s' ≡ (returned tt, s'')
    → s'' < s
unfolding callback_or no_callback
flaky-lowers zero s' s'' e fails accepted named called = cc
flaky-lowers (suc n) s' s'' e fails accepted named called =
    let one : n ≡ s' = ap (λ (x : Outcome ℕ × ℕ). x.1) fails in
    let two : s' ≡ s'' = ap (λ (x : Outcome Unit × ℕ). x.1) called in omega (arith, one, two)

execute-terminates_example :
    (r : Outcome ℕ × ℕ) × (execute flaky (handle os_mappings (raise_handler none)) 4 3 ≡ some r)
    × Executes flaky (handle os_mappings (raise_handler none)) 3 r
execute-terminates_example =
    execute-terminates flaky [] [] [] retried_names zero_code default_exception_factory seven none
      none none none none os_mappings (λ s. s) os_made flaky-lowers 3

execute_run : execute flaky retry_handler 4 3 ≡ some (returned 5, 0)
unfolding execute turn executed handled decide retry_handler is_exception mro
execute_run = refl

abbrev fatal_mappings : TypeMappings ℕ ℕ
fatal_mappings = ("BaseException", record { handler = retry_handler; callback = no_callback }) ∷ []

fatal_made :
    error_handler_type_mappings no_value no_value none (sequence ("BaseException" ∷ []))
    ≡ returned fatal_mappings
unfolding error_handler_type_mappings resolve_exit_fatally resolve_raise_exception
    resolve_continue_execution resolve_retry_execution mappings_of resolve_exception_types
    resolve_callback item all_to merge
fatal_made = refl

cancelled_is_fatal : is_exception cancelled ≡ false
unfolding is_exception mro
cancelled_is_fatal = refl

execute-fatal_example :
    (e : BaseException) × (s : ℕ) × (execute stopped
        (handle fatal_mappings (raise_handler none))
        3
        0
      ≡ some (raised e, s))
execute-fatal_example =
    execute-fatal stopped no_value no_value none (sequence ("BaseException" ∷ [])) none
      fatal_mappings 0 0 cancelled 2 fatal_made refl cancelled_is_fatal

mappings-precedence_example :
    (d : TypeMappings ℕ ℕ) × (error_handler_type_mappings
        (dictionary (exit_fatally_type_mapping ("A" ∷ "B" ∷ []) zero_code none))
        (dictionary (raise_exception_type_mapping ("C" ∷ []) default_exception_factory none))
        (some (continue_execution_type_mapping ("A" ∷ []) seven none))
        (dictionary (retry_execution_type_mapping ("A" ∷ []) none))
      ≡ returned d)
    × ((cls : String)
        → lookup cls d ≡ (
            if names ("A" ∷ []) cls
            then some (record { handler = retry_handler; callback = callback_or none })
            else if names ("A" ∷ []) cls
            then some (record { handler = continue_handler seven; callback = callback_or none })
            else if names ("C" ∷ []) cls
            then some (record {
              handler = raise_handler (some default_exception_factory);
              callback = callback_or none;
            })
            else if names ("A" ∷ "B" ∷ []) cls
            then some (record { handler = exit_handler zero_code; callback = callback_or none })
            else none))
mappings-precedence_example =
    mappings-precedence ("A" ∷ "B" ∷ []) ("C" ∷ []) ("A" ∷ []) ("A" ∷ []) zero_code
      default_exception_factory seven none none none none

-- A dictionary that leaves out its callback, as its type allows.
abbrev bare : TypeMappingValue ℕ (Option (BaseException → Call ℕ ℤ))
bare = dictionary (record { types = "A" ∷ []; callback = none; factory = none })

abbrev no_raises : TypeMappingValue ℕ (Option (BaseException → Call ℕ BaseException))
no_raises = no_value

abbrev no_continues : Option (TypeMappingDict ℕ (BaseException → Call ℕ ℕ))
no_continues = none

abbrev no_retries : TypeMappingValue ℕ Unit
no_retries = no_value

error_handler_type_mappings-Reads_example :
    Reads
      (has_keys is_there bare
        && (has_keys is_there no_raises
            && (has_callback no_continues && has_keys (λ _. true) no_retries)))
      (error_handler_type_mappings bare no_raises no_continues no_retries)
error_handler_type_mappings-Reads_example =
    error_handler_type_mappings-Reads bare no_raises no_continues no_retries
