-- ===== src/Processing/ErrorHandling.antt =====
-- src/logicblocks/event/processing/services/error.py: what a service does with an exception. A class
-- of exceptions is its name. A call takes the state of the program, and leaves a state with what it
-- returns or raises: callbacks and factories of the application may do either.
pub mod Mappings
pub mod Execution
pub mod Retried
pub mod Termination
pub mod Classes
pub mod Precedence
pub mod Propagation
pub mod Fatal
pub mod Missing
use event_store.Prelude.{
  String, Bool, true, false, ℤ, pos, Option, none, some, List, [], ◌∷◌, any, ◌==◌, string_eq, Dict,
  lookup, if◌then◌else◌,
}

-- An exception with the `__mro__` of its type, or one that the code raises itself.
pub data BaseException : Type 0 where
  instance_of : List String → String → BaseException
  system_exit : ℤ → BaseException
  key_error : String → BaseException

-- `type(exception).__mro__`
unfoldable pub mro : BaseException → List String
mro (instance_of classes text) = classes
mro (system_exit exit_code) = "SystemExit" ∷ "BaseException" ∷ "object" ∷ []
mro (key_error key) = "KeyError" ∷ "LookupError" ∷ "Exception" ∷ "BaseException" ∷ "object" ∷ []

-- `isinstance(exception, Exception)`
unfoldable pub is_exception : BaseException → Bool
unfolding mro
is_exception exception = any (λ cls. cls == "Exception") (mro exception)

pub data Outcome (A : Type 0) : Type 0 where
  returned : A → Outcome A
  raised : BaseException → Outcome A

abbrev pub Call : Type 0 → Type 0 → Type 0
Call S A = S → Outcome A × S

-- The rest of a body, after a call that may raise.
abbrev pub on_return : {S A B : Type 0} → Outcome A × S → (A → Call S B) → Outcome B × S
on_return (returned a, s) rest = rest a s
on_return (raised e, s) rest = (raised e, s)

infixl 5 ◌>>=◌
abbrev pub ◌>>=◌ : {S A B : Type 0} → Call S A → (A → Call S B) → Call S B
(call >>= rest) s = on_return (call s) rest

abbrev pub pure : {S A : Type 0} → A → Call S A
pure a s = (returned a, s)

pub data ErrorHandlerDecision (T : Type 0) : Type 0 where
  exit_fatally : ℤ → ErrorHandlerDecision T
  raise_exception : BaseException → ErrorHandlerDecision T
  continue_execution : T → ErrorHandlerDecision T
  retry_execution : ErrorHandlerDecision T

-- `ErrorHandler.handle`
abbrev pub ErrorHandler : Type 0 → Type 0 → Type 0
ErrorHandler S T = BaseException → Call S (ErrorHandlerDecision T)

module _ {S : Type 0} where
  unfoldable pub default_exit_code_factory : BaseException → Call S ℤ
  default_exit_code_factory exception = pure (pos 1)

  unfoldable pub default_exception_factory : BaseException → Call S BaseException
  default_exception_factory exception = pure exception

module _ {S T : Type 0} where
  unfoldable pub exit_handler : (BaseException → Call S ℤ) → ErrorHandler S T
  exit_handler exit_code_factory exception = do
    exit_code ← exit_code_factory exception
    pure (exit_fatally exit_code)

  unfoldable pub raise_handler : Option (BaseException → Call S BaseException) → ErrorHandler S T
  raise_handler none exception = pure (raise_exception exception)
  raise_handler (some exception_factory) exception = do
    resolved_exception ← exception_factory exception
    pure (raise_exception resolved_exception)

  unfoldable pub continue_handler : (BaseException → Call S T) → ErrorHandler S T
  unfolding is_exception
  continue_handler value_factory exception =
      if is_exception exception
      then (do value ← value_factory exception; pure (continue_execution value))
      else pure (raise_exception exception)

  unfoldable pub retry_handler : ErrorHandler S T
  unfolding is_exception
  retry_handler exception =
      if is_exception exception then pure retry_execution else pure (raise_exception exception)

pub record ErrorHandlingDefinition (S T : Type 0) : Type 0 where
  pub handler : ErrorHandler S T
  pub callback : BaseException → Call S Unit

abbrev pub TypeMappings : Type 0 → Type 0 → Type 0
TypeMappings S T = Dict String (ErrorHandlingDefinition S T)

module _ {S T : Type 0} (type_mappings : TypeMappings S T) (default : ErrorHandler S T) where
  -- The loop over the classes of the exception.
  unfoldable pub handle_as : List String → ErrorHandler S T
  handle_as [] exception = default exception
  handle_as (cls ∷ classes) exception =
      let rest = handle_as classes exception in
      elim (lookup cls type_mappings) [
        | none ↦ rest
        | some definition ↦ definition.callback exception >>= λ _. definition.handler exception
      ]

  -- `TypeMappingErrorHandler.handle`
  unfoldable pub handle : ErrorHandler S T
  unfolding handle_as mro
  handle exception = handle_as (mro exception) exception
