-- ===== src/Processing/ErrorHandling/Mappings.antt =====
-- src/logicblocks/event/processing/services/error.py: the type mappings that an application gives,
-- and the dictionary that they come to. A key that may be missing is an option, and reading a
-- missing one raises a `KeyError`.
use event_store.Prelude.{String, ℤ, Option, none, some, List, [], ◌∷◌, string_eq, assign}
use event_store.Processing.ErrorHandling.{
  BaseException, key_error, Outcome, returned, raised, Call, pure, ErrorHandlingDefinition,
  TypeMappings, default_exit_code_factory, default_exception_factory, ErrorHandler, exit_handler,
  raise_handler, continue_handler, retry_handler,
}

-- A mapping with its own key, the factory of its decision.
pub record TypeMappingDict (S F : Type 0) : Type 0 where
  pub types : List String
  pub callback : Option (BaseException → Call S Unit)
  pub factory : F

-- `Sequence[type[BaseException]] | TypeMappingDict | None`
pub data TypeMappingValue (S F : Type 0) : Type 0 where
  no_value : TypeMappingValue S F
  sequence : List String → TypeMappingValue S F
  dictionary : TypeMappingDict S F → TypeMappingValue S F

infixl 5 ◌>>=◌
abbrev pub ◌>>=◌ : {A B : Type 0} → Outcome A → (A → Outcome B) → Outcome B
returned a >>= rest = rest a
raised e >>= rest = raised e

-- `mapping[name]`
unfoldable pub item : {A : Type 0} → String → Option A → Outcome A
item name none = raised (key_error name)
item name (some a) = returned a

-- `lambda _: None`
unfoldable pub no_callback : {S : Type 0} → BaseException → Call S Unit
no_callback exception = pure tt

module _ {S F : Type 0} where
  unfoldable pub resolve_exception_types : TypeMappingValue S F → List String
  resolve_exception_types no_value = []
  resolve_exception_types (sequence types) = types
  resolve_exception_types (dictionary d) = d.types

  unfoldable pub resolve_callback : TypeMappingValue S F → Outcome (BaseException → Call S Unit)
  unfolding item no_callback
  resolve_callback no_value = returned no_callback
  resolve_callback (sequence types) = returned no_callback
  resolve_callback (dictionary d) = item "callback" d.callback

  -- The factory of the value: the default for a sequence, else its key.
  unfoldable pub resolve_factory :
      {B : Type 0} → String → (F → Option B) → B → TypeMappingValue S F → Outcome B
  unfolding item
  resolve_factory name factory default no_value = returned default
  resolve_factory name factory default (sequence types) = returned default
  resolve_factory name factory default (dictionary d) = item name (factory d.factory)

-- What a value comes to, with every key there.
abbrev pub Resolved : Type 0 → Type 0 → Type 0
Resolved S B = Outcome (Option (TypeMappingDict S B))

module _ {S : Type 0} where
  unfoldable pub resolve_exit_fatally :
      TypeMappingValue S (Option (BaseException → Call S ℤ)) → Resolved S (BaseException → Call S ℤ)
  unfolding resolve_exception_types resolve_callback resolve_factory default_exit_code_factory
  resolve_exit_fatally no_value = returned none
  resolve_exit_fatally value = do
    callback ← resolve_callback value
    factory ← resolve_factory "exit_code_factory" (λ f. f) default_exit_code_factory value
    returned (
        some (record {
          types = resolve_exception_types value;
          callback = some callback;
          factory = factory;
        }))

  unfoldable pub resolve_raise_exception :
      TypeMappingValue S (Option (BaseException → Call S BaseException))
      → Resolved S (BaseException → Call S BaseException)
  unfolding resolve_exception_types resolve_callback resolve_factory default_exception_factory
  resolve_raise_exception no_value = returned none
  resolve_raise_exception value = do
    callback ← resolve_callback value
    factory ← resolve_factory "exception_factory" (λ f. f) default_exception_factory value
    returned (
        some (record {
          types = resolve_exception_types value;
          callback = some callback;
          factory = factory;
        }))

  -- A mapping that continues is a dictionary or nothing.
  unfoldable pub resolve_continue_execution :
      {T : Type 0}
      → Option (TypeMappingDict S (BaseException → Call S T))
      → Resolved S (BaseException → Call S T)
  unfolding resolve_exception_types resolve_callback
  resolve_continue_execution none = returned none
  resolve_continue_execution (some d) = do
    callback ← resolve_callback (dictionary d)
    returned (
        some (record {
          types = resolve_exception_types (dictionary d);
          callback = some callback;
          factory = d.factory;
        }))

  unfoldable pub resolve_retry_execution : TypeMappingValue S Unit → Resolved S Unit
  unfolding resolve_exception_types resolve_callback
  resolve_retry_execution no_value = returned none
  resolve_retry_execution value = do
    callback ← resolve_callback value
    returned (
        some (record {
          types = resolve_exception_types value;
          callback = some callback;
          factory = tt;
        }))

module _ {S T : Type 0} where
  -- `{exception_type: definition for exception_type in types}`
  unfoldable pub all_to :
      ErrorHandlingDefinition S T → List String → TypeMappings S T → TypeMappings S T
  all_to definition [] d = d
  all_to definition (cls ∷ types) d = all_to definition types (assign cls definition d)

  -- The mappings of a resolved value, each class with the handler that its factory makes.
  unfoldable pub mappings_of :
      {B : Type 0}
      → (B → ErrorHandler S T)
      → Option (TypeMappingDict S B)
      → Outcome (TypeMappings S T)
  unfolding item all_to
  mappings_of handler none = returned []
  mappings_of handler (some d) = do
    callback ← item "callback" d.callback
    returned (all_to (record { handler = handler d.factory; callback = callback }) d.types [])

  -- `{**xs, **ys}`, from an `xs` that is there
  unfoldable pub merge : TypeMappings S T → TypeMappings S T → TypeMappings S T
  merge xs [] = xs
  merge xs ((cls, definition) ∷ ys) = merge (assign cls definition xs) ys

  unfoldable pub error_handler_type_mappings :
      TypeMappingValue S (Option (BaseException → Call S ℤ))
      → TypeMappingValue S (Option (BaseException → Call S BaseException))
      → Option (TypeMappingDict S (BaseException → Call S T))
      → TypeMappingValue S Unit
      → Outcome (TypeMappings S T)
  unfolding mappings_of merge resolve_exit_fatally resolve_raise_exception
      resolve_continue_execution resolve_retry_execution
  error_handler_type_mappings exit_fatally raise_exception continue_execution retry_execution = do
    exit_dict ← resolve_exit_fatally exit_fatally
    exits ← mappings_of exit_handler exit_dict
    raise_dict ← resolve_raise_exception raise_exception
    raises ← mappings_of (λ factory. raise_handler (some factory)) raise_dict
    continue_dict ← resolve_continue_execution continue_execution
    continues ← mappings_of continue_handler continue_dict
    retry_dict ← resolve_retry_execution retry_execution
    retries ← mappings_of (λ _. retry_handler) retry_dict
    returned (merge (merge (merge exits raises) continues) retries)

module _ {S : Type 0} where
  unfoldable pub callback_or : Option (BaseException → Call S Unit) → BaseException → Call S Unit
  callback_or none = no_callback
  callback_or (some callback) = callback

  unfoldable pub exit_fatally_type_mapping :
      List String
      → (BaseException → Call S ℤ)
      → Option (BaseException → Call S Unit)
      → TypeMappingDict S (Option (BaseException → Call S ℤ))
  exit_fatally_type_mapping types exit_code_factory callback = record {
    types = types;
    callback = some (callback_or callback);
    factory = some exit_code_factory;
  }

  unfoldable pub raise_exception_type_mapping :
      List String
      → (BaseException → Call S BaseException)
      → Option (BaseException → Call S Unit)
      → TypeMappingDict S (Option (BaseException → Call S BaseException))
  raise_exception_type_mapping types exception_factory callback = record {
    types = types;
    callback = some (callback_or callback);
    factory = some exception_factory;
  }

  unfoldable pub continue_execution_type_mapping :
      {T : Type 0}
      → List String
      → (BaseException → Call S T)
      → Option (BaseException → Call S Unit)
      → TypeMappingDict S (BaseException → Call S T)
  continue_execution_type_mapping types value_factory callback = record {
    types = types;
    callback = some (callback_or callback);
    factory = value_factory;
  }

  unfoldable pub retry_execution_type_mapping :
      List String → Option (BaseException → Call S Unit) → TypeMappingDict S Unit
  retry_execution_type_mapping types callback = record {
    types = types;
    callback = some (callback_or callback);
    factory = tt;
  }
