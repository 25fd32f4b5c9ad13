-- ===== src/Processing/ErrorHandling/Missing.antt =====
-- Which type mappings can be read: those that have the keys that the code reads, though their types
-- say that a callback and a factory may be left out.
use event_store.Prelude.{
  Option-cases, and_true, String, ℤ, ◌≡◌, refl, subst, sym, ap, Bool, true, false, ◌&&◌, Option,
  none, some, inl, inr,
}
use event_store.Processing.ErrorHandling.{
  BaseException, key_error, Call, Outcome, returned, raised, ErrorHandler, TypeMappings,
  exit_handler, raise_handler, continue_handler, retry_handler,
}
use event_store.Processing.ErrorHandling.Mappings.{
  TypeMappingValue, no_value, sequence, dictionary, TypeMappingDict, ◌>>=◌, mappings_of, item,
  resolve_callback, resolve_factory, error_handler_type_mappings, Resolved, resolve_exit_fatally,
  resolve_raise_exception, resolve_continue_execution, resolve_retry_execution,
}

-- A value is returned, or a key was missing.
abbrev pub Reads : {A : Type 0} → Bool → Outcome A → Type 0
Reads {A = A} true x = (a : A) × (x ≡ returned a)
Reads false x = (name : String) × (x ≡ raised (key_error name))

abbrev pub is_there : {A : Type 0} → Option A → Bool
is_there none = false
is_there (some a) = true

-- The keys that the code reads are there.
abbrev pub has_keys : {S F : Type 0} → (F → Bool) → TypeMappingValue S F → Bool
has_keys test no_value = true
has_keys test (sequence types) = true
has_keys test (dictionary d) = is_there d.callback && test d.factory

module _ {A B : Type 0} where
  Reads-bind :
      (b c : Bool) (x : Outcome A) (rest : A → Outcome B)
      → Reads b x
      → ((a : A) → Reads c (rest a))
      → Reads (b && c) (x >>= rest)
  Reads-bind true c x rest (a, e) h = subst (λ x. Reads c (x >>= rest)) (sym e) (h a)
  Reads-bind false c x rest (name, e) h = (name, ap (λ x. x >>= rest) e)

  bind_assoc :
      {C : Type 0} (x : Outcome A) (f : A → Outcome B) (g : B → Outcome C)
      → (x >>= λ a. f a >>= g) ≡ (x >>= f >>= g)
  bind_assoc (returned a) f g = refl
  bind_assoc (raised e) f g = refl

item-Reads : {A : Type 0} (name : String) (o : Option A) → Reads (is_there o) (item name o)
unfolding item
item-Reads name none = (name, refl)
item-Reads name (some a) = (a, refl)

-- The keys of a mapping that continues.
abbrev pub has_callback : {S F : Type 0} → Option (TypeMappingDict S F) → Bool
has_callback none = true
has_callback (some d) = is_there d.callback

module _ {S : Type 0} (T : Type 0) where
  exits-Reads :
      (value : TypeMappingValue S (Option (BaseException → Call S ℤ)))
      → Reads
          (has_keys is_there value)
          (resolve_exit_fatally value >>= mappings_of {T = T} exit_handler)
  unfolding resolve_exit_fatally mappings_of item resolve_callback resolve_factory
  exits-Reads no_value = (_, refl)
  exits-Reads (sequence types) = (_, refl)
  exits-Reads (dictionary d) = elim (Option-cases d.callback) [
    | inl e ↦ rw (e, resolve_callback) ("callback", refl)
    | inr (f, e) ↦
        rw (e, resolve_callback)
          (elim (Option-cases d.factory) [
            | inl e' ↦ rw (e', item) ("exit_code_factory", refl)
            | inr (g, e') ↦ rw (e', item) (_, refl)
          ])
  ]

  raises-Reads :
      (value : TypeMappingValue S (Option (BaseException → Call S BaseException)))
      → Reads
          (has_keys is_there value)
          (resolve_raise_exception value >>= mappings_of {T = T} (λ f. raise_handler (some f)))
  unfolding resolve_raise_exception mappings_of item resolve_callback resolve_factory
  raises-Reads no_value = (_, refl)
  raises-Reads (sequence types) = (_, refl)
  raises-Reads (dictionary d) = elim (Option-cases d.callback) [
    | inl e ↦ rw (e, resolve_callback) ("callback", refl)
    | inr (f, e) ↦
        rw (e, resolve_callback)
          (elim (Option-cases d.factory) [
            | inl e' ↦ rw (e', item) ("exception_factory", refl)
            | inr (g, e') ↦ rw (e', item) (_, refl)
          ])
  ]

  continues-Reads :
      (value : Option (TypeMappingDict S (BaseException → Call S T)))
      → Reads
          (has_callback value)
          (resolve_continue_execution value >>= mappings_of continue_handler)
  unfolding resolve_continue_execution mappings_of item resolve_callback
  continues-Reads none = (_, refl)
  continues-Reads (some d) = elim (Option-cases d.callback) [
    | inl e ↦ rw (e, resolve_callback) ("callback", refl)
    | inr (f, e) ↦ rw (e, resolve_callback) (_, refl)
  ]

  retries-Reads :
      (value : TypeMappingValue S Unit)
      → Reads
          (has_keys (λ _. true) value)
          (resolve_retry_execution value >>= mappings_of {T = T} (λ _. retry_handler))
  unfolding resolve_retry_execution mappings_of item resolve_callback
  retries-Reads no_value = (_, refl)
  retries-Reads (sequence types) = (_, refl)
  retries-Reads (dictionary d) = elim (Option-cases d.callback) [
    | inl e ↦ rw (e, resolve_callback) ("callback", refl)
    | inr (f, e) ↦ rw (e, resolve_callback) (_, refl)
  ]

module _ {S T : Type 0} where
  read_group :
      {B C : Type 0} (b c : Bool) (handler : B → ErrorHandler S T) (resolved : Resolved S B)
      (rest : TypeMappings S T → Outcome C)
      → Reads b (resolved >>= mappings_of handler)
      → ((d : TypeMappings S T) → Reads c (rest d))
      → Reads (b && c) (resolved >>= λ o. mappings_of handler o >>= rest)
  read_group b c handler resolved rest h next =
      subst (Reads (b && c)) (sym (bind_assoc resolved (mappings_of handler) rest))
        (Reads-bind b c (resolved >>= mappings_of handler) rest h next)

  read_last :
      {B C : Type 0} (b : Bool) (handler : B → ErrorHandler S T) (resolved : Resolved S B)
      (f : TypeMappings S T → C)
      → Reads b (resolved >>= mappings_of handler)
      → Reads b (resolved >>= λ o. mappings_of handler o >>= λ d. returned (f d))
  read_last b handler resolved f h =
      subst (λ b. Reads b (resolved >>= λ o. mappings_of handler o >>= λ d. returned (f d)))
        (and_true b) (read_group b true handler resolved (λ d. returned (f d)) h (λ d. (f d, refl)))

  -- Reading the four groups of type mappings returns mappings exactly if every group that is given
  -- as a dictionary has a callback and, for an exit or a raise, a factory; else it raises a
  -- `KeyError`.
  pub error_handler_type_mappings-Reads :
      (exits : TypeMappingValue S (Option (BaseException → Call S ℤ)))
      (raises : TypeMappingValue S (Option (BaseException → Call S BaseException)))
      (continues : Option (TypeMappingDict S (BaseException → Call S T)))
      (retries : TypeMappingValue S Unit)
      → Reads
          (has_keys is_there exits
            && (has_keys is_there raises
                && (has_callback continues && has_keys (λ _. true) retries)))
          (error_handler_type_mappings exits raises continues retries)
  unfolding error_handler_type_mappings
  error_handler_type_mappings-Reads exits raises continues retries =
      read_group _ _ _ (resolve_exit_fatally exits) _ (exits-Reads T exits) (λ ds.
        read_group _ _ _ (resolve_raise_exception raises) _ (raises-Reads T raises) (λ es.
          read_group _ _ _ (resolve_continue_execution continues) _ (continues-Reads T continues)
            (λ fs. read_last _ _ (resolve_retry_execution retries) _ (retries-Reads T retries))))
