-- ===== src/Processing/ErrorHandling/Propagation.antt =====
-- The handlers of type mappings end an exception that is no `Exception` in an exception.
use event_store.Prelude.{
  String, ℤ, ◌≡◌, refl, Bool, true, false, Option, none, some, List, [], ◌∷◌, ◌==◌, string_eq,
  assign, inl, inr, Bool-cases,
}
use event_store.Processing.ErrorHandling.{
  BaseException, Call, on_return, Outcome, returned, raised, ErrorHandler, ErrorHandlerDecision,
  exit_fatally, raise_exception, continue_execution, retry_execution, ErrorHandlingDefinition,
  TypeMappings, is_exception, exit_handler, raise_handler, continue_handler, retry_handler,
}
use event_store.Processing.ErrorHandling.Mappings.{
  TypeMappingValue, TypeMappingDict, all_to, merge, mappings_of, item, error_handler_type_mappings,
  ◌>>=◌ as bind, resolve_exit_fatally, resolve_raise_exception, resolve_continue_execution,
  resolve_retry_execution,
}

-- A decision, or an exception of the handler, that ends in an exception.
unfoldable pub propagates : {T : Type 0} → Outcome (ErrorHandlerDecision T) → Bool
propagates (returned (exit_fatally exit_code)) = true
propagates (returned (raise_exception exception)) = true
propagates (returned (continue_execution value)) = false
propagates (returned retry_execution) = false
propagates (raised exception) = true

-- What is returned, if anything, has a property.
abbrev pub OnReturned : {A : Type 0} → (A → Type 0) → Outcome A → Type 0
OnReturned P (returned a) = P a
OnReturned P (raised e) = Unit

OnReturned-any : {A : Type 0} (x : Outcome A) → OnReturned (λ _. Unit) x
OnReturned-any (returned a) = tt
OnReturned-any (raised e) = tt

OnReturned-bind :
    {A B : Type 0} (P : B → Type 0) (Q : A → Type 0) (x : Outcome A) (rest : A → Outcome B)
    → OnReturned Q x
    → ((a : A) → Q a → OnReturned P (rest a))
    → OnReturned P (bind x rest)
OnReturned-bind P Q (returned a) rest hx h = h a hx
OnReturned-bind P Q (raised e) rest hx h = tt

module _ {S T : Type 0} where
  -- A handler that ends every exception that is no `Exception` in an exception.
  abbrev pub Propagates : ErrorHandler S T → Type 0
  Propagates handler =
      (e : BaseException) (s : S) → is_exception e ≡ false → propagates (handler e s).0 ≡ true

  on_return-propagates :
      {A : Type 0} (f : A → ErrorHandlerDecision T)
      → ((a : A) → propagates (returned (f a)) ≡ true)
      → (x : Outcome A × S) → propagates (on_return x (λ a s'. (returned (f a), s'))).0 ≡ true
  unfolding propagates
  on_return-propagates f h (returned a, s) = h a
  on_return-propagates f h (raised e, s) = refl

module _ {S : Type 0} (T : Type 0) where
  exit_handler-Propagates : (f : BaseException → Call S ℤ) → Propagates {T = T} (exit_handler f)
  unfolding exit_handler propagates
  exit_handler-Propagates f e s h = on_return-propagates exit_fatally (λ code. refl) (f e s)

  pub raise_handler-Propagates :
      (f : Option (BaseException → Call S BaseException)) → Propagates {T = T} (raise_handler f)
  unfolding raise_handler propagates
  raise_handler-Propagates none e s h = refl
  raise_handler-Propagates (some f) e s h =
      on_return-propagates raise_exception (λ e'. refl) (f e s)

  continue_handler-Propagates : (f : BaseException → Call S T) → Propagates (continue_handler f)
  unfolding continue_handler propagates
  continue_handler-Propagates f e s h = rw h refl

  retry_handler-Propagates : Propagates {S = S} {T = T} retry_handler
  unfolding retry_handler propagates
  retry_handler-Propagates e s h = rw h refl

module _ {S T : Type 0} where
  abbrev pub AllPropagate : TypeMappings S T → Type 0
  AllPropagate [] = Unit
  AllPropagate (entry ∷ d) = Propagates (entry.1).handler × AllPropagate d

  assign-AllPropagate :
      (cls : String) (x : ErrorHandlingDefinition S T) (d : TypeMappings S T)
      → Propagates x.handler
      → AllPropagate d
      → AllPropagate (assign cls x d)
  assign-AllPropagate cls x [] hx hd = (hx, tt)
  assign-AllPropagate cls x ((k, y) ∷ d) hx hd = elim (Bool-cases (k == cls)) [
    | inl e ↦ rw e (hx, hd.1)
    | inr e ↦ rw e (hd.0, assign-AllPropagate cls x d hx hd.1)
  ]

  all_to-AllPropagate :
      (x : ErrorHandlingDefinition S T) (types : List String) (d : TypeMappings S T)
      → Propagates x.handler
      → AllPropagate d
      → AllPropagate (all_to x types d)
  unfolding all_to
  all_to-AllPropagate x [] d hx hd = hd
  all_to-AllPropagate x (cls ∷ types) d hx hd =
      all_to-AllPropagate x types (assign cls x d) hx (assign-AllPropagate cls x d hx hd)

  merge-AllPropagate :
      (xs ys : TypeMappings S T) → AllPropagate xs → AllPropagate ys → AllPropagate (merge xs ys)
  unfolding merge
  merge-AllPropagate xs [] hx hy = hx
  merge-AllPropagate xs ((cls, y) ∷ ys) hx hy =
      merge-AllPropagate (assign cls y xs) ys (assign-AllPropagate cls y xs hy.0 hx) hy.1

  mappings_of-AllPropagate :
      {B : Type 0} (handler : B → ErrorHandler S T) (o : Option (TypeMappingDict S B))
      → ((b : B) → Propagates (handler b))
      → OnReturned AllPropagate (mappings_of handler o)
  unfolding mappings_of item
  mappings_of-AllPropagate handler none h = tt
  mappings_of-AllPropagate handler (some d) h =
      OnReturned-bind _ (λ _. Unit) (item "callback" d.callback) _ (OnReturned-any _)
        (λ callback _. all_to-AllPropagate _ d.types [] (h d.factory) tt)

  group :
      {B C : Type 0} (P : C → Type 0) (handler : B → ErrorHandler S T)
      (rest : TypeMappings S T → Outcome C) (resolved : Outcome (Option (TypeMappingDict S B)))
      → ((b : B) → Propagates (handler b))
      → ((d : TypeMappings S T) → AllPropagate d → OnReturned P (rest d))
      → OnReturned P (bind resolved (λ o. bind (mappings_of handler o) rest))
  group P handler rest resolved h next =
      OnReturned-bind _ (λ _. Unit) resolved _ (OnReturned-any resolved)
        (λ o _.
          OnReturned-bind _ AllPropagate (mappings_of handler o) rest
            (mappings_of-AllPropagate handler o h) next)

  pub error_handler_type_mappings-AllPropagate :
      (exits : TypeMappingValue S (Option (BaseException → Call S ℤ)))
      (raises : TypeMappingValue S (Option (BaseException → Call S BaseException)))
      (continues : Option (TypeMappingDict S (BaseException → Call S T)))
      (retries : TypeMappingValue S Unit)
      → OnReturned AllPropagate (error_handler_type_mappings exits raises continues retries)
  unfolding error_handler_type_mappings
  error_handler_type_mappings-AllPropagate exits raises continues retries =
      group _ _ _ (resolve_exit_fatally exits) (exit_handler-Propagates T) (λ ds hds.
        group _ _ _ (resolve_raise_exception raises) (λ f. raise_handler-Propagates T (some f))
          (λ es hes.
            group _ _ _ (resolve_continue_execution continues) (continue_handler-Propagates T)
              (λ fs hfs.
                group _ _ _ (resolve_retry_execution retries) (λ _. retry_handler-Propagates T)
                  (λ gs hgs.
                    merge-AllPropagate _ gs
                      (merge-AllPropagate _ fs (merge-AllPropagate ds es hds hes) hfs) hgs))))
