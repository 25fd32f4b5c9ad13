-- ===== src/Prelude/Results.antt =====
-- What a call gives back: a value, or the exception that it raises.
use Prim.Native.String.{String}
use mathlib.Core.Path.{◌≡◌, refl}
use mathlib.Core.Logic.{◌⊎◌, inl, inr}
use mathlib.Core.Bool.{Bool, true, false}

-- `UnmetWriteConditionError` of store/exceptions.py with its message, the built-in exceptions that the
-- modelled code raises itself, and that of projection/projector.py: an event's name and a class's.
pub data Error : Type 0 where
  unmet_write_condition : String → Error
  value_error : String → Error
  index_error : Error
  runtime_error : String → Error
  missing_projection_handler_error : String → String → Error

pub data Result {κ} (A : Type κ) : Type κ where
  ok : A → Result A
  err : Error → Result A

abbrev pub is_ok {ℓ} : {A : Type ℓ} → Result A → Bool
is_ok (ok a) = true
is_ok (err e) = false

infixl 5 ◌>>=◌
-- The rest of a body, after a call that may raise.
abbrev pub ◌>>=◌ {ℓ κ} : {A : Type ℓ} {B : Type κ} → Result A → (A → Result B) → Result B
ok value >>= rest = rest value
err raised >>= rest = err raised

infixl 5 ◌>>◌
abbrev pub ◌>>◌ {ℓ κ} : {A : Type ℓ} {B : Type κ} → Result A → Result B → Result B
first >> second = first >>= λ _. second

pub Result-cases {ℓ} :
    {A : Type ℓ} (r : Result A) → ((a : A) × (r ≡ ok a)) ⊎ ((e : Error) × (r ≡ err e))
Result-cases (ok a) = inl (a, refl)
Result-cases (err e) = inr (e, refl)

pub ok-injective {ℓ} : {A : Type ℓ} {a b : A} → ok a ≡ ok b → a ≡ b
ok-injective {a = a} p = cc

-- Inversion of a successful bind.
pub >>=-eq-ok {ℓ κ} :
    {A : Type ℓ} {B : Type κ} (call : Result A) (rest : A → Result B) {answer : B}
    → (call >>= rest) ≡ ok answer
    → (value : A) × (call ≡ ok value) × (rest value ≡ ok answer)
>>=-eq-ok (ok value) rest same = (value, refl, same)
>>=-eq-ok (err raised) rest same = cc
