-- ===== src/Prelude/Errors.antt =====
-- Errors as values: the exceptions that the broker raises or lets through.
use Prim.Native.String.{String}
use mathlib.Core.Path.{◌≡◌, refl, ap}
use mathlib.Core.Bool.{Bool, true, false}
use mathlib.Core.Logic.{◌⊎◌, inl, inr}
use mathlib.Core.Option.{Option, none, some}
use mathlib.Core.List.{List}
use native.Mathlib.Omega.{arith}

-- What is wrong with the CNAME records of a domain (the messages of `CNAME._error_for_domain`).
pub data CnameError : Type 0 where
  missing : String → CnameError
  loop : String → List String → CnameError
  incorrect : String → String → CnameError

-- The texts of the client errors, without their wording.
pub data Message : Type 0 where
  plain : String → Message
  cnames : List CnameError → Message
  duplicate_domains : List String → Message
  value : String → Message

-- `bad_request`, `async_required` and `instance_does_not_exist` are openbrokerapi's errors,
-- `client_error` is broker/lib/client_error.py, the rest are Python's own exceptions, boto's and
-- the database's.
pub data Error : Type 0 where
  bad_request : Message → Error
  client_error : Message → Error
  async_required : Error
  instance_does_not_exist : Error
  not_implemented : Error
  runtime_error : Message → Error
  type_error : Error
  attribute_error : Error
  key_error : Error
  index_error : Error
  value_error : Error
  integrity_error : Error
  name_error : Error
  cancel_execution : Error
  service_error : String → Error
  -- boto's `ClientError`: the code and the message of the answer
  aws_error : String → String → Error
  -- no exception of the program: the bound on the rounds of a loop was too small
  out_of_fuel : Error

pub data Result {ℓ} (A : Type ℓ) : Type ℓ where
  ok : A → Result A
  err : Error → Result A

infixl 5 ◌>>=◌
abbrev pub ◌>>=◌ {ℓ κ} : {V : Type ℓ} {W : Type κ} → Result V → (next : V → Result W) → Result W
err e >>= next = err e
ok v >>= next = next v

-- A check that gives no value, and what comes after it.
infixl 5 ◌>>◌
abbrev pub ◌>>◌ {ℓ} : {W : Type ℓ} → (check : Result (Unit {0})) → Result W → Result W
check >> rest = check >>= λ _. rest

-- `if not test: raise e`
abbrev pub guard : Bool → Error → Result (Unit {0})
guard true e = ok tt
guard false e = err e

infix 1 if◌then◌else◌
abbrev pub if◌then◌else◌ {ℓ} : {A : Type ℓ} → Bool → A → A → A
if true then x else y = x
if false then x else y = y

pub Bool-cases : (b : Bool) → (b ≡ true) ⊎ (b ≡ false)
Bool-cases true = inl refl
Bool-cases false = inr refl

pub Option-cases {ℓ} : {A : Type ℓ} (o : Option A) → (o ≡ none) ⊎ ((a : A) × (o ≡ some a))
Option-cases none = inl refl
Option-cases (some a) = inr (a, refl)

pub Result-cases {ℓ} :
    {V : Type ℓ} (got : Result V)
    → ((v : V) × (got ≡ ok v)) ⊎ ((raised : Error) × (got ≡ err raised))
Result-cases (err raised) = inr (raised, refl)
Result-cases (ok v) = inl (v, refl)

-- An optional value that has to be there.
abbrev pub or_raise {ℓ} : {A : Type ℓ} → Error → Option A → Result A
or_raise e none = err e
or_raise e (some a) = ok a

-- What a step gave, if the steps after it returned.
pub bind_ok {ℓ κ} :
    {V : Type ℓ} {W : Type κ} (r : Result V) (next : V → Result W) (w : W)
    → (r >>= next) ≡ ok w
    → (v : V) × (r ≡ ok v) × (next v ≡ ok w)
bind_ok (ok v) next w h = (v, refl, h)
bind_ok (err e) next w h = absurd (ground arith)

pub ok_same {ℓ} : {A : Type ℓ} {x y : A} → ok x ≡ ok y → x ≡ y
ok_same {x = x} h = ap (λ r. elim r [ ok v ↦ v | err e ↦ x ]) h
