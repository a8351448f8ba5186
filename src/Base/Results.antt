-- ===== src/Base/Results.antt =====
-- Code that throws. A function that changes nothing returns a `Result`; a method that may throw
-- after it has changed its object is a `Proc`, which keeps the object also where it throws.
use mathlib.Core.Path.{◌≡◌, refl}
use mathlib.Core.Bool.{Bool, true, false}
use multiagent_fipa_acl.Base.Tests.{if◌then◌else◌}
use mathlib.Core.Logic.{◌⊎◌, inl, inr}

-- What is thrown: a `std::runtime_error`, another `std::exception`, or a failed `assert`, which
-- no handler catches.
pub data Error : Type 0 where
  runtime_error : Error
  protocol_exception : Error
  invalid_operation : Error
  logic_error : Error
  bad_get : Error
  aborted : Error

-- The classes that `catch(const std::runtime_error&)` and `catch(const std::exception&)` take.
-- `ProtocolException` and `InvalidOperation` derive from `std::runtime_error`.
abbrev pub is_runtime_error : Error → Bool
is_runtime_error runtime_error = true
is_runtime_error protocol_exception = true
is_runtime_error invalid_operation = true
is_runtime_error _ = false

abbrev pub is_exception : Error → Bool
is_exception aborted = false
is_exception _ = true

pub data Result {ℓ} (A : Type ℓ) : Type ℓ where
  ok : A → Result A
  err : Error → Result A

-- The object after the call, and what the call returned or threw.
abbrev pub Outcome : Type 0 → Type 0 → Type 0
Outcome S A = S × Result A

-- A step of a method that only reads: if it throws, the object stays as it is.
abbrev pub attempt {ℓ} :
    {A : Type ℓ} {S B : Type 0} → Result A → S → (A → Outcome S B) → Outcome S B
attempt (ok a) s next = next a
attempt (err e) s next = (s, err e)

-- A step that changes the object; the next one runs if it does not throw.
abbrev pub follow : {S A B : Type 0} → Outcome S A → (S → A → Outcome S B) → Outcome S B
follow (s, ok a) next = next s a
follow (s, err e) next = (s, err e)

-- `try ... catch`: the handler runs on the object as the failed block left it.
abbrev pub catch : {S A : Type 0} → (Error → Bool) → Outcome S A → (S → Outcome S A) → Outcome S A
catch takes (s, ok a) handler = (s, ok a)
catch takes (s, err e) handler = if takes e then handler s else (s, err e)

-- A change of the one member that a step works on.
abbrev pub within : {S T A : Type 0} → (S → T) → Outcome S A → Outcome T A
within place (s, r) = (place s, r)

pub ok_injective {ℓ} : {A : Type ℓ} {a b : A} → ok a ≡ ok b → a ≡ b
ok_injective h = cc

pub Result-cases {ℓ} :
    {A : Type ℓ} (r : Result A) → ((a : A) × (r ≡ ok a)) ⊎ ((e : Error) × (r ≡ err e))
Result-cases (ok a) = inl (a, refl)
Result-cases (err e) = inr (e, refl)

-- Do blocks: the first error ends the run.
infixl 5 ◌>>=◌
abbrev pub ◌>>=◌ {ℓ κ} : {A : Type ℓ} {B : Type κ} (r : Result A) (next : A → Result B) → Result B
err x >>= next = err x
ok a >>= next = next a

-- What ran before a result that was returned.
pub >>=-returned {ℓ κ} :
    {A : Type ℓ} {B : Type κ} {b : B} (r : Result A) (next : A → Result B)
    → (r >>= next) ≡ ok b
    → (a : A) × (next a ≡ ok b) × (r ≡ ok a)
>>=-returned (err x) next h = cc
>>=-returned (ok a) next h = (a, h, refl)
