-- ===== src/Prelude/Results.antt =====
-- The exceptions that the code raises or handles, and results that may be one.
use Prim.Native.String.{String}
use mathlib.Core.Path.{ap, refl, ◌≡◌}
use mathlib.Core.Option.{none, Option, some}
use mathlib.Core.Logic.{inl, inr, ◌⊎◌}
use mathlib.Core.Bool.{Bool, false, true}

-- The payload is what the message names. `other` is any exception of a library.
pub data Exc : Type 0 where
  rate_limit_error timeout_error not_implemented_error : Exc
  key_error runtime_error value_error other : String → Exc
  routing_config_error voice_tuning_config_error : Exc

pub data Result {ℓ} (A : Type ℓ) : Type ℓ where
  ok : A → Result A
  raise : Exc → Result A

-- `if bad: raise e`
abbrev pub raise_if : Bool → Exc → Result (Unit {0})
raise_if bad e = elim bad [ true ↦ raise e | false ↦ ok tt ]

-- Statements in sequence, and a statement that uses the value of the one before it: what follows a
-- `raise` does not run.
infixl 5 ◌>>◌ ◌>>=◌
abbrev pub ◌>>◌ {κ} : {B : Type κ} → Result (Unit {0}) → Result B → Result B
raise x >> rest = raise x
ok u >> rest = rest

abbrev pub ◌>>=◌ {ℓ κ} : {A : Type ℓ} {B : Type κ} → Result A → (A → Result B) → Result B
raise x >>= rest = raise x
ok v >>= rest = rest v

abbrev pub is_ok {ℓ} : {A : Type ℓ} → Result A → Bool
is_ok (ok a) = true
is_ok (raise e) = false

-- The value that a `try` leaves whose handler only logs.
abbrev pub caught {ℓ} : {A : Type ℓ} → Result A → Option A
caught (ok a) = some a
caught (raise e) = none

pub caught-some {ℓ} : {A : Type ℓ} (r : Result A) {a : A} → caught r ≡ some a → r ≡ ok a
caught-some (ok b) h = cc
caught-some (raise e) h = cc

pub Result-cases {ℓ} :
    {A : Type ℓ} (r : Result A) → ((a : A) × (r ≡ ok a)) ⊎ ((e : Exc) × (r ≡ raise e))
Result-cases (ok a) = inl (a, refl)
Result-cases (raise e) = inr (e, refl)

-- A sequence that succeeds has parts that succeed.
module _ {κ} {B : Type κ} where
  pub >>-eq-ok :
      (first : Result (Unit {0})) (rest : Result B) {out : B}
      → (first >> rest) ≡ ok out
      → (first ≡ ok tt) × (rest ≡ ok out)
  >>-eq-ok (raise x) rest done = cc
  >>-eq-ok (ok u) rest done = (refl, done)

  pub >>=-eq-ok {ℓ} :
      {A : Type ℓ} (first : Result A) (rest : A → Result B) {out : B}
      → (first >>= rest) ≡ ok out
      → (v : A) × (first ≡ ok v) × (rest v ≡ ok out)
  >>=-eq-ok (raise x) rest done = cc
  >>=-eq-ok (ok v) rest done = (v, refl, done)

pub ok-inj {ℓ} : {A : Type ℓ} {a b : A} → ok a ≡ ok b → a ≡ b
ok-inj {a = a} {b = b} h = ap (λ r. elim r [ ok x ↦ x | raise e ↦ a ]) h
