-- ===== src/Errors.antt =====
-- internal/domain/errors.go: the sentinel errors, `PolicyError`, and results that carry them.
use text.Mathlib.Text.{◌==◌ as str_eq}
use cert_me.Prelude.{
  Bool, List, Option, String, [], false, if◌then◌else◌, inl, inr, none, refl, some, true, ◌∷◌, ◌≡◌,
  ◌⊎◌,
}
use cert_me.Prelude.Text.{Text}

-- The `Err…` variables.
pub data Sentinel : Type 0 where
  invalid_value policy_violation invalid_transition expired already_consumed conflict
        not_permitted :
      Sentinel

-- The public detail fields of a `PolicyError`: a map from names to values.
abbrev pub Fields : Type 0
Fields = List (String × Text)

-- `fmt.Errorf("%w: …", base)`, or a `PolicyError`. The human readable texts are left out.
pub data Failure : Type 0 where
  wrapped : Sentinel → Failure
  policy : Sentinel → String → Fields → Failure

-- `NewPolicyError`
abbrev pub policy_error : Sentinel → String → Failure
policy_error base code = policy base code []

-- `e.fields[name] = value`
abbrev pub set_field : String → Text → Fields → Fields
set_field name value [] = (name, value) ∷ []
set_field name value ((n, v) ∷ fields) =
    if str_eq n name then (name, value) ∷ fields else (n, v) ∷ set_field name value fields

-- `WithField`, a method of `PolicyError` alone.
abbrev pub with_field : String → Text → Failure → Failure
with_field name value (wrapped base) = wrapped base
with_field name value (policy base code fields) = policy base code (set_field name value fields)

-- `Unwrap`, which is what `errors.Is` compares.
abbrev pub unwrap : Failure → Sentinel
unwrap (wrapped base) = base
unwrap (policy base _ _) = base

-- A Go result `(A, error)`: with an error the value is the zero value, and is left out.
pub data Result {ℓ} (A : Type ℓ) : Type ℓ where
  err : Failure → Result A
  ok : A → Result A

abbrev pub Check : Type 0
Check = Result (Unit {0})

-- `x, err := m; if err != nil { return err }`, and the same without `x`.
infixl 5 ◌>>=◌ ◌>>◌
abbrev pub ◌>>=◌ {κ ℓ} :
    {value : Type κ} {result : Type ℓ} → Result value → (value → Result result) → Result result
err failure >>= body = err failure
ok x >>= body = body x

abbrev pub ◌>>◌ {ℓ} : {result : Type ℓ} → Check → Result result → Result result
check >> body = check >>= λ _. body

-- `if test { return err }`
abbrev pub reject_if : Bool → Failure → Check
reject_if true e = err e
reject_if false e = ok tt

-- `if _, err := …; err != nil { return err }`
abbrev pub discard {ℓ} : {A : Type ℓ} → Result A → Check
discard (ok _) = ok tt
discard (err e) = err e

abbrev pub is_ok {ℓ} : {A : Type ℓ} → Result A → Bool
is_ok (ok _) = true
is_ok (err _) = false

-- The sentinel of the error that a call returned.
abbrev pub unwrap_error {ℓ} : {A : Type ℓ} → Result A → Option Sentinel
unwrap_error (ok _) = none
unwrap_error (err e) = some (unwrap e)

pub Result-cases {ℓ} :
    {A : Type ℓ} (m : Result A) → ((a : A) × (m ≡ ok a)) ⊎ ((e : Failure) × (m ≡ err e))
Result-cases (ok a) = inl (a, refl)
Result-cases (err e) = inr (e, refl)
