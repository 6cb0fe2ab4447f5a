-- ===== src/App.antt =====
-- internal/app/contract/errors.go, internal/app/port/errors.go and `storeError` of
-- internal/app/service/revocations.go: the errors of the services.
pub mod Throttle
pub mod Retry
use text.Mathlib.Text.{◌==◌ as str_eq}
use cert_me.Prelude.{Bool, Option, String, [], false, if◌then◌else◌, none, some, true, ◌||◌}
use cert_me.Errors.{
  Failure, Fields, already_consumed, conflict, expired, invalid_transition, invalid_value,
  not_permitted, policy, policy_violation, set_field, unwrap, wrapped,
}
use cert_me.Prelude.Text.{Text}

-- The sentinels of the stores.
pub data StoreSentinel : Type 0 where
  not_found version_conflict duplicate commit_unknown : StoreSentinel

pub data ErrorKind : Type 0 where
  validation_kind auth_kind forbidden_kind conflict_kind unavailable_kind commit_unknown_kind :
      ErrorKind
  unlisted : Text → ErrorKind

-- An error with the errors that it wraps: a store's sentinel, an error of the domain, an `AppError`
-- with its cause, or one that no service knows. `no_fault` is `nil`. Detail texts are left out.
pub data Fault : Type 0 where
  store_fault : StoreSentinel → Fault
  domain_fault : Failure → Fault
  app_fault : ErrorKind → String → Fields → Fault → Fault
  other_fault no_fault : Fault

-- `NewAppError`
unfoldable pub new_app_error : ErrorKind → String → Fault
new_app_error kind code = app_fault kind code [] no_fault

-- `WrapAppError`
unfoldable pub wrap_app_error : ErrorKind → String → Fault → Fault
wrap_app_error kind code cause = app_fault kind code [] cause

-- `AppError.WithField`
unfoldable pub with_public_field : String → Text → Fault → Fault
with_public_field name value (app_fault kind code fields cause) =
    app_fault kind code (set_field name value fields) cause
with_public_field name value (store_fault x) = store_fault x
with_public_field name value (domain_fault x) = domain_fault x
with_public_field name value other_fault = other_fault
with_public_field name value no_fault = no_fault

abbrev pub sentinel_eq : StoreSentinel → StoreSentinel → Bool
sentinel_eq not_found not_found = true
sentinel_eq version_conflict version_conflict = true
sentinel_eq duplicate duplicate = true
sentinel_eq commit_unknown commit_unknown = true
sentinel_eq _ _ = false

-- `errors.Is(err, sentinel)`, through every cause.
unfoldable pub is_store_fault : StoreSentinel → Fault → Bool
is_store_fault sentinel (store_fault x) = sentinel_eq x sentinel
is_store_fault sentinel (app_fault kind code fields cause) = is_store_fault sentinel cause
is_store_fault sentinel (domain_fault x) = false
is_store_fault sentinel other_fault = false
is_store_fault sentinel no_fault = false

-- `ClassifyStoreError`
unfoldable pub classify_store_error : Fault → Option ErrorKind
classify_store_error e =
    if is_store_fault version_conflict e || is_store_fault duplicate e
    then some conflict_kind
    else if is_store_fault commit_unknown e
    then some commit_unknown_kind
    else none

-- `storeError`
unfoldable pub store_error : Fault → String → Fault
unfolding wrap_app_error
store_error e code = elim (classify_store_error e) [
  | some kind ↦ wrap_app_error kind code e
  | none ↦ wrap_app_error unavailable_kind code e
]

-- The `switch` on the sentinel in `FromDomainError`.
unfoldable pub kind_of_failure : Failure → ErrorKind
kind_of_failure e = elim (unwrap e) [
  | conflict ↦ conflict_kind
  | not_permitted ↦ forbidden_kind
  | invalid_value ↦ validation_kind
  | policy_violation ↦ validation_kind
  | invalid_transition ↦ validation_kind
  | expired ↦ validation_kind
  | already_consumed ↦ validation_kind
]

-- The code and the public fields that a `PolicyError` carries through.
unfoldable pub code_of_failure : Failure → String
code_of_failure (wrapped base) = "invalid_request"
code_of_failure (policy base code fields) = if str_eq code "" then "invalid_request" else code

unfoldable pub fields_of_failure : Failure → Fields
fields_of_failure (wrapped base) = []
fields_of_failure (policy base code fields) = fields

-- `FromDomainError`
unfoldable pub from_domain_error : Fault → Fault
from_domain_error no_fault = no_fault
from_domain_error (app_fault kind code fields cause) = app_fault kind code fields cause
from_domain_error (domain_fault e) =
    app_fault (kind_of_failure e) (code_of_failure e) (fields_of_failure e) (domain_fault e)
from_domain_error (store_fault x) = app_fault validation_kind "invalid_request" [] (store_fault x)
from_domain_error other_fault = app_fault validation_kind "invalid_request" [] other_fault

-- `AppError.IsRetryable`
unfoldable pub is_retryable : Fault → Bool
is_retryable (app_fault unavailable_kind code fields cause) = true
is_retryable _ = false
