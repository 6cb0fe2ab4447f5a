-- ===== src/Service.antt =====
-- internal/app/contract/meta.go and internal/app/port/services.go: what a request comes with, and the
-- port that authorizes it; who calls is in `Callers`. `required` and
-- `firstMissing` are left out, since a model has every dependency. A service that reads the clock, takes
-- an id or calls the password hasher takes what these gave as an argument.
pub mod Callers
pub mod Auth
pub mod Requests
pub mod Setup
pub mod Identity
pub mod Revoking
pub mod Crl
pub mod Recovery
pub mod Chain
pub mod Distribution
use cert_me.Prelude.{List, Option, String, [], none, some}
use cert_me.App.{Fault, conflict_kind, new_app_error, other_fault, unavailable_kind, wrap_app_error}
use cert_me.Prelude.Text.{Text}
use cert_me.Service.Callers.{Principal}
use cert_me.Store.{Reply, Tx, gave, or_store_error, refused}
use cert_me.Store.Accounts.{AuditActorKind, AuditRepository, installation_scope, success}
use cert_me.Values.Ids.{Version}
use cert_me.Values.Instant.{Instant}

-- `RequestMeta` and `MutationMeta`: the client's address is its text, empty if it is not valid.
pub record RequestMeta : Type 0 where
  pub principal : Principal
  pub client_ip : Text

pub record MutationMeta : Type 0 where
  pub request_meta : RequestMeta
  pub expected_version : Option Version
  pub idempotency_key : Text

-- `RequireExpectedVersion`
unfoldable pub require_expected_version : MutationMeta → Reply Version
require_expected_version meta = elim meta.expected_version [
  | some version ↦ gave version
  | none ↦ refused (new_app_error conflict_kind "version_required")
]

-- `ctx.Err()` before the work: the request may have been canceled.
unfoldable pub request_canceled : Fault
request_canceled = wrap_app_error unavailable_kind "request_canceled" other_fault

-- `Authorizer.Authorize`, a port: its answer to an action on a scope of authorities.
abbrev pub Authorizer : Type 0
Authorizer = Principal → String → List Text → Option Fault

unfoldable pub authorize :
    {S : Type 0} → Authorizer → Principal → String → List Text → Tx S (Unit {0})
authorize authorizer who action scope s = elim (authorizer who action scope) [
  | none ↦ gave (tt, s)
  | some e ↦ refused e
]

-- `appendAccountAudit` of internal/app/service/identity.go
unfoldable pub append_account_audit :
    {S : Type 0}
    → AuditRepository S
    → Text
    → Instant
    → Text
    → AuditActorKind
    → Text
    → String
    → String
    → Text
    → Tx S (Unit {0})
append_account_audit audit id now client_ip actor_kind actor_id action target_type target_id =
    or_store_error
      (audit.append_event
        (record {
          id = id;
          occurred_at = now;
          actor_kind = actor_kind;
          actor_id = actor_id;
          token_id = [];
          action = action;
          target_type = target_type;
          target_id = target_id;
          client_ip = client_ip;
          result = success;
          details = [];
        })
        installation_scope)
      "identity_audit_failed"
