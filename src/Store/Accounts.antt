-- ===== src/Store/Accounts.antt =====
-- internal/app/port/accounts.go, audit.go, installation.go and requests.go: the repositories of
-- accounts, of the audit trail, of the installation and of stored results. The counters of failed
-- logins have an interface of their own, `RateLimits`.
use cert_me.Prelude.{Bool, List, String, [], false, if◌then◌else◌, true, ◌||◌, ◌∷◌}
use cert_me.Errors.{Fields}
use cert_me.Identity.{Account}
use cert_me.Identity.ResetToken.{AdminResetToken}
use cert_me.Identity.Session.{SessionState}
use cert_me.Prelude.Int.{ℤ}
use cert_me.Prelude.Text.{Text, is_empty, text_eq}
use cert_me.Store.{Tx}
use cert_me.Values.Hex.{TokenHash}
use cert_me.Values.Ids.{Version}
use cert_me.Values.Instant.{Instant}

-- `AccountRepository` without its counters.
pub record AccountRepository (S : Type 0) : Type 0 where
  pub get_account_for_update : Text → Tx S Account
  pub find_account_by_login_name : Text → Tx S Account
  pub find_session_by_hash : TokenHash → Tx S SessionState
  pub get_session_for_update : Text → Tx S SessionState
  pub insert_account : Account → Tx S (Unit {0})
  pub save_account : Account → Version → Tx S (Unit {0})
  pub insert_session : SessionState → Tx S (Unit {0})
  pub save_session : SessionState → Tx S (Unit {0})
  pub delete_session : Text → Tx S (Unit {0})
  pub delete_all_sessions : Text → Tx S (Unit {0})
  pub get_reset_token : TokenHash → Tx S AdminResetToken
  pub insert_reset_token : AdminResetToken → Tx S (Unit {0})
  pub save_reset_token : AdminResetToken → Tx S (Unit {0})
  pub invalidate_reset_tokens : Text → Instant → Tx S (Unit {0})

-- The `AuditActor…` and `AuditResult…` constants.
pub data AuditActorKind : Type 0 where
  by_account by_download_token by_cli by_system by_anonymous : AuditActorKind

pub data AuditResult : Type 0 where
  success failure : AuditResult

pub record AuditEvent : Type 0 where
  pub id : Text
  pub occurred_at : Instant
  pub actor_kind : AuditActorKind
  pub actor_id : Text
  pub token_id : Text
  pub action : String
  pub target_type : String
  pub target_id : Text
  pub client_ip : Text
  pub result : AuditResult
  pub details : Fields

-- `AuditScope`; the zero value is the kind that `Validate` refuses.
pub data AuditScope : Type 0 where
  installation_scope : AuditScope
  authorities_scope : List Text → AuditScope

-- `seen[id]`
unfoldable pub contains_text : Text → List Text → Bool
contains_text a [] = false
contains_text a (b ∷ bs) = text_eq b a || contains_text a bs

-- The loop of `NewAuthoritiesAuditScope` behind the ids that it has seen.
unfoldable pub unique_ids : List Text → List Text → List Text
unique_ids seen [] = []
unique_ids seen (a ∷ ids) =
    let kept = a ∷ unique_ids (a ∷ seen) ids in
    let rest = unique_ids seen ids in if contains_text a seen then rest else kept

-- `NewAuthoritiesAuditScope`
unfoldable pub new_authorities_audit_scope : List Text → AuditScope
unfolding unique_ids
new_authorities_audit_scope ids = authorities_scope (unique_ids [] ids)

-- The loop of `AuditScope.Validate`.
unfoldable pub distinct_ids : List Text → List Text → Bool
distinct_ids seen [] = true
distinct_ids seen (a ∷ ids) =
    let rest = distinct_ids (a ∷ seen) ids in
    if is_empty a then false else if contains_text a seen then false else rest

-- `AuditScope.Validate` returns no error.
unfoldable pub scope_is_valid : AuditScope → Bool
scope_is_valid installation_scope = true
scope_is_valid (authorities_scope []) = false
scope_is_valid (authorities_scope (a ∷ ids)) = distinct_ids [] (a ∷ ids)

pub record AuditRepository (S : Type 0) : Type 0 where
  pub append_event : AuditEvent → AuditScope → Tx S (Unit {0})

pub data SetupStage : Type 0 where
  account_required pki_required setup_complete : SetupStage
  unlisted : Text → SetupStage

pub record Installation : Type 0 where
  pub setup_stage : SetupStage
  pub first_admin_id : Text
  pub active_encryption_generation_id : Text
  pub active_tls_version_id : Text
  pub service_mode : Text
  pub version : Version

-- `Settings`: the JSON payload is opaque to the repository.
pub record Settings : Type 0 where
  pub schema_version : ℤ
  pub settings_json : Text
  pub version : Version
  pub updated_by : Text

pub record InstallationRepository (S : Type 0) : Type 0 where
  pub get_installation : Tx S Installation
  pub save_installation : Installation → Version → Tx S (Unit {0})
  pub get_settings : Tx S Settings
  pub save_settings : Settings → Version → Tx S (Unit {0})

pub record OperationRequestKey : Type 0 where
  pub actor_key : Text
  pub operation : Text
  pub request_id : Text

pub record OperationRequestResult : Type 0 where
  pub input_hash : Text
  pub result_json : Text

pub record RequestRepository (S : Type 0) : Type 0 where
  pub find_result : OperationRequestKey → Tx S OperationRequestResult
  pub insert_result : OperationRequestKey → Text → Text → Tx S (Unit {0})
