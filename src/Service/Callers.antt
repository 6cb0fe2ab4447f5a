-- ===== src/Service/Callers.antt =====
-- internal/app/contract/meta.go: who calls a service (`Principal`).
use cert_me.Prelude.{Bool, List, [], false, true, ◌||◌, ◌∷◌}
use cert_me.Errors.{Result, discard, ok, ◌>>◌}
use cert_me.Identity.{AuthEpoch, parse_auth_epoch}
use cert_me.Prelude.Int.{pos}
use cert_me.Prelude.Text.{Text}
use cert_me.Values.Ids.{check_id}

-- The `InternalOperation…` constants.
pub data InternalOperation : Type 0 where
  crl_publish delivery_expiry audit_prune tls_reconcile tls_bootstrap : InternalOperation
  secret_rotate restore_finalize transfer_recovery reset_begin : InternalOperation

abbrev pub operation_eq : InternalOperation → InternalOperation → Bool
operation_eq crl_publish crl_publish = true
operation_eq delivery_expiry delivery_expiry = true
operation_eq audit_prune audit_prune = true
operation_eq tls_reconcile tls_reconcile = true
operation_eq tls_bootstrap tls_bootstrap = true
operation_eq secret_rotate secret_rotate = true
operation_eq restore_finalize restore_finalize = true
operation_eq transfer_recovery transfer_recovery = true
operation_eq reset_begin reset_begin = true
operation_eq _ _ = false

-- `Principal`; its zero value is anonymous.
pub data Principal : Type 0 where
  anonymous : Principal
  admin : Text → Text → AuthEpoch → Principal
  internal : List InternalOperation → Principal

abbrev pub is_admin : Principal → Bool
is_admin (admin account session epoch) = true
is_admin anonymous = false
is_admin (internal operations) = false

abbrev pub is_internal : Principal → Bool
is_internal (internal operations) = true
is_internal anonymous = false
is_internal (admin account session epoch) = false

-- `Principal.AccountID`, `SessionID` and `AuthEpoch`
abbrev pub principal_account : Principal → Text
principal_account (admin account session epoch) = account
principal_account anonymous = []
principal_account (internal operations) = []

abbrev pub principal_session : Principal → Text
principal_session (admin account session epoch) = session
principal_session anonymous = []
principal_session (internal operations) = []

abbrev pub principal_epoch : Principal → AuthEpoch
principal_epoch (admin account session epoch) = epoch
principal_epoch anonymous = pos 0
principal_epoch (internal operations) = pos 0

unfoldable pub allows : InternalOperation → List InternalOperation → Bool
allows op [] = false
allows op (allowed ∷ ops) = operation_eq allowed op || allows op ops

-- `Principal.Can`
unfoldable pub can : Principal → InternalOperation → Bool
can (internal operations) op = allows op operations
can anonymous op = false
can (admin account session epoch) op = false

-- `NewAdminPrincipal`
unfoldable pub new_admin_principal : Text → Text → AuthEpoch → Result Principal
new_admin_principal account session epoch = do
  check_id account
  check_id session
  discard (parse_auth_epoch epoch)
  ok (admin account session epoch)
