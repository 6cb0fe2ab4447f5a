-- ===== src/Service/Setup.antt =====
-- internal/app/service/setup.go: the progress of an installation. What the hasher, the clock and the
-- generator of ids gave is an argument.
pub mod FirstAdmin
use cert_me.Prelude.{Bool, [], false, if◌then◌else◌, not, true, ◌||◌}
use cert_me.App.{
  conflict_kind, domain_fault, duplicate, forbidden_kind, from_domain_error, is_store_fault,
  new_app_error, store_error, unavailable_kind,
}
use cert_me.Errors.{err, ok}
use cert_me.Identity.{Account, PasswordHash}
use cert_me.Prelude.Int.{eq_ℤ}
use cert_me.Prelude.Text.{Text, bytes, is_empty}
use cert_me.Service.{
  Authorizer, MutationMeta, append_account_audit, authorize, request_canceled,
  require_expected_version,
}
use cert_me.Service.Auth.{require_current_auth}
use cert_me.Service.Callers.{Principal, is_admin, principal_account}
use cert_me.Service.Identity.{first_account}
use cert_me.Store.{
  Reply, Tx, gave, give, or_absent, or_store_error, read, refuse_if, refused, write, ◌>>=◌, ◌>>◌,
}
use cert_me.Store.Accounts.{
  AccountRepository, AuditRepository, Installation, InstallationRepository, SetupStage,
  account_required, by_account, pki_required, setup_complete,
}
use cert_me.Values.Ids.{Version, next}
use cert_me.Values.Instant.{Instant}

-- `ctx.Err()` and the calls of ports that a run of `CreateAdmin` makes.
pub record SetupCalls : Type 0 where
  pub canceled : Bool
  pub hashed : Reply PasswordHash
  pub account_uuid : Text
  pub audit_uuid : Text
  pub now : Instant

-- `SetupView`
pub record SetupView : Type 0 where
  pub setup_stage : SetupStage
  pub bootstrap_https : Bool

unfoldable pub to_setup_view : Installation → SetupView
to_setup_view inst = record {
  setup_stage = inst.setup_stage;
  bootstrap_https = is_empty inst.active_tls_version_id;
}

abbrev pub is_account_required : SetupStage → Bool
is_account_required account_required = true
is_account_required _ = false

abbrev pub is_pki_required : SetupStage → Bool
is_pki_required pki_required = true
is_pki_required _ = false

abbrev pub is_setup_complete : SetupStage → Bool
is_setup_complete setup_complete = true
is_setup_complete _ = false

module _ {S : Type 0} (accounts : AccountRepository S) (installations : InstallationRepository S)
    (audit : AuditRepository S) where
  -- `loadInstallation`
  unfoldable pub load_installation : Tx S Installation
  load_installation =
      or_absent installations.get_installation
        (new_app_error unavailable_kind "installation_not_initialized") "installation_read_failed"

  -- `Status`
  unfoldable pub status : S → Reply SetupView
  status = read (do inst ← load_installation; give (to_setup_view inst))

  -- The error that `CreateAdmin` makes of one of `InsertAccount`.
  unfoldable pub insert_first_account : Account → Tx S (Unit {0})
  insert_first_account account s = elim (accounts.insert_account account s) [
    | gave r ↦ gave r
    | refused e ↦ refused (
        if is_store_fault duplicate e
        then new_app_error conflict_kind "setup_login_name_taken"
        else store_error e "setup_account_store_failed")
  ]

  -- `CreateAdmin`: the transaction.
  unfoldable pub create_admin_tx : Account → Text → SetupCalls → Tx S Account
  create_admin_tx account client_ip calls = do
    inst ← load_installation
    refuse_if (not (is_account_required inst.setup_stage) || not (is_empty inst.first_admin_id))
        (new_app_error conflict_kind "setup_already_has_admin")
    insert_first_account account
    or_store_error
        (installations.save_installation
          (record inst {
            first_admin_id = account.id;
            setup_stage = pki_required;
            version = next inst.version;
          })
          inst.version)
        "setup_installation_save_failed"
    append_account_audit audit calls.audit_uuid calls.now client_ip by_account account.id
        "setup.create_admin" "account" account.id
    give account

  -- `CreateAdmin` with a command that `Validate` accepts.
  unfoldable pub create_admin : Text → Text → SetupCalls → S → Reply Account × S
  create_admin login_name client_ip calls s =
      if calls.canceled then (refused request_canceled, s) else elim calls.hashed [
        | refused e ↦ (refused (store_error e "setup_password_hash_failed"), s)
        | gave hash ↦ elim (first_account calls.account_uuid login_name hash) [
          | err e ↦ (refused (from_domain_error (domain_fault e)), s)
          | ok account ↦ write (create_admin_tx account client_ip calls) s
        ]
      ]

  -- The rest of the transaction of `Complete` for an installation that was read.
  unfoldable pub complete_pki_stage :
      Principal → Version → Text → SetupCalls → Installation → Tx S SetupView
  complete_pki_stage principal expected client_ip calls inst = do
    refuse_if (not (is_pki_required inst.setup_stage))
        (new_app_error conflict_kind "setup_not_ready_to_complete")
    settings ←
        or_absent installations.get_settings
          (new_app_error conflict_kind "setup_settings_not_configured") "setup_settings_read_failed"
    refuse_if (not (eq_ℤ settings.version expected))
        (new_app_error conflict_kind "setup_settings_version_mismatch")
    or_store_error
        (installations.save_installation
          (record inst { setup_stage = setup_complete; version = next inst.version }) inst.version)
        "setup_installation_save_failed"
    append_account_audit audit calls.audit_uuid calls.now client_ip by_account
        (principal_account principal) "setup.complete" "installation" (bytes "installation")
    give (to_setup_view (record inst { setup_stage = setup_complete; version = next inst.version }))

  -- Completing an installation that is complete reports it as it is.
  unfoldable pub complete_stage :
      Principal → Version → Text → SetupCalls → Installation → Tx S SetupView
  complete_stage principal expected client_ip calls inst =
      if is_setup_complete inst.setup_stage
      then give (to_setup_view inst)
      else complete_pki_stage principal expected client_ip calls inst

  -- `Complete`: the transaction; `auth_now` is the time of the check of the session.
  unfoldable pub complete_tx :
      Authorizer → Principal → Version → Text → Instant → SetupCalls → Tx S SetupView
  complete_tx authorizer principal expected client_ip auth_now calls = do
    require_current_auth accounts principal auth_now
    authorize authorizer principal "Setup.Complete" []
    inst ← load_installation
    complete_stage principal expected client_ip calls inst

  unfoldable pub complete :
      Authorizer → MutationMeta → Instant → SetupCalls → S → Reply SetupView × S
  complete authorizer meta auth_now calls s =
      let principal = meta.request_meta.principal in
      if not (is_admin principal)
      then (refused (new_app_error forbidden_kind "setup_complete_requires_admin"), s)
      else elim (require_expected_version meta) [
        | refused e ↦ (refused e, s)
        | gave expected ↦
            if calls.canceled
            then (refused request_canceled, s)
            else write
                (complete_tx authorizer principal expected meta.request_meta.client_ip auth_now
                  calls)
                s
      ]
