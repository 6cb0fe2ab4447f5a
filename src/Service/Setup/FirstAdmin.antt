-- ===== src/Service/Setup/FirstAdmin.antt =====
-- internal/app/service/setup.go over the store in memory: the first administrator is created once.
use cert_me.Prelude.{
  Bool-cases, Option-cases, [], ap, arith, false, inl, inr, refl, some, sym, ◌∙◌, ◌≡◌,
}
use cert_me.App.{conflict_kind, new_app_error}
use cert_me.Identity.{Account}
use cert_me.Prelude.Star.{Star, Star-keeps}
use cert_me.Prelude.Text.{Text}
use cert_me.Service.{Authorizer, append_account_audit, authorize}
use cert_me.Service.Auth.{require_current_auth, require_live_session}
use cert_me.Service.Callers.{Principal, admin, anonymous, internal}
use cert_me.Service.Setup.{
  SetupCalls, SetupView, complete, complete_pki_stage, complete_stage, complete_tx, create_admin_tx,
  insert_first_account, is_account_required, is_setup_complete, load_installation,
}
use cert_me.Store.{>>=-gave, gave, or_absent, or_store_error, refused, write}
use cert_me.Store.Accounts.{Installation, pki_required, setup_complete}
use cert_me.Store.Memory.{
  MemoryState, memory_accounts, memory_audit, memory_insert_account, memory_installation, row_of,
  save_single,
}
use cert_me.Values.Ids.{Version, next}
use cert_me.Values.Instant.{Instant}

-- A change of the store after the first administrator: a `Complete` that committed, or any other one
-- that leaves the installation's row.
pub data SetupStep (s : MemoryState) (t : MemoryState) : Type 0 where
  finished :
      (authorizer : Authorizer) (principal : Principal) (expected : Version) (client_ip : Text)
      (auth_now : Instant) (calls : SetupCalls) (view : SetupView)
      → complete_tx memory_accounts memory_installation memory_audit authorizer principal expected
          client_ip auth_now calls s
        ≡ gave (view, t)
      → SetupStep s t
  elsewhere : t.installation ≡ s.installation → SetupStep s t

-- There is an installation, and it does not wait for its first account.
abbrev HasAdmin : MemoryState → Type 0
HasAdmin s =
    (inst : Installation) × (s.installation ≡ some inst)
    × (is_account_required inst.setup_stage ≡ false)

created-HasAdmin :
    (account : Account) (address : Text) (calls : SetupCalls) (a : Account) (s t : MemoryState)
    → create_admin_tx memory_accounts memory_installation memory_audit account address calls s
      ≡ gave (a, t)
    → HasAdmin t
unfolding create_admin_tx load_installation insert_first_account memory_accounts memory_installation
    memory_audit memory_insert_account or_store_error or_absent row_of save_single
    append_account_audit
created-HasAdmin account address calls a s t h = elim (Option-cases s.installation) [
  | inl absent ↦ ground arith
  | inr (inst, held) ↦ (
    record inst {
      first_admin_id = account.id;
      setup_stage = pki_required;
      version = next inst.version;
    },
    ground arith,
    refl,
  )
]

stage-HasAdmin :
    (principal : Principal) (expected : Version) (client_ip : Text) (calls : SetupCalls)
    (inst : Installation) (view : SetupView) (s t : MemoryState)
    → s.installation ≡ some inst
    → is_account_required inst.setup_stage ≡ false
    → complete_stage memory_accounts memory_installation memory_audit principal expected client_ip
        calls inst s
      ≡ gave (view, t)
    → HasAdmin t
unfolding complete_stage complete_pki_stage memory_installation memory_audit or_store_error
    or_absent row_of save_single append_account_audit
stage-HasAdmin principal expected client_ip calls inst view s t held created h =
    elim (Bool-cases (is_setup_complete inst.setup_stage)) [
      | inl complete ↦ (inst, ground arith, created)
      | inr waiting ↦ (
        record inst { setup_stage = setup_complete; version = next inst.version },
        ground arith,
        refl,
      )
    ]

auth-kept :
    (principal : Principal) (now : Instant) (s t : MemoryState)
    → require_current_auth memory_accounts principal now s ≡ gave (tt, t)
    → t.installation ≡ s.installation
unfolding require_current_auth require_live_session memory_accounts or_absent row_of
auth-kept anonymous now s t h = ground arith
auth-kept (internal operations) now s t h = ground arith
auth-kept (admin account session epoch) now s t h = ground arith

authorize-kept :
    (authorizer : Authorizer) (principal : Principal) (s t : MemoryState)
    → authorize authorizer principal "Setup.Complete" [] s ≡ gave (tt, t)
    → t ≡ s
unfolding authorize
authorize-kept authorizer principal s t h =
    elim (Option-cases (authorizer principal "Setup.Complete" [])) [
      | inl allowed ↦ ground arith
      | inr (e, denied) ↦ ground arith
    ]

loaded-row :
    (inst : Installation) (s t : MemoryState)
    → load_installation memory_accounts memory_installation memory_audit s ≡ gave (inst, t)
    → (s.installation ≡ some inst) × (t ≡ s)
unfolding load_installation memory_installation or_absent row_of
loaded-row inst s t h = elim (Option-cases s.installation) [
  | inl absent ↦ ground arith
  | inr (held, found) ↦ (ground arith, ground arith)
]

step-HasAdmin : (s t : MemoryState) → SetupStep s t → HasAdmin s → HasAdmin t
unfolding complete_tx
step-HasAdmin s t (elsewhere same) (inst, held, created) = (inst, same ∙ held, created)
step-HasAdmin s t (finished authorizer principal expected client_ip auth_now calls view h)
      (inst, held, created) =
    let (u1, s1, auth, h1) =
      >>=-gave (require_current_auth memory_accounts principal auth_now) _ s t view h in
    let (u2, s2, allowed, h2) =
      >>=-gave (authorize authorizer principal "Setup.Complete" []) _ s1 t view h1 in
    let (row_read, s3, loading, h3) =
      >>=-gave (load_installation memory_accounts memory_installation memory_audit) _ s2 t view
        h2 in
    let (found, same3) = loaded-row row_read s2 s3 loading in
    let same2 = authorize-kept authorizer principal s1 s2 allowed in
    let before : s2.installation ≡ s.installation =
      ap (λ y. y.installation) same2 ∙ auth-kept principal auth_now s s1 auth in
    let same_row : some row_read ≡ some inst = sym found ∙ before ∙ held in
    stage-HasAdmin principal expected client_ip calls row_read view s3 t
      (ap (λ y. y.installation) same3 ∙ found) (ground arith) h3

-- Once `CreateAdmin` has committed, every later one is refused with `setup_already_has_admin`, whatever
-- its account, and changes nothing, also after a `Complete` and any other change that leaves the
-- installation's row.
pub create_admin_once :
    (account later : Account) (address later_address : Text) (calls later_calls : SetupCalls)
    (a : Account) (s t u : MemoryState)
    → create_admin_tx memory_accounts memory_installation memory_audit account address calls s
      ≡ gave (a, t)
    → Star SetupStep t u
    → write
        (create_admin_tx memory_accounts memory_installation memory_audit later later_address
          later_calls)
        u
      ≡ (refused (new_app_error conflict_kind "setup_already_has_admin"), u)
unfolding create_admin_tx load_installation memory_installation or_absent row_of write
create_admin_once account later address later_address calls later_calls a s t u h steps =
    let (inst, held, created) =
      Star-keeps HasAdmin step-HasAdmin steps (created-HasAdmin account address calls a s t h) in
    ground arith
