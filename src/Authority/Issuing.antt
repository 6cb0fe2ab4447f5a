-- ===== src/Authority/Issuing.antt =====
-- internal/domain/authority.go: the guards of `CanIssue` and `CanSignCRL` against a list of conditions.
use cert_me.Prelude.{arith, false, true, ◌↔◌, ◌≡◌, ◌⊎◌}
use cert_me.Authority.{
  Authority, AuthorityKind, IssuanceIntent, IssuerContext, bootstrap, bootstrap_tls, can_issue,
  enabled, has_valid_certificate_window_at, intermediate, is_archived, leaf, required_issuer_kind,
  root, subordinate_ca,
}
use cert_me.Errors.{ok}
use cert_me.Prelude.Int.{pos, ◌<ℤ◌, ◌≤ℤ◌}
use cert_me.Values.Instant.{Instant, ValidityWindow, contains_at, covers, is_zero, is_zero_window}

-- The issuer that each path demands.
abbrev pub Issues : IssuanceIntent → AuthorityKind → Type 0
Issues leaf k = k ≡ intermediate
Issues bootstrap_tls k = k ≡ bootstrap
Issues subordinate_ca k = k ≡ root
Issues (IssuanceIntent.unlisted _) k = ⊥

-- `now` lies in the window, which is set.
pub record Valid (w : ValidityWindow) (now : Instant) : Type 0 where
  pub set : is_zero_window w ≡ false
  pub started : w.not_before.micros ≤ℤ now.micros
  pub running : now.micros <ℤ w.not_after.micros

-- The conditions under which an authority issues.
pub record MayIssue (a : Authority) (ctx : IssuerContext) (now : Instant) : Type 0 where
  pub kept : a.archived_at.micros ≡ pos 0
  pub kind : Issues ctx.intent a.kind
  pub accepting : a.issuance_state ≡ enabled
  pub key : a.key_available ≡ true
  pub sound : a.affected ≡ false
  pub taken_over : (a.pending_takeover ≡ false) ⊎ (ctx.takeover_confirmed ≡ true)
  pub valid : Valid a.certificate_window now
  pub period :
      (is_zero_window ctx.requested_window ≡ true)
      ⊎ (covers a.certificate_window ctx.requested_window ≡ true)

pub archived_iff : (a : Authority) → (is_archived a ≡ false) ↔ (a.archived_at.micros ≡ pos 0)
unfolding is_archived is_zero
archived_iff a = ground arith

window_at_iff :
    (a : Authority) (now : Instant)
    → (has_valid_certificate_window_at a now ≡ true) ↔ Valid a.certificate_window now
unfolding has_valid_certificate_window_at contains_at
window_at_iff a now = (λ h. ground arith, λ h. ground arith)

module _ (a : Authority) (ctx : IssuerContext) (now : Instant) where
  can_issue-MayIssue : can_issue a ctx now ≡ ok tt → MayIssue a ctx now
  unfolding can_issue required_issuer_kind
  can_issue-MayIssue h =
      let may : has_valid_certificate_window_at a now ≡ true = ground arith in
      let valid_now = (window_at_iff a now).0 may in
      record {
        kept = (archived_iff a).0 (ground arith);
        kind = ground arith;
        accepting = ground arith;
        key = ground arith;
        sound = ground arith;
        taken_over = ground arith;
        valid = valid_now;
        period = ground (arith, valid_now.set);
      }

  MayIssue-can_issue : MayIssue a ctx now → can_issue a ctx now ≡ ok tt
  unfolding can_issue required_issuer_kind
  MayIssue-can_issue m = ground (
    arith,
    (archived_iff a).1 m.kept,
    (window_at_iff a now).1 m.valid,
    m.kind,
    m.taken_over,
    m.period,
  )

  -- `CanIssue` returns no error exactly if the CA is not archived, is of the kind that the intent asks
  -- for, has issuance enabled, has its key, is not affected by a compromise, has no pending
  -- takeover or a confirmed one, has a certificate that is valid now, and, where the caller asks for a
  -- period, covers that period.
  pub can_issue_iff : (can_issue a ctx now ≡ ok tt) ↔ MayIssue a ctx now
  can_issue_iff = (can_issue-MayIssue, MayIssue-can_issue)
