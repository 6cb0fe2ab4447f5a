-- ===== src/Authority/Lifecycle.antt =====
-- internal/domain/authority.go: the calls that change an authority as a step relation.
use cert_me.Prelude.{arith, false, refl, true, ◌∙◌, ◌≡◌}
use cert_me.Authority.{
  Authority, AuthorityKind, ClosureFacts, IssuerContext, archive, attach_signing_key,
  can_destroy_key, can_issue, can_sign_crl, confirm_takeover, destroy_key, enable, is_archived,
  is_enabled, rename, required_issuer_kind, stop_issuance,
}
use cert_me.Errors.{Result, err, is_ok, not_permitted, ok, wrapped}
use cert_me.Prelude.Star.{Star, Star-keeps}
use cert_me.Prelude.Text.{Text}
use cert_me.Values.Ids.{next}
use cert_me.Values.Instant.{Instant, is_zero}

-- One successful call, at a time that is set.
pub data Step (a : Authority) (b : Authority) : Type 0 where
  stop : stop_issuance a ≡ ok b → Step a b
  start : enable a ≡ ok b → Step a b
  destroy : (facts : ClosureFacts) (now : Instant) → destroy_key a facts now ≡ ok b → Step a b
  retire :
      (facts : ClosureFacts) (now : Instant)
      → is_zero now ≡ false
      → archive a facts now ≡ ok b
      → Step a b
  attach : attach_signing_key a ≡ ok b → Step a b
  take_over : confirm_takeover a ≡ ok b → Step a b
  relabel : (name : Text) → rename a name ≡ ok b → Step a b

-- Every transition but a destruction of the key or a confirmed takeover is refused once archived;
-- those two leave the archive mark and the issuance state alone.
pub record IsRetired (a : Authority) : Type 0 where
  pub marked : is_archived a ≡ true
  pub closed : is_enabled a.issuance_state ≡ false

archive-IsRetired :
    (a b : Authority) (facts : ClosureFacts) (now : Instant)
    → is_zero now ≡ false
    → archive a facts now ≡ ok b
    → IsRetired b
unfolding archive is_archived
archive-IsRetired a b facts now set h = ground arith

step-IsRetired :
    {a b : Authority} → Step a b → IsRetired a → IsRetired b × (b.archived_at ≡ a.archived_at)
unfolding stop_issuance enable destroy_key archive attach_signing_key confirm_takeover rename
    is_archived
step-IsRetired {a} {b} (stop h) r = ground (arith, r.marked)
step-IsRetired (start h) r = ground (arith, r.marked)
step-IsRetired (destroy facts now h) r = ground (arith, r.marked)
step-IsRetired (retire facts now set h) r = ground (arith, r.marked)
step-IsRetired (attach h) r = ground (arith, r.marked)
step-IsRetired (take_over h) r = ground (arith, r.marked)
step-IsRetired (relabel name h) r = ground (arith, r.marked)

-- Archived at `now`.
abbrev IsRetiredAt : Instant → Authority → Type 0
IsRetiredAt now a = IsRetired a × (a.archived_at ≡ now)

step-IsRetiredAt :
    (now : Instant) (a b : Authority) → Step a b → IsRetiredAt now a → IsRetiredAt now b
step-IsRetiredAt now a b st (r, at) = let (kept, same) = step-IsRetired st r in (kept, same ∙ at)

archived_when :
    (a b : Authority) (facts : ClosureFacts) (now : Instant)
    → archive a facts now ≡ ok b
    → b.archived_at ≡ now
unfolding archive
archived_when a b facts now h = ground arith

-- Once archived at a time that is set, an authority stays archived at that time, never issues and
-- never signs a CRL, whatever transitions follow.
pub archived_for_good :
    (a b c : Authority) (facts : ClosureFacts) (now later : Instant) (ctx : IssuerContext)
    → is_zero now ≡ false
    → archive a facts now ≡ ok b
    → Star Step b c
    → (c.archived_at ≡ now)
      × (can_issue c ctx later ≡ err (wrapped not_permitted))
      × (can_sign_crl c later ≡ err (wrapped not_permitted))
unfolding can_issue can_sign_crl
archived_for_good a b c facts now later ctx set h steps =
    let start : IsRetiredAt now b =
      (archive-IsRetired a b facts now set h, archived_when a b facts now h) in
    let (retired, same) = Star-keeps (IsRetiredAt now) (step-IsRetiredAt now) steps start in
    (same, ground (arith, retired.marked), ground (arith, retired.marked))

-- Every transition writes the next version, and leaves the identity, the kind, the parent, the key
-- generation and the certificate window alone.
pub record SameUnit (a b : Authority) : Type 0 where
  pub id : b.id ≡ a.id
  pub kind : b.kind ≡ a.kind
  pub parent : b.management_parent_id ≡ a.management_parent_id
  pub generation : b.key_generation_id ≡ a.key_generation_id
  pub window : b.certificate_window ≡ a.certificate_window

pub step-SameUnit : {a b : Authority} → Step a b → SameUnit a b × (b.version ≡ next a.version)
unfolding stop_issuance enable destroy_key archive attach_signing_key confirm_takeover rename
step-SameUnit (stop h) = ground arith
step-SameUnit (start h) = ground arith
step-SameUnit (destroy facts now h) = ground arith
step-SameUnit (retire facts now set h) = ground arith
step-SameUnit (attach h) = ground arith
step-SameUnit (take_over h) = ground arith
step-SameUnit (relabel name h) = ground arith

-- A key is destroyed only while issuance is not enabled and both closure facts hold, and then the
-- authority neither issues nor signs.
pub destroy_key_lem :
    (a b : Authority) (facts : ClosureFacts) (now later : Instant) (ctx : IssuerContext)
    → destroy_key a facts now ≡ ok b
    → (a.key_available ≡ true)
      × (is_enabled a.issuance_state ≡ false)
      × (facts.all_dependent_certificates_expired ≡ true)
      × (facts.required_crls_published ≡ true)
      × (is_ok (can_sign_crl b later) ≡ false)
      × (is_ok (can_issue b ctx later) ≡ false)
unfolding destroy_key can_destroy_key can_sign_crl can_issue
destroy_key_lem a b facts now later ctx h =
    let issues : (r : Result AuthorityKind)
        → required_issuer_kind ctx.intent ≡ r
        → is_ok (can_issue b ctx later) ≡ false =
      λ r e. ground arith in
    (
      ground arith,
      ground arith,
      ground arith,
      ground arith,
      ground arith,
      issues (required_issuer_kind ctx.intent) refl,
    )
