-- ===== src/Delivery/Links.antt =====
-- internal/domain/delivery.go: `Validate`, `Consume` and `Invalidate` of a download link.
use cert_me.Prelude.{arith, false, true, ◌↔◌, ◌≡◌}
use cert_me.Delivery.Grant.{
  DownloadGrant, GrantPurpose, consume_grant, grant_is_consumed, grant_is_invalidated,
  grant_purpose_eq, invalidate_grant, leaf_private, leaf_public, validate_grant,
}
use cert_me.Errors.{already_consumed, err, ok, policy_error}
use cert_me.Prelude.Int.{pos, ◌<ℤ◌}
use cert_me.Prelude.Text.{Text, text_eq_iff}
use cert_me.Values.Instant.{Instant, is_expired_at, is_zero}

-- The link is still there, for this purpose, certificate and delivery.
pub record IsGood (g : DownloadGrant) (purpose : GrantPurpose) (certificate delivery : Text)
    (now : Instant) : Type 0 where
  pub unused : g.consumed_at.micros ≡ pos 0
  pub current : g.invalidated_at.micros ≡ pos 0
  pub in_time : now.micros <ℤ g.expires_at.micros
  pub for_purpose : g.purpose ≡ purpose
  pub for_certificate : g.certificate_id ≡ certificate
  pub for_delivery : g.purpose ≡ leaf_private → g.delivery_id ≡ delivery

grant_purpose_eq_iff : (p q : GrantPurpose) → (grant_purpose_eq p q ≡ true) ↔ (p ≡ q)
unfolding grant_purpose_eq
grant_purpose_eq_iff (GrantPurpose.unlisted a) (GrantPurpose.unlisted b) =
    ground (arith, text_eq_iff a b)
grant_purpose_eq_iff leaf_public q = ground arith
grant_purpose_eq_iff leaf_private q = ground arith
grant_purpose_eq_iff (GrantPurpose.unlisted a) q = ground arith

module _ (g : DownloadGrant) (purpose : GrantPurpose) (certificate delivery : Text)
    (now : Instant) where
  validate_grant-IsGood :
      validate_grant g purpose certificate delivery now ≡ ok tt
      → IsGood g purpose certificate delivery now
  unfolding validate_grant grant_is_consumed grant_is_invalidated is_zero is_expired_at
  validate_grant-IsGood h = record {
    unused = ground arith;
    current = ground arith;
    in_time = ground arith;
    for_purpose = ground (arith, grant_purpose_eq_iff g.purpose purpose);
    for_certificate = ground (arith, text_eq_iff g.certificate_id certificate);
    for_delivery = λ p. ground (arith, text_eq_iff g.delivery_id delivery);
  }

  IsGood-validate_grant :
      IsGood g purpose certificate delivery now
      → validate_grant g purpose certificate delivery now ≡ ok tt
  unfolding validate_grant grant_is_consumed grant_is_invalidated is_zero is_expired_at
  IsGood-validate_grant v = ground (
    arith,
    v.for_delivery,
    grant_purpose_eq_iff g.purpose purpose,
    text_eq_iff g.certificate_id certificate,
    text_eq_iff g.delivery_id delivery,
  )

-- `Validate` returns no error exactly for a link that is unused, not replaced, in time, and bound to
-- the purpose, the certificate and, if it is private, the delivery that are asked for.
pub validate_grant_iff :
    (g : DownloadGrant) (purpose : GrantPurpose) (certificate delivery : Text) (now : Instant)
    → (validate_grant g purpose certificate delivery now ≡ ok tt)
      ↔ IsGood g purpose certificate delivery now
validate_grant_iff g purpose certificate delivery now = (
  validate_grant-IsGood g purpose certificate delivery now,
  IsGood-validate_grant g purpose certificate delivery now,
)

module _ (g h : DownloadGrant) (now later : Instant) where
  -- A link that was consumed at a time that is set can be neither consumed again nor invalidated.
  pub consume_grant_once :
      is_zero now ≡ false
      → consume_grant g now ≡ ok h
      → (consume_grant h later ≡ err (policy_error already_consumed "grant_consumed"))
        × (invalidate_grant h later ≡ err (policy_error already_consumed "grant_consumed"))
  unfolding consume_grant invalidate_grant validate_grant grant_is_consumed grant_is_invalidated
  consume_grant_once set c = ground arith

  -- A link that was invalidated at a time that is set is refused for every request, and invalidating
  -- it again changes nothing.
  pub invalidate_grant_for_good :
      (purpose : GrantPurpose) (certificate delivery : Text)
      → is_zero now ≡ false
      → invalidate_grant g now ≡ ok h
      → (validate_grant h purpose certificate delivery later
          ≡ err (policy_error already_consumed "grant_invalidated"))
        × (invalidate_grant h later ≡ ok h)
  unfolding invalidate_grant validate_grant grant_is_consumed grant_is_invalidated
  invalidate_grant_for_good purpose certificate delivery set c = ground arith
