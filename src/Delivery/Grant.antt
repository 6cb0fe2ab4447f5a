-- ===== src/Delivery/Grant.antt =====
-- internal/domain/delivery.go: `DownloadGrant`, the one-shot download links.
use cert_me.Prelude.{Bool, false, if◌then◌else◌, not, true, ◌&&◌}
use cert_me.Errors.{
  Check, Result, already_consumed, err, expired, invalid_value, ok, policy_error, policy_violation,
  reject_if, wrapped, ◌>>◌,
}
use cert_me.Prelude.Text.{Text, is_empty, text_eq}
use cert_me.Values.Hex.{TokenHash, token_hash_is_zero}
use cert_me.Values.Ids.{Version, check_id, next}
use cert_me.Values.Instant.{Instant, is_expired_at, is_zero}

pub data GrantPurpose : Type 0 where
  leaf_public leaf_private : GrantPurpose
  unlisted : Text → GrantPurpose

unfoldable pub validate_grant_purpose : GrantPurpose → Check
validate_grant_purpose (GrantPurpose.unlisted _) = err (wrapped invalid_value)
validate_grant_purpose leaf_public = ok tt
validate_grant_purpose _ = ok tt

unfoldable pub grant_purpose_eq : GrantPurpose → GrantPurpose → Bool
grant_purpose_eq leaf_public leaf_public = true
grant_purpose_eq leaf_private leaf_private = true
grant_purpose_eq (GrantPurpose.unlisted a) (GrantPurpose.unlisted b) = text_eq a b
grant_purpose_eq _ _ = false

abbrev pub is_private : GrantPurpose → Bool
is_private leaf_private = true
is_private _ = false

-- `DownloadGrant`, and `DownloadGrantFacts` with the same fields.
pub record DownloadGrant : Type 0 where
  pub id : Text
  pub token_hash : TokenHash
  pub purpose : GrantPurpose
  pub certificate_id : Text
  pub delivery_id : Text
  pub created_by : Text
  pub expires_at : Instant
  pub consumed_at : Instant
  pub invalidated_at : Instant
  pub version : Version

-- The `switch facts.Purpose` of the constructor.
unfoldable pub check_delivery_of_purpose : GrantPurpose → Text → Check
check_delivery_of_purpose leaf_private delivery_id = do
  reject_if (is_empty delivery_id) (wrapped invalid_value)
  check_id delivery_id
check_delivery_of_purpose leaf_public delivery_id =
    reject_if (not (is_empty delivery_id)) (wrapped invalid_value)
check_delivery_of_purpose (GrantPurpose.unlisted _) delivery_id = ok tt

unfoldable pub new_download_grant : DownloadGrant → Result DownloadGrant
new_download_grant facts = do
  check_id facts.id
  reject_if (token_hash_is_zero facts.token_hash) (wrapped invalid_value)
  validate_grant_purpose facts.purpose
  check_id facts.certificate_id
  check_id facts.created_by
  check_delivery_of_purpose facts.purpose facts.delivery_id
  reject_if (is_zero facts.expires_at) (wrapped invalid_value)
  ok facts

unfoldable pub grant_is_consumed : DownloadGrant → Bool
grant_is_consumed g = not (is_zero g.consumed_at)

unfoldable pub grant_is_invalidated : DownloadGrant → Bool
grant_is_invalidated g = not (is_zero g.invalidated_at)

-- `Validate`
unfoldable pub validate_grant : DownloadGrant → GrantPurpose → Text → Text → Instant → Check
validate_grant g purpose certificate_id delivery_id now = do
  reject_if (grant_is_invalidated g) (policy_error already_consumed "grant_invalidated")
  reject_if (grant_is_consumed g) (policy_error already_consumed "grant_consumed")
  reject_if (is_expired_at g.expires_at now) (policy_error expired "grant_expired")
  reject_if (not (grant_purpose_eq g.purpose purpose))
      (policy_error policy_violation "grant_purpose_mismatch")
  reject_if (not (text_eq g.certificate_id certificate_id))
      (policy_error policy_violation "grant_certificate_mismatch")
  reject_if (is_private g.purpose && not (text_eq g.delivery_id delivery_id))
      (policy_error policy_violation "grant_delivery_mismatch")

-- `Consume`
unfoldable pub consume_grant : DownloadGrant → Instant → Result DownloadGrant
consume_grant g now = do
  validate_grant g g.purpose g.certificate_id g.delivery_id now
  ok (record g { consumed_at = now; version = next g.version })

-- `Invalidate`
unfoldable pub invalidate_grant : DownloadGrant → Instant → Result DownloadGrant
invalidate_grant g now = do
  reject_if (grant_is_consumed g) (policy_error already_consumed "grant_consumed")
  ok (
      if grant_is_invalidated g
      then g
      else record g { invalidated_at = now; version = next g.version })
