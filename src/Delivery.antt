-- ===== src/Delivery.antt =====
-- internal/domain/delivery.go: the one-shot handoff of a private key (`Delivery`). The download
-- links are in the child `Grant`.
pub mod Grant
pub mod OneShot
pub mod Links
use cert_me.Prelude.{Bool, false, not, true}
use cert_me.Errors.{
  Check, Result, err, expired, invalid_transition, invalid_value, ok, policy_error, reject_if,
  wrapped, ◌>>=◌, ◌>>◌,
}
use cert_me.Prelude.Text.{Text, is_empty}
use cert_me.Values.Ids.{Version, check_id, next}
use cert_me.Values.Instant.{Instant, is_expired_at, is_zero}

pub data DeliveryState : Type 0 where
  pending transferring server_completed failed lapsed : DeliveryState
  unlisted : Text → DeliveryState

unfoldable pub validate_delivery_state : DeliveryState → Check
validate_delivery_state (DeliveryState.unlisted _) = err (wrapped invalid_value)
validate_delivery_state pending = ok tt
validate_delivery_state _ = ok tt

-- `IsTerminal`
unfoldable pub delivery_is_terminal : DeliveryState → Bool
delivery_is_terminal server_completed = true
delivery_is_terminal failed = true
delivery_is_terminal lapsed = true
delivery_is_terminal _ = false

abbrev pub is_pending : DeliveryState → Bool
is_pending pending = true
is_pending _ = false

abbrev pub is_transferring : DeliveryState → Bool
is_transferring transferring = true
is_transferring _ = false

-- `d.state == DeliveryStateFailed || d.state == DeliveryStateExpired`
abbrev pub is_failed_or_expired : DeliveryState → Bool
is_failed_or_expired failed = true
is_failed_or_expired lapsed = true
is_failed_or_expired _ = false

-- `Delivery`, and `DeliveryFacts` with the same fields.
pub record Delivery : Type 0 where
  pub id : Text
  pub leaf_key_generation_id : Text
  pub certificate_id : Text
  pub expires_at : Instant
  pub state : DeliveryState
  pub consumed_at : Instant
  pub finished_at : Instant
  pub failure_code : Text
  pub version : Version

unfoldable pub new_delivery : Delivery → Result Delivery
new_delivery facts = do
  check_id facts.id
  check_id facts.leaf_key_generation_id
  check_id facts.certificate_id
  reject_if (is_zero facts.expires_at) (wrapped invalid_value)
  validate_delivery_state facts.state
  ok facts

-- `CanConsume`
unfoldable pub can_receive : Delivery → Instant → Check
can_receive d now = do
  reject_if (not (is_pending d.state)) (policy_error invalid_transition "delivery_not_pending")
  reject_if (is_expired_at d.expires_at now) (policy_error expired "delivery_expired")

-- `Consume`
unfoldable pub receive : Delivery → Instant → Result Delivery
unfolding can_receive
receive d now = do
  can_receive d now
  ok (record d { state = transferring; consumed_at = now; version = next d.version })

-- `Complete`
unfoldable pub complete_delivery : Delivery → Instant → Result Delivery
complete_delivery d now = do
  reject_if (not (is_transferring d.state))
      (policy_error invalid_transition "delivery_not_transferring")
  ok (record d { state = server_completed; finished_at = now; version = next d.version })

-- `Fail`
unfoldable pub fail_delivery : Delivery → Text → Instant → Result Delivery
fail_delivery d code now = do
  reject_if (is_failed_or_expired d.state) (policy_error invalid_transition "delivery_terminal")
  reject_if (is_empty code) (wrapped invalid_value)
  ok (record d { state = failed; failure_code = code; finished_at = now; version = next d.version })

-- `Expire`
unfoldable pub expire_delivery : Delivery → Instant → Result Delivery
expire_delivery d now = do
  reject_if (not (is_pending d.state)) (policy_error invalid_transition "delivery_not_pending")
  reject_if (not (is_expired_at d.expires_at now))
      (policy_error invalid_transition "delivery_not_expired")
  ok (record d { state = lapsed; finished_at = now; version = next d.version })
