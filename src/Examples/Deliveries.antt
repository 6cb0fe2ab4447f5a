-- ===== src/Examples/Deliveries.antt =====
-- internal/domain/delivery.go at concrete inputs.
use cert_me.Delivery.OneShot
use cert_me.Prelude.{[], false, refl, ◌↔◌, ◌≡◌}
use cert_me.Delivery.{
  Delivery, complete_delivery, delivery_is_terminal, failed, pending, receive, server_completed,
  transferring,
}
use cert_me.Delivery.Grant.{
  DownloadGrant, consume_grant, grant_is_consumed, grant_is_invalidated, grant_purpose_eq,
  invalidate_grant, leaf_private, validate_grant,
}
use cert_me.Delivery.Links.{consume_grant_once}
use cert_me.Delivery.OneShot.{Step, receive_once, terminal_steps_iff}
use cert_me.Errors.{already_consumed, err, invalid_transition, ok, policy_error}
use cert_me.Examples.Samples.{at, id_a, id_b, id_c}
use cert_me.Prelude.Int.{add64, pos, wrap64, ◌+ℤ◌}
use cert_me.Prelude.Star.{done, more}
use cert_me.Prelude.Text.{Text, bytes, is_empty, text_eq}
use cert_me.Values.Ids.{next}
use cert_me.Values.Instant.{Instant, is_expired_at, is_zero, unset}

abbrev pub fresh_delivery : Delivery
fresh_delivery = record {
  id = id_a;
  leaf_key_generation_id = id_b;
  certificate_id = id_c;
  expires_at = at 1000;
  state = pending;
  consumed_at = unset;
  finished_at = unset;
  failure_code = [];
  version = pos 0;
}

abbrev pub handed_out : Delivery
handed_out = record fresh_delivery { state = transferring; consumed_at = at 200; version = pos 1 }

abbrev delivered : Delivery
delivered = record handed_out { state = server_completed; finished_at = at 300; version = pos 2 }

handed : receive fresh_delivery (at 200) ≡ ok handed_out
unfolding receive is_expired_at next add64 wrap64 ◌+ℤ◌
handed = refl

completed_delivery : complete_delivery handed_out (at 300) ≡ ok delivered
unfolding complete_delivery next add64 wrap64 ◌+ℤ◌
completed_delivery = refl

receive_once_example :
    receive delivered (at 400) ≡ err (policy_error invalid_transition "delivery_not_pending")
receive_once_example =
    receive_once fresh_delivery handed_out delivered (at 200) (at 400) handed
      (more (OneShot.finished (at 300) completed_delivery) done)

abbrev lost : Delivery
lost = record delivered {
  state = failed;
  failure_code = bytes "lost";
  finished_at = at 400;
  version = pos 4;
}

terminal_steps_iff_example : Step delivered lost ↔ (
    (delivered.state ≡ server_completed)
    × ((code : Text) × (now : Instant) × (is_empty code ≡ false)
        × (lost ≡ record delivered {
          state = failed;
          failure_code = code;
          finished_at = now;
          version = next delivered.version;
        })))
unfolding delivery_is_terminal
terminal_steps_iff_example = terminal_steps_iff delivered lost refl

abbrev private_link : DownloadGrant
private_link = record {
  id = id_a;
  token_hash = record { fingerprint = record { hex = bytes "00" } };
  purpose = leaf_private;
  certificate_id = id_b;
  delivery_id = id_c;
  created_by = id_a;
  expires_at = at 1000;
  consumed_at = unset;
  invalidated_at = unset;
  version = pos 0;
}

abbrev used_link : DownloadGrant
used_link = record private_link { consumed_at = at 200; version = pos 1 }

link_used : consume_grant private_link (at 200) ≡ ok used_link
unfolding consume_grant validate_grant grant_is_invalidated is_zero grant_is_consumed is_expired_at
    grant_purpose_eq text_eq next add64 wrap64 ◌+ℤ◌
link_used = refl

two_hundred_set : is_zero (at 200) ≡ false
unfolding is_zero
two_hundred_set = refl

consume_grant_once_example :
    (consume_grant used_link (at 300) ≡ err (policy_error already_consumed "grant_consumed"))
    × (invalidate_grant used_link (at 300) ≡ err (policy_error already_consumed "grant_consumed"))
consume_grant_once_example =
    consume_grant_once private_link used_link (at 200) (at 300) two_hundred_set link_used
