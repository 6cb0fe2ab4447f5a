-- ===== src/Service/Distribution/OnceOnly.antt =====
-- internal/app/service/distribution.go, `commitConsumption`, over every store: a private key leaves once.
use cert_me.Prelude.{
  Bool-cases, Option, ap, arith, inl, inr, none, not, some, sym, ◌||◌, ◌∙◌, ◌≡◌, ◌≢◌,
}
use cert_me.Delivery.{Delivery, can_receive, receive}
use cert_me.Delivery.Grant.{
  DownloadGrant, consume_grant, grant_purpose_eq, is_private, validate_grant,
}
use cert_me.Prelude.Text.{Text, text_eq}
use cert_me.Service.Distribution.{
  ConsumedTransfer, PreparedDelivery, append_distribution_audit, commit_consumption_tx,
  consume_for_purpose, consume_private, consume_public, read_delivery, read_grant,
}
use cert_me.Service.Distribution.Consuming.{
  Consumed, ConsumptionLaws, audit-Leaves, moved_through, pending_not_moving, receive_lem,
  scope-Leaves,
}
use cert_me.Service.Recovery.{leaf_management_authority}
use cert_me.Service.Revoking.{LedgerPorts}
use cert_me.Store.{
  >>=-gave, from_domain, from_domain_lem, gave, give_lem, or_absent, or_absent_lem, or_store_error,
  or_store_error_lem, refuse_if, refuse_if_lem,
}
use cert_me.Store.Pki.{DeleteSecret, DeliveryRepository}
use cert_me.Values.Instant.{Instant}
use cert_me.Values.Keys.{leaf_delivery}

module _ {S : Type 0} (ports : LedgerPorts S) (deliveries : DeliveryRepository S)
    (delete_secret : DeleteSecret S) (held : S → Text → Option Delivery)
    (laws : ConsumptionLaws ports deliveries delete_secret held) where
  private_lem :
      (now : Instant) (client_ip : Text) (prep : PreparedDelivery) (grant : DownloadGrant)
      (scope : Text) (c : ConsumedTransfer) (d : Delivery) (s t : S)
      → consume_private ports deliveries delete_secret now client_ip prep grant scope s
        ≡ gave (c, t)
      → c.delivery ≡ some d
      → Consumed held d s t
  unfolding consume_private read_delivery
  private_lem now client_ip prep grant scope c d s t h is_d =
      let (row_read, s1, reading, h1) =
        >>=-gave (or_absent (deliveries.get_delivery_for_update grant.delivery_id) _ _) _ s t c h in
      let (u2, s2, checking, h2) = >>=-gave (from_domain (can_receive row_read now)) _ s1 t c h1 in
      let (consumed_grant, s3, consuming, h3) =
        >>=-gave (from_domain (consume_grant grant now)) _ s2 t c h2 in
      let (moved_row, s4, moving, h4) = >>=-gave (from_domain (receive row_read now)) _ s3 t c h3 in
      let (u5, s5, saving, h5) =
        >>=-gave (or_store_error (deliveries.save_grant consumed_grant grant.version) _) _ s4 t c
          h4 in
      let (u6, s6, storing, h6) =
        >>=-gave (or_store_error (deliveries.save_delivery moved_row row_read.version) _) _ s5 t c
          h5 in
      let (u7, s7, deleting, h7) =
        >>=-gave (or_store_error (delete_secret prep.certificate.key_material_id leaf_delivery) _) _
          s6 t c h6 in
      let (u8, s8, ending, h8) =
        >>=-gave (or_store_error (deliveries.invalidate_private_grants moved_row.id now) _) _ s7 t c
          h7 in
      let (u9, s9, auditing, h9) =
        >>=-gave
          (append_distribution_audit ports deliveries delete_secret now client_ip _
            consumed_grant.id _ scope)
          _ s8 t c h8 in
      let (was_read, same1) = laws.delivery_read grant.delivery_id row_read s s1 (
        or_absent_lem (deliveries.get_delivery_for_update grant.delivery_id) _ _ s s1 row_read
          reading) in
      let (moves, same4) = from_domain_lem (receive row_read now) s3 s4 moved_row moving in
      let (was_pending, in_transfer, same_id) = receive_lem row_read moved_row now moves in
      let (built, last) = give_lem _ c s9 t h9 in
      let stored = laws.delivery_saved moved_row row_read.version s5 s6 (
        or_store_error_lem (deliveries.save_delivery moved_row row_read.version) _ s5 s6 u6
          storing) in
      let kept : held t ≡ held s6 =
        ap held (sym last)
        ∙ audit-Leaves ports deliveries delete_secret held laws now client_ip _ consumed_grant.id _
            scope s8 s9 u9 auditing
        ∙ laws.grants_ended moved_row.id now s7 s8 u8 (
            or_store_error_lem (deliveries.invalidate_private_grants moved_row.id now) _ s7 s8 u8
              ending)
        ∙ laws.secret_deleted prep.certificate.key_material_id leaf_delivery s6 s7 u7 (
            or_store_error_lem (delete_secret prep.certificate.key_material_id leaf_delivery) _ s6
              s7 u7 deleting) in
      let same_d : some moved_row ≡ some d = ap (λ y. y.delivery) built ∙ is_d in
      moved_through held grant.delivery_id row_read moved_row d s s6 t was_read
        (laws.held_by_id s grant.delivery_id row_read was_read) was_pending in_transfer same_id
        stored kept (ground arith)

  public_lem :
      (now : Instant) (client_ip : Text) (grant : DownloadGrant) (scope : Text)
      (c : ConsumedTransfer) (s t : S)
      → consume_public ports deliveries delete_secret now client_ip grant scope s ≡ gave (c, t)
      → c.delivery ≡ none
  unfolding consume_public
  public_lem now client_ip grant scope c s t h =
      let (consumed_grant, s1, consuming, h1) =
        >>=-gave (from_domain (consume_grant grant now)) _ s t c h in
      let (u2, s2, saving, h2) =
        >>=-gave (or_store_error (deliveries.save_grant consumed_grant grant.version) _) _ s1 t c
          h1 in
      let (u3, s3, auditing, h3) =
        >>=-gave
          (append_distribution_audit ports deliveries delete_secret now client_ip _
            consumed_grant.id _ scope)
          _ s2 t c h2 in
      sym (ap (λ y. y.delivery) (give_lem _ c s3 t h3).0)

  purpose_lem :
      (now : Instant) (client_ip : Text) (prep : PreparedDelivery) (grant : DownloadGrant)
      (scope : Text) (c : ConsumedTransfer) (d : Delivery) (s t : S)
      → consume_for_purpose ports deliveries delete_secret now client_ip prep grant scope s
        ≡ gave (c, t)
      → c.delivery ≡ some d
      → Consumed held d s t
  unfolding consume_for_purpose
  purpose_lem now client_ip prep grant scope c d s t h is_d =
      elim (Bool-cases (is_private grant.purpose)) [
        | inl private ↦ private_lem now client_ip prep grant scope c d s t (ground arith) is_d
        | inr public ↦ ground (arith, public_lem now client_ip grant scope c s t)
      ]

  -- A consumption that gives a delivery out finds it pending, and leaves it in transfer.
  commit_lem :
      (now : Instant) (client_ip : Text) (prep : PreparedDelivery) (c : ConsumedTransfer)
      (d : Delivery) (s t : S)
      → commit_consumption_tx ports deliveries delete_secret now client_ip prep s ≡ gave (c, t)
      → c.delivery ≡ some d
      → Consumed held d s t
  unfolding commit_consumption_tx read_grant
  commit_lem now client_ip prep c d s t h is_d =
      let (grant, s1, reading, h1) =
        >>=-gave (or_absent (deliveries.get_grant_for_update prep.token_hash) _ _) _ s t c h in
      let (u2, s2, checking, h2) =
        >>=-gave
          (from_domain
            (validate_grant grant grant.purpose grant.certificate_id grant.delivery_id now))
          _ s1 t c h1 in
      let (u3, s3, matching, h3) =
        >>=-gave
          (refuse_if
            (not (grant_purpose_eq grant.purpose prep.purpose)
              || not (text_eq grant.certificate_id prep.certificate.id))
            _)
          _ s2 t c h2 in
      let (scope, s4, scoping, h4) =
        >>=-gave (leaf_management_authority ports deliveries prep.certificate.id) _ s3 t c h3 in
      let view : held s4 ≡ held s =
        scope-Leaves ports deliveries delete_secret held laws prep.certificate.id s3 s4 scope
          scoping
        ∙ ap held
            (refuse_if_lem
              (not (grant_purpose_eq grant.purpose prep.purpose)
                || not (text_eq grant.certificate_id prep.certificate.id))
              _ s2 s3 u3 matching).1
        ∙ ap held
            (from_domain_lem
              (validate_grant grant grant.purpose grant.certificate_id grant.delivery_id now) s1 s2
              u2 checking).1
        ∙ laws.grant_read prep.token_hash s s1 grant (
            or_absent_lem (deliveries.get_grant_for_update prep.token_hash) _ _ s s1 grant
              reading) in
      let at_end = purpose_lem now client_ip prep grant scope c d s4 t h4 is_d in
      record {
        held_before = at_end.held_before;
        was_held = ap (λ f. f d.id) (sym view) ∙ at_end.was_held;
        was_pending = at_end.was_pending;
        in_transfer = at_end.in_transfer;
        is_held = at_end.is_held;
      }

  -- A private key is given out at most once: after a consumption that has given a delivery out, none
  -- gives out the same delivery in any later state that still holds it as it was left, whatever the
  -- link, the time and the request.
  pub consume_once :
      (now : Instant) (client_ip : Text) (prep : PreparedDelivery) (c : ConsumedTransfer)
      (d : Delivery) (s t : S)
      → commit_consumption_tx ports deliveries delete_secret now client_ip prep s ≡ gave (c, t)
      → c.delivery ≡ some d
      → (later : Instant) (other_ip : Text) (other : PreparedDelivery) (again : ConsumedTransfer)
        (e : Delivery) (u v : S)
      → held u d.id ≡ held t d.id
      → commit_consumption_tx ports deliveries delete_secret later other_ip other u
        ≡ gave (again, v)
      → again.delivery ≡ some e
      → e.id ≢ d.id
  consume_once now client_ip prep c d s t first is_d later other_ip other again e u v untouched
        second is_e same =
      let left = commit_lem now client_ip prep c d s t first is_d in
      let found = commit_lem later other_ip other again e u v second is_e in
      let row : some found.held_before ≡ some d =
        sym found.was_held ∙ ap (held u) same ∙ untouched ∙ left.is_held in
      pending_not_moving found.held_before d row found.was_pending left.in_transfer
