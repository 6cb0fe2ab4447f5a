-- ===== src/Service/Recovery/Draining.antt =====
-- internal/app/service/recovery.go: a call of `failInterruptedTransfer` fails a delivery that is in
-- transfer, or leaves the store as it is.
-- What the restart relies on of its stores, for the number of deliveries in transfer: a read leaves the
-- store as it is, saving a delivery that has left its transfer, under the version that was read,
-- lowers the number, and no other call raises it.
use cert_me.Prelude.{
  Bool, Bool-cases, Option, [], ap, arith, false, inl, inr, none, some, subst, sym, true, ℕ, ◌<◌,
  ◌∙◌, ◌∷◌, ◌≡◌, ◌≤◌, ◌⊎◌,
}
use cert_me.App.{Fault}
use cert_me.Certificate.Issuance.{Certificate}
use cert_me.CryptoWork.Slots.{idle}
use cert_me.Delivery.{Delivery, fail_delivery, is_transferring}
use cert_me.Errors.{ok}
use cert_me.Prelude.Text.{Text, bytes, is_empty}
use cert_me.Series.{LeafSeries}
use cert_me.Service.Recovery.{
  fail_if_transferring, fail_interrupted_transfer, fail_transferring, leaf_management_authority,
  recovery_meta, transfer_change,
}
use cert_me.Service.Revoking.{LedgerPorts}
use cert_me.Service.Revoking.Batch.{apply_revocations}
use cert_me.Service.Revoking.Frame.{LedgerKeeps, apply_revocations-Keeps}
use cert_me.Store.{
  >>=-gave, from_domain, from_domain_lem, gave, give_lem, if_present, if_present_absent,
  if_present_lem, or_absent, or_absent_lem, or_store_error, or_store_error_lem, refuse_if,
  refuse_if_lem, refused, write_iff, write_refused,
}
use cert_me.Store.Frame.{Keeps}
use cert_me.Store.Pki.{DeliveryRepository, LeafCertificateRecord}
use cert_me.Values.Ids.{next}
use cert_me.Values.Instant.{Instant}

pub record Draining {S : Type 0} (ports : LedgerPorts S) (deliveries : DeliveryRepository S)
    (waiting : S → ℕ) : Type 0 where
  pub ledger : LedgerKeeps ports waiting
  pub delivery_read :
      (id : Text) (d : Delivery) (s t : S)
      → deliveries.get_delivery_for_update id s ≡ gave (d, t)
      → t ≡ s
  pub certificate_read :
      (id : Text) (c : Certificate) (s t : S) → ports.pki.get_certificate id s ≡ gave (c, t) → t ≡ s
  pub leaf_record_read :
      (id : Text) (l : LeafCertificateRecord) (s t : S)
      → ports.pki.get_leaf_certificate_record id s ≡ gave (l, t)
      → t ≡ s
  pub series_read :
      (id : Text) (l : LeafSeries) (s t : S)
      → ports.pki.get_series_for_update id s ≡ gave (l, t)
      → t ≡ s
  pub transfer_ended :
      (id : Text) (d next : Delivery) (s t : S)
      → deliveries.get_delivery_for_update id s ≡ gave (d, s)
      → is_transferring d.state ≡ true
      → is_transferring next.state ≡ false
      → deliveries.save_delivery next d.version s ≡ gave (tt, t)
      → waiting t < waiting s
  pub grants_ended :
      (id : Text) (now : Instant) → Keeps waiting (deliveries.invalidate_private_grants id now)

fail_delivery_lem :
    (d next : Delivery) (code : Text) (now : Instant)
    → fail_delivery d code now ≡ ok next
    → is_transferring next.state ≡ false
unfolding fail_delivery
fail_delivery_lem d next code now h = ground arith

below_through : (a b c d e : ℕ) → b < a → c ≤ b → d ≤ c → e ≡ d → e < a
below_through a b c d e one two three four = omega arith

module _ {S : Type 0} (ports : LedgerPorts S) (deliveries : DeliveryRepository S) (waiting : S → ℕ)
    (drains : Draining ports deliveries waiting) where
  scope_read :
      (id scope : Text) (s t : S)
      → leaf_management_authority ports deliveries id s ≡ gave (scope, t)
      → t ≡ s
  unfolding leaf_management_authority
  scope_read id scope s t h =
      let (leaf_record, s1, first, h1) =
        >>=-gave (or_absent (ports.pki.get_leaf_certificate_record id) _ _) _ s t scope h in
      let (series, s2, second, h2) =
        >>=-gave (or_absent (ports.pki.get_series_for_update leaf_record.series_id) _ _) _ s1 t
          scope h1 in
      let (u, s3, third, h3) =
        >>=-gave (refuse_if (is_empty series.management_authority_id) _) _ s2 t scope h2 in
      sym (give_lem series.management_authority_id scope s3 t h3).1
      ∙ (refuse_if_lem (is_empty series.management_authority_id) _ s2 s3 u third).1
      ∙ drains.series_read leaf_record.series_id series s1 s2 (
          or_absent_lem (ports.pki.get_series_for_update leaf_record.series_id) _ _ s1 s2 series
            second)
      ∙ drains.leaf_record_read id leaf_record s s1
          (or_absent_lem (ports.pki.get_leaf_certificate_record id) _ _ s s1 leaf_record first)

  failed_one :
      (id : Text) (d : Delivery) (now : Instant) (done_one : Bool) (s t : S)
      → deliveries.get_delivery_for_update id s ≡ gave (d, s)
      → is_transferring d.state ≡ true
      → fail_transferring ports deliveries d now s ≡ gave (done_one, t)
      → (done_one ≡ true) × (waiting t < waiting s)
  unfolding fail_transferring
  failed_one id d now done_one s t held moving h =
      let (certificate, s1, got, h1) =
        >>=-gave
          (or_store_error (ports.pki.get_certificate d.certificate_id)
            "recovery_certificate_read_failed")
          _ s t done_one h in
      let (scope, s2, scoped, h2) =
        >>=-gave (leaf_management_authority ports deliveries certificate.id) _ s1 t done_one h1 in
      let (next, s3, failing, h3) =
        >>=-gave (from_domain (fail_delivery d (bytes "interrupted_transfer") now)) _ s2 t done_one
          h2 in
      let (u4, s4, saving, h4) =
        >>=-gave
          (or_store_error (deliveries.save_delivery next d.version) "recovery_delivery_save_failed")
          _ s3 t done_one h3 in
      let (u5, s5, ending, h5) =
        >>=-gave
          (or_store_error (deliveries.invalidate_private_grants d.id now)
            "recovery_grant_invalidate_failed")
          _ s4 t done_one h4 in
      let (outcome, s6, revoking, h6) =
        >>=-gave
          (apply_revocations ports (transfer_change certificate scope now ∷ []) (recovery_meta now))
          _ s5 t done_one h5 in
      let (shape, same3) =
        from_domain_lem (fail_delivery d (bytes "interrupted_transfer") now) s2 s3 next failing in
      let unmoved : s3 ≡ s =
        same3
        ∙ scope_read certificate.id scope s1 s2 scoped
        ∙ drains.certificate_read d.certificate_id certificate s s1 (
            or_store_error_lem (ports.pki.get_certificate d.certificate_id) _ s s1 certificate
              got) in
      let saved = or_store_error_lem (deliveries.save_delivery next d.version) _ s3 s4 u4 saving in
      let lowered =
        drains.transfer_ended id d next s s4 held moving
          (fail_delivery_lem d next (bytes "interrupted_transfer") now shape)
          (subst (λ y. deliveries.save_delivery next d.version y ≡ gave (tt, s4)) unmoved saved) in
      let kept =
        drains.grants_ended d.id now s4 s5 u5
          (or_store_error_lem (deliveries.invalidate_private_grants d.id now) _ s4 s5 u5 ending) in
      let revoked =
        apply_revocations-Keeps ports waiting drains.ledger
          (transfer_change certificate scope now ∷ []) (recovery_meta now) s5 s6 outcome revoking in
      let (one, last) = give_lem true done_one s6 t h6 in
      (
        sym one,
        below_through (waiting s) (waiting s4) (waiting s5) (waiting s6) (waiting t) lowered kept
            revoked (ap waiting (sym last)),
      )

  found_through :
      (id : Text) (now : Instant) (found : Option Delivery) (changed : Bool) (s s1 t : S)
      → if_present (deliveries.get_delivery_for_update id) "recovery_delivery_read_failed" s
        ≡ gave (found, s1)
      → fail_if_transferring ports deliveries now found s1 ≡ gave (changed, t)
      → ((changed ≡ true) × (waiting t < waiting s)) ⊎ ((changed ≡ false) × (t ≡ s))
  unfolding fail_if_transferring
  found_through id now none changed s s1 t got h =
      let same =
        if_present_absent (deliveries.get_delivery_for_update id) "recovery_delivery_read_failed" s
          s1 got in
      let (kept, last) = give_lem false changed s1 t h in inr (sym kept, sym last ∙ same)
  found_through id now (some d) changed s s1 t got h =
      let held =
        if_present_lem (deliveries.get_delivery_for_update id) "recovery_delivery_read_failed" s s1
          d got in
      let same = drains.delivery_read id d s s1 held in
      elim (Bool-cases (is_transferring d.state)) [
        | inl moving ↦ inl (
            failed_one id d now changed s t (held ∙ ap (λ y. gave (d, y)) same) moving (
              subst (λ y. fail_transferring ports deliveries d now y ≡ gave (changed, t)) same
                (ground arith)))
        | inr idle ↦ inr (ground arith)
      ]

  -- What a call of `failInterruptedTransfer` leaves of the number.
  pub one_lem :
      (id : Text) (now : Instant) (changed : Bool) (s t : S)
      → fail_interrupted_transfer ports deliveries id now s ≡ (gave changed, t)
      → ((changed ≡ true) × (waiting t < waiting s)) ⊎ ((changed ≡ false) × (t ≡ s))
  unfolding fail_interrupted_transfer
  one_lem id now changed s t h =
      let (found, s1, got, h1) =
        >>=-gave
          (if_present (deliveries.get_delivery_for_update id) "recovery_delivery_read_failed")
          (fail_if_transferring ports deliveries now) s t changed ((write_iff _ s t changed).0 h) in
      found_through id now found changed s s1 t got h1

  pub one_refused :
      (id : Text) (now : Instant) (e : Fault) (s t : S)
      → fail_interrupted_transfer ports deliveries id now s ≡ (refused e, t)
      → t ≡ s
  unfolding fail_interrupted_transfer
  one_refused id now e s t h = write_refused _ s t e h
