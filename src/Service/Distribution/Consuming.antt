-- ===== src/Service/Distribution/Consuming.antt =====
-- internal/app/service/distribution.go, `commitConsumption`: what it relies on of its stores, and what
-- one consumption leaves.
use cert_me.Prelude.{Option, String, ap, arith, some, subst, sym, ◌∙◌, ◌≡◌}
use cert_me.Delivery.{Delivery, can_receive, pending, receive, transferring}
use cert_me.Delivery.Grant.{DownloadGrant}
use cert_me.Errors.{ok}
use cert_me.Prelude.Text.{Text, is_empty}
use cert_me.Service.Distribution.{append_distribution_audit}
use cert_me.Service.Recovery.{leaf_management_authority}
use cert_me.Service.Revoking.{LedgerPorts}
use cert_me.Store.{
  >>=-gave, Tx, gave, give_lem, or_absent, or_absent_lem, or_store_error_lem, refuse_if,
  refuse_if_lem,
}
use cert_me.Store.Accounts.{AuditEvent, AuditResult, AuditScope}
use cert_me.Store.Pki.{DeleteSecret, DeliveryRepository}
use cert_me.Values.Hex.{TokenHash}
use cert_me.Values.Ids.{Version, next}
use cert_me.Values.Instant.{Instant}
use cert_me.Values.Keys.{SecretPurpose}

-- A call leaves what `view` sees of a state.
abbrev pub Leaves : {S V A : Type 0} → (S → V) → Tx S A → Type 0
Leaves {S} {V} {A} view m = (s t : S) (a : A) → m s ≡ gave (a, t) → view t ≡ view s

-- What the consumption relies on of its stores, for the deliveries that a state holds by id: a delivery
-- is held under its own id; a read gives the one that is held; a save replaces the one of its id; no
-- other call changes them.
pub record ConsumptionLaws {S : Type 0} (ports : LedgerPorts S) (deliveries : DeliveryRepository S)
    (delete_secret : DeleteSecret S) (held : S → Text → Option Delivery) : Type 0 where
  pub held_by_id : (s : S) (id : Text) (d : Delivery) → held s id ≡ some d → d.id ≡ id
  pub delivery_read :
      (id : Text) (d : Delivery) (s t : S)
      → deliveries.get_delivery_for_update id s ≡ gave (d, t)
      → (held s id ≡ some d) × (t ≡ s)
  pub delivery_saved :
      (d : Delivery) (v : Version) (s t : S)
      → deliveries.save_delivery d v s ≡ gave (tt, t)
      → held t d.id ≡ some d
  pub grant_read : (hash : TokenHash) → Leaves held (deliveries.get_grant_for_update hash)
  pub grant_saved : (g : DownloadGrant) (v : Version) → Leaves held (deliveries.save_grant g v)
  pub grants_ended :
      (id : Text) (now : Instant) → Leaves held (deliveries.invalidate_private_grants id now)
  pub secret_deleted : (id : Text) (p : SecretPurpose) → Leaves held (delete_secret id p)
  pub leaf_record_read : (id : Text) → Leaves held (ports.pki.get_leaf_certificate_record id)
  pub series_read : (id : Text) → Leaves held (ports.pki.get_series_for_update id)
  pub audited :
      (event : AuditEvent) (scope : AuditScope) → Leaves held (ports.audit.append_event event scope)
  pub id_made : Leaves held ports.new_uuid

-- What a consumption with a delivery rests on and leaves: the delivery was pending, and is in transfer.
pub record Consumed {S : Type 0} (held : S → Text → Option Delivery) (d : Delivery) (s t : S)
    : Type 0 where
  pub held_before : Delivery
  pub was_held : held s d.id ≡ some held_before
  pub was_pending : held_before.state ≡ pending
  pub in_transfer : d.state ≡ transferring
  pub is_held : held t d.id ≡ some d

pub receive_lem :
    (d next : Delivery) (now : Instant)
    → receive d now ≡ ok next
    → (d.state ≡ pending) × (next.state ≡ transferring) × (next.id ≡ d.id)
unfolding receive can_receive
receive_lem d next now h = (ground arith, ground arith, ground arith)

pub moved_through :
    {S : Type 0} (held : S → Text → Option Delivery) (id : Text) (row_read moved_row d : Delivery)
    (s s6 t : S)
    → held s id ≡ some row_read
    → row_read.id ≡ id
    → row_read.state ≡ pending
    → moved_row.state ≡ transferring
    → moved_row.id ≡ row_read.id
    → held s6 moved_row.id ≡ some moved_row
    → held t ≡ held s6
    → moved_row ≡ d
    → Consumed held d s t
moved_through held id row_read moved_row d s s6 t was_read key was_pending in_transfer same_id
      stored kept same =
    subst (λ y. Consumed held y s t) same
      (record {
        held_before = row_read;
        was_held = ap (held s) (same_id ∙ key) ∙ was_read;
        was_pending = was_pending;
        in_transfer = in_transfer;
        is_held = ap (λ f. f moved_row.id) kept ∙ stored;
      })

pub pending_not_moving :
    (a b : Delivery) → some a ≡ some b → a.state ≡ pending → b.state ≡ transferring → ⊥
pending_not_moving a b same waits moves = ground arith

module _ {S : Type 0} (ports : LedgerPorts S) (deliveries : DeliveryRepository S)
    (delete_secret : DeleteSecret S) (held : S → Text → Option Delivery)
    (laws : ConsumptionLaws ports deliveries delete_secret held) where
  pub scope-Leaves : (id : Text) → Leaves held (leaf_management_authority ports deliveries id)
  unfolding leaf_management_authority
  scope-Leaves id s t scope h =
      let (leaf_record, s1, first, h1) =
        >>=-gave (or_absent (ports.pki.get_leaf_certificate_record id) _ _) _ s t scope h in
      let (series, s2, second, h2) =
        >>=-gave (or_absent (ports.pki.get_series_for_update leaf_record.series_id) _ _) _ s1 t
          scope h1 in
      let (u, s3, third, h3) =
        >>=-gave (refuse_if (is_empty series.management_authority_id) _) _ s2 t scope h2 in
      ap held (sym (give_lem series.management_authority_id scope s3 t h3).1)
      ∙ ap held (refuse_if_lem (is_empty series.management_authority_id) _ s2 s3 u third).1
      ∙ laws.series_read leaf_record.series_id s1 s2 series (
          or_absent_lem (ports.pki.get_series_for_update leaf_record.series_id) _ _ s1 s2 series
            second)
      ∙ laws.leaf_record_read id s s1 leaf_record
          (or_absent_lem (ports.pki.get_leaf_certificate_record id) _ _ s s1 leaf_record first)

  pub audit-Leaves :
      (now : Instant) (client_ip : Text) (action : String) (grant_id : Text) (how : AuditResult)
      (scope : Text)
      → Leaves held (
          append_distribution_audit ports deliveries delete_secret now client_ip action grant_id how
            scope)
  unfolding append_distribution_audit
  audit-Leaves now client_ip action grant_id how scope s t u h =
      let (id, s1, made, h1) = >>=-gave ports.new_uuid _ s t u h in
      laws.audited _ _ s1 t u (or_store_error_lem (ports.audit.append_event _ _) _ s1 t u h1)
      ∙ laws.id_made s s1 id made
