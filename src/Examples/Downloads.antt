-- ===== src/Examples/Downloads.antt =====
-- internal/app/service/distribution.go over a store of two deliveries with a link each, at a concrete
-- input.
use cert_me.Prelude.{
  Bool-cases, Option, Option-cases, String, [], ap, arith, if◌then◌else◌, inl, inr, none, refl,
  some, subst, ◌≡◌, ◌≢◌,
}
use cert_me.App.{
  classify_store_error, code_of_failure, fields_of_failure, from_domain_error, is_store_fault,
  kind_of_failure, new_app_error, not_found, store_error, store_fault, with_public_field,
  wrap_app_error,
}
use cert_me.Delivery.{Delivery, can_receive, receive, transferring}
use cert_me.Delivery.Grant.{
  DownloadGrant, consume_grant, grant_is_consumed, grant_is_invalidated, grant_purpose_eq,
  leaf_private, validate_grant,
}
use cert_me.Examples.Batches.{no_crl_yet, signer_certificate}
use cert_me.Examples.Deliveries.{fresh_delivery}
use cert_me.Examples.Renewals.{web_series}
use cert_me.Examples.Restarts.{leaf_record}
use cert_me.Examples.Samples.{at, id_a, id_b, id_c}
use cert_me.Prelude.Int.{add64, pos, wrap64, ◌+ℤ◌}
use cert_me.Prelude.Text.{Text, bytes, text_eq, text_eq_iff, text_eq_refl}
use cert_me.Service.Distribution.{
  PreparedDelivery, append_distribution_audit, commit_consumption_tx, consume_for_purpose,
  consume_private, consume_public, distribution_event, read_delivery, read_grant,
}
use cert_me.Service.Distribution.Consuming.{ConsumptionLaws}
use cert_me.Service.Distribution.OnceOnly.{consume_once}
use cert_me.Service.Recovery.{leaf_management_authority}
use cert_me.Service.Revoking.{LedgerPorts}
use cert_me.Store.{Tx, gave, or_absent, or_store_error, refused}
use cert_me.Store.Accounts.{contains_text, new_authorities_audit_scope, unique_ids}
use cert_me.Store.Memory.{row_of}
use cert_me.Store.Pki.{DeleteSecret, DeliveryRepository}
use cert_me.Values.Ids.{Version, next}
use cert_me.Values.Instant.{before, is_expired_at, is_zero, unset}

record TwoDeliveries : Type 0 where
  left_row : Delivery
  right_row : Delivery
  left_link : DownloadGrant
  right_link : DownloadGrant

abbrev held_in : TwoDeliveries → Text → Option Delivery
held_in s id =
    if text_eq s.left_row.id id
    then some s.left_row
    else if text_eq s.right_row.id id
    then some s.right_row
    else none

-- The other rows are there to be read, and every write to them is taken.
abbrev side_rows : LedgerPorts TwoDeliveries
side_rows = record {
  crls = record {
    get_state_for_update = λ issuer s. gave (no_crl_yet, s);
    save_state = λ c expected s. gave (tt, s);
    insert_document = λ document s. gave (tt, s);
  };
  revocations = record {
    find_for_update = λ issuer serial s. refused (store_fault not_found);
    insert_revocation = λ r s. gave (tt, s);
    save_revocation = λ r expected s. gave (tt, s);
    list_by_issuer = λ issuer s. gave ([], s);
  };
  jobs = record {
    upsert_demand = λ dedup kind version payload s. gave (tt, s);
    get_by_dedup_key = λ dedup s. refused (store_fault not_found);
    get_job_for_update = λ id s. refused (store_fault not_found);
    save_job = λ job expected s. gave (tt, s);
  };
  pki = record {
    get_issuer_for_update = λ id s. refused (store_fault not_found);
    get_ca_key_generation = λ id s. refused (store_fault not_found);
    get_certificate = λ id s. gave (signer_certificate, s);
    get_leaf_certificate_record = λ id s. gave (leaf_record, s);
    get_ca_certificate_record = λ id s. refused (store_fault not_found);
    get_series_for_update = λ id s. gave (web_series, s);
    get_encrypted = λ id purpose s. refused (store_fault not_found);
  };
  audit = record { append_event = λ event scope s. gave (tt, s) };
  new_uuid = λ s. gave (id_a, s);
}

abbrev save_row : Delivery → Version → Tx TwoDeliveries (Unit {0})
save_row d expected s =
    if text_eq s.left_row.id d.id
    then gave (tt, record s { left_row = d })
    else if text_eq s.right_row.id d.id
    then gave (tt, record s { right_row = d })
    else refused (store_fault not_found)

abbrev two_deliveries : DeliveryRepository TwoDeliveries
two_deliveries = record {
  get_delivery_for_update = λ id s. row_of (held_in s id) s;
  get_grant_for_update = λ hash s.
      if text_eq hash.fingerprint.hex s.left_link.token_hash.fingerprint.hex
      then gave (s.left_link, s)
      else gave (s.right_link, s);
  save_grant = λ g expected s.
      if text_eq g.id s.left_link.id
      then gave (tt, record s { left_link = g })
      else gave (tt, record s { right_link = g });
  save_delivery = save_row;
  invalidate_private_grants = λ id now s. gave (tt, s);
  list_transferring = λ limit s. gave ([], s);
}

abbrev delete_any : DeleteSecret TwoDeliveries
delete_any id purpose s = gave (tt, s)

row_kept_by_id : (s : TwoDeliveries) (id : Text) (d : Delivery) → held_in s id ≡ some d → d.id ≡ id
row_kept_by_id s id d h =
    ground (arith, text_eq_iff s.left_row.id id, text_eq_iff s.right_row.id id)

row_given :
    (id : Text) (d : Delivery) (s t : TwoDeliveries)
    → two_deliveries.get_delivery_for_update id s ≡ gave (d, t)
    → (held_in s id ≡ some d) × (t ≡ s)
unfolding row_of
row_given id d s t h = elim (Option-cases (held_in s id)) [
  | inl absent ↦ ground arith
  | inr (e, found) ↦ (ground arith, ground arith)
]

row_saved :
    (d : Delivery) (v : Version) (s t : TwoDeliveries)
    → save_row d v s ≡ gave (tt, t)
    → held_in t d.id ≡ some d
row_saved d v s t h = elim (Bool-cases (text_eq s.left_row.id d.id)) [
  | inl on_left ↦
      let same : record s { left_row = d } ≡ t = ground arith in
      subst (λ y. held_in y d.id ≡ some d) same (ground (arith, text_eq_refl d.id))
  | inr elsewhere ↦ elim (Bool-cases (text_eq s.right_row.id d.id)) [
    | inl on_right ↦
        let same : record s { right_row = d } ≡ t = ground arith in
        subst (λ y. held_in y d.id ≡ some d) same (ground (arith, text_eq_refl d.id))
    | inr nowhere ↦ ground arith
  ]
]

view_kept : (s t : TwoDeliveries) → t ≡ s → held_in t ≡ held_in s
view_kept s t same = ap held_in same

link_saved :
    (g : DownloadGrant) (v : Version) (s t : TwoDeliveries) (u : Unit {0})
    → two_deliveries.save_grant g v s ≡ gave (u, t)
    → held_in t ≡ held_in s
link_saved g v s t u h = elim (Bool-cases (text_eq g.id s.left_link.id)) [
  | inl on_left ↦
      let same : record s { left_link = g } ≡ t = ground arith in
      subst (λ y. held_in y ≡ held_in s) same refl
  | inr on_right ↦
      let same : record s { right_link = g } ≡ t = ground arith in
      subst (λ y. held_in y ≡ held_in s) same refl
]

one_delivery_laws : ConsumptionLaws side_rows two_deliveries delete_any held_in
one_delivery_laws = record {
  held_by_id = row_kept_by_id;
  delivery_read = row_given;
  delivery_saved = row_saved;
  grant_read = λ hash s t g h. view_kept s t (ground arith);
  grant_saved = link_saved;
  grants_ended = λ id now s t u h. view_kept s t (ground arith);
  secret_deleted = λ id p s t u h. view_kept s t (ground arith);
  leaf_record_read = λ id s t l h. view_kept s t (ground arith);
  series_read = λ id s t l h. view_kept s t (ground arith);
  audited = λ event scope s t u h. view_kept s t (ground arith);
  id_made = λ s t id h. view_kept s t (ground arith);
}

abbrev link_of : Text → String → Text → DownloadGrant
link_of id hash delivery = record {
  id = id;
  token_hash = record { fingerprint = record { hex = bytes hash } };
  purpose = leaf_private;
  certificate_id = id_c;
  delivery_id = delivery;
  created_by = id_a;
  expires_at = at 1000;
  consumed_at = unset;
  invalidated_at = unset;
  version = pos 1;
}

abbrev both_pending : TwoDeliveries
both_pending = record {
  left_row = fresh_delivery;
  right_row = record fresh_delivery { id = id_b };
  left_link = link_of id_a "0a" id_a;
  right_link = link_of id_b "0b" id_b;
}

abbrev prep_of : String → PreparedDelivery
prep_of hash = record {
  token_hash = record { fingerprint = record { hex = bytes hash } };
  purpose = leaf_private;
  certificate = signer_certificate;
}

abbrev left_moving : Delivery
left_moving = record fresh_delivery { state = transferring; consumed_at = at 200; version = pos 1 }

abbrev right_moving : Delivery
right_moving = record left_moving { id = id_b; consumed_at = at 300 }

abbrev left_used : DownloadGrant
left_used = record (link_of id_a "0a" id_a) { consumed_at = at 200; version = pos 2 }

abbrev right_used : DownloadGrant
right_used = record (link_of id_b "0b" id_b) { consumed_at = at 300; version = pos 2 }

abbrev one_moving : TwoDeliveries
one_moving = record both_pending { left_row = left_moving; left_link = left_used }

abbrev both_moving : TwoDeliveries
both_moving = record one_moving { right_row = right_moving; right_link = right_used }

left_out :
    commit_consumption_tx side_rows two_deliveries delete_any
      (at 200)
      []
      (prep_of "0a")
      both_pending
    ≡ gave (record { grant = left_used; delivery = some left_moving }, one_moving)
unfolding commit_consumption_tx read_grant or_absent text_eq validate_grant grant_is_invalidated
    is_zero grant_is_consumed is_expired_at grant_purpose_eq leaf_management_authority
    consume_for_purpose consume_private read_delivery row_of can_receive consume_grant receive
    classify_store_error code_of_failure fields_of_failure from_domain_error is_store_fault
    kind_of_failure new_app_error store_error with_public_field wrap_app_error add64 wrap64 ◌+ℤ◌
    append_distribution_audit consume_public distribution_event contains_text
    new_authorities_audit_scope unique_ids or_store_error next before
left_out = refl

right_out :
    commit_consumption_tx side_rows two_deliveries delete_any (at 300) [] (prep_of "0b") one_moving
    ≡ gave (record { grant = right_used; delivery = some right_moving }, both_moving)
unfolding commit_consumption_tx read_grant or_absent text_eq validate_grant grant_is_invalidated
    is_zero grant_is_consumed is_expired_at grant_purpose_eq leaf_management_authority
    consume_for_purpose consume_private read_delivery row_of can_receive consume_grant receive
    classify_store_error code_of_failure fields_of_failure from_domain_error is_store_fault
    kind_of_failure new_app_error store_error with_public_field wrap_app_error add64 wrap64 ◌+ℤ◌
    append_distribution_audit consume_public distribution_event contains_text
    new_authorities_audit_scope unique_ids or_store_error next before
right_out = refl

consume_once_example : right_moving.id ≢ left_moving.id
consume_once_example =
    consume_once side_rows two_deliveries delete_any held_in one_delivery_laws (at 200) []
      (prep_of "0a") (record { grant = left_used; delivery = some left_moving }) left_moving
      both_pending one_moving left_out refl (at 300) [] (prep_of "0b")
      (record { grant = right_used; delivery = some right_moving }) right_moving one_moving
      both_moving refl right_out refl
