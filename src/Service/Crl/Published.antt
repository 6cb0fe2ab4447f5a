-- ===== src/Service/Crl/Published.antt =====
-- internal/app/service/crl.go, `finalizePublish`: which signed documents become the published one.
-- What the decision leaves for a document that is published: number and generation go forward, the
-- state is stored against the version that was read.
use cert_me.Prelude.{Bool, Bool-cases, arith, false, inl, inr, true, ◌≡◌, ◌⊎◌}
use cert_me.Errors.{Failure, Result-cases, err, ok}
use cert_me.Prelude.Int.{ltb_ℤ, ℤ}
use cert_me.Prelude.Text.{Text}
use cert_me.Revocation.Crl.{CrlState, can_publish, has_published, mark_published}
use cert_me.Service.Crl.{CrlReservation, is_conflict}
use cert_me.Service.Crl.Publish.{publish_document}
use cert_me.Service.Revoking.{LedgerPorts}
use cert_me.Store.{Reply-cases, gave, or_store_error}
use cert_me.Values.Hex.{CrlNumber, number_le}
use cert_me.Values.Instant.{Instant, after}

pub record Advanced {S : Type 0} (ports : LedgerPorts S) (state after : CrlState)
    (document_id : Text) (r : CrlReservation) (s t : S) : Type 0 where
  pub number_ahead : has_published state ≡ true → number_le r.number state.published_number ≡ false
  pub generation_kept : ltb_ℤ r.covered_generation state.published_generation ≡ false
  pub number_stored : after.published_number ≡ r.number
  pub generation_stored : after.published_generation ≡ r.covered_generation
  pub document_stored : after.published_document_id ≡ document_id
  pub reserved_kept : after.max_reserved_number ≡ state.max_reserved_number
  pub saved : ports.crls.save_state after state.version s ≡ gave (tt, t)

mark_published_lem :
    (state after : CrlState) (id : Text) (number : CrlNumber) (covered : ℤ) (at : Instant)
    → mark_published state id number covered at ≡ ok after
    → (has_published state ≡ true → number_le number state.published_number ≡ false)
      × (ltb_ℤ covered state.published_generation ≡ false)
      × (after.published_number ≡ number)
      × (after.published_generation ≡ covered)
      × (after.published_document_id ≡ id)
      × (after.max_reserved_number ≡ state.max_reserved_number)
unfolding mark_published can_publish
mark_published_lem state after id number covered at h =
    (ground arith, ground arith, ground arith, ground arith, ground arith, ground arith)

-- The number or the generation of a document has been passed by the published one.
abbrev pub Superseded : CrlState → CrlReservation → Type 0
Superseded state r =
    ((has_published state ≡ true) × (number_le r.number state.published_number ≡ true))
    ⊎ (ltb_ℤ r.covered_generation state.published_generation ≡ true)

superseded_lem :
    (state : CrlState) (r : CrlReservation) (e : Failure)
    → can_publish state r.number r.covered_generation ≡ err e
    → is_conflict e ≡ true
    → Superseded state r
unfolding can_publish
superseded_lem state r e bad passed =
    elim (Bool-cases (ltb_ℤ r.covered_generation state.published_generation)) [
      | inl below ↦ inr below
      | inr kept ↦ inl (ground arith, ground arith)
    ]

advanced_lem :
    {S : Type 0} (ports : LedgerPorts S) (state after : CrlState) (document_id : Text)
    (r : CrlReservation) (s t : S) (went_out : Bool)
    → can_publish state r.number r.covered_generation ≡ ok tt
    → publish_document ports state document_id r s ≡ gave ((after, went_out), t)
    → (went_out ≡ true)
      × (mark_published state document_id r.number r.covered_generation r.next_publish_at
          ≡ ok after)
      × (ports.crls.save_state after state.version s ≡ gave (tt, t))
unfolding publish_document or_store_error
advanced_lem ports state after document_id r s t went_out may h =
    elim (Result-cases
      (mark_published state document_id r.number r.covered_generation r.next_publish_at)) [
        | inl (marked_state, marking) ↦
            elim (Reply-cases (ports.crls.save_state marked_state state.version s)) [
              | inl ((u, t1), saving) ↦ ground arith
              | inr (e, bad) ↦ ground arith
            ]
        | inr (e, bad) ↦ ground arith
      ]

-- The decision on a signed document: it is published, or the state refuses its number or generation
-- as one that has been passed, and then the state stays.
pub publish_document_lem :
    {S : Type 0} (ports : LedgerPorts S) (state after : CrlState) (document_id : Text)
    (r : CrlReservation) (s t : S) (went_out : Bool)
    → publish_document ports state document_id r s ≡ gave ((after, went_out), t)
    → ((went_out ≡ true) × Advanced ports state after document_id r s t)
      ⊎ ((went_out ≡ false) × Superseded state r × (after ≡ state) × (t ≡ s))
unfolding publish_document
publish_document_lem ports state after document_id r s t went_out h =
    elim (Result-cases (can_publish state r.number r.covered_generation)) [
      | inl (u, may) ↦ inl (
          let (out, marking, saving) =
            advanced_lem ports state after document_id r s t went_out may h in
          let (ahead, kept, number, generation, document, reserved_number) =
            mark_published_lem state after document_id r.number r.covered_generation
              r.next_publish_at marking in
          (
            out,
            record {
              number_ahead = ahead;
              generation_kept = kept;
              number_stored = number;
              generation_stored = generation;
              document_stored = document;
              reserved_kept = reserved_number;
              saved = saving;
            },
          ))
      | inr (e, bad) ↦
          inr
            (ground arith, superseded_lem state r e bad (ground arith), ground arith, ground arith)
    ]
