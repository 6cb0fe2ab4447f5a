-- ===== src/Service/Recovery/Ending.antt =====
-- internal/app/service/recovery.go: the restart ends. Every batch that goes on has failed a delivery.
use cert_me.Prelude.{
  Bool, List, Option, [], arith, false, inl, inr, none, refl, some, subst, suc, sym, true, zero, ℕ,
  ◌<◌, ◌||◌, ◌∙◌, ◌∷◌, ◌≡◌, ◌≤◌, ◌⊎◌,
}
use cert_me.App.{Fault, store_error}
use cert_me.Delivery.{Delivery}
use cert_me.Prelude.Text.{Text}
use cert_me.Service.Recovery.{
  RecoveryOutcome, count_recovered, fail_interrupted_transfer, recover_batch, recover_transfers,
  recovery_batch_size,
}
use cert_me.Service.Recovery.Draining.{Draining, one_lem, one_refused}
use cert_me.Service.Revoking.{LedgerPorts}
use cert_me.Store.{Reply, Reply-cases, gave, read, refused}
use cert_me.Store.Pki.{DeliveryRepository}
use cert_me.Values.Instant.{Instant}

write_cases :
    {S A : Type 0} (r : Reply A × S)
    → ((a : A) × (t : S) × (r ≡ (gave a, t))) ⊎ ((e : Fault) × (t : S) × (r ≡ (refused e, t)))
write_cases (gave a, t) = inl (a, t, refl)
write_cases (refused e, t) = inr (e, t, refl)

less_fuel : {a b fuel : ℕ} → a < b → b < suc fuel → a < fuel
less_fuel less enough = omega arith

module _ {S : Type 0} (ports : LedgerPorts S) (deliveries : DeliveryRepository S) (waiting : S → ℕ)
    (drains : Draining ports deliveries waiting) where
  same_size : {s t : S} → t ≡ s → waiting t ≤ waiting s
  same_size {s} {t} h = subst (λ y. waiting y ≤ waiting s) {x = s} (sym h) (ground arith)

  batch_step :
      (now : Instant) (id : Text) (batch : List Delivery) (changed : Bool)
      (outcome counted : RecoveryOutcome) (before_it after_it : Bool) (problem : Option Fault)
      (s u t : S)
      → fail_interrupted_transfer ports deliveries id now s ≡ (gave changed, u)
      → (waiting t < waiting u) ⊎ ((after_it ≡ (before_it || changed)) × (waiting t ≤ waiting u))
      → (waiting t < waiting s) ⊎ ((after_it ≡ before_it) × (waiting t ≤ waiting s))
  batch_step now id batch changed outcome counted before_it after_it problem s u t run rest =
      elim (one_lem ports deliveries waiting drains id now changed s u run) [
        | inl (moved, less) ↦ elim rest [
          | inl lower ↦ inl (omega arith)
          | inr (flag, kept) ↦ inl (omega arith)
        ]
        | inr (stayed, same) ↦ elim rest [
          | inl lower ↦ inl (ground arith)
          | inr (flag, kept) ↦ inr (ground arith, ground arith)
        ]
      ]

  -- What a batch leaves: less than before if it has progressed.
  batch_lem :
      (now : Instant) (batch : List Delivery) (outcome counted : RecoveryOutcome)
      (before_it after_it : Bool) (problem : Option Fault) (s t : S)
      → recover_batch ports deliveries now batch outcome before_it s
        ≡ ((counted, after_it, problem), t)
      → (waiting t < waiting s) ⊎ ((after_it ≡ before_it) × (waiting t ≤ waiting s))
  unfolding recover_batch
  batch_lem now [] outcome counted before_it after_it problem s t h =
      inr (ground arith, same_size (ground arith))
  batch_lem now (d ∷ batch) outcome counted before_it after_it problem s t h =
      elim (write_cases (fail_interrupted_transfer ports deliveries d.id now s)) [
        | inl (changed, u, run) ↦
            batch_step now d.id batch changed outcome counted before_it after_it problem s u t run (
              batch_lem now batch (count_recovered ports deliveries changed outcome) counted
                (before_it || changed) after_it problem u t (ground arith))
        | inr (e, u, run) ↦ inr (
          ground arith,
          same_size
              (ground (arith, one_refused ports deliveries waiting drains d.id now e s u run)),
        )
      ]

  -- Whether the loop goes on after a batch, and then with fewer deliveries in transfer.
  going_on :
      (fuel : ℕ) (now : Instant) (outcome counted : RecoveryOutcome) (d : Delivery)
      (batch : List Delivery) (went_on : Bool) (problem : Option Fault) (s t : S)
      → read (deliveries.list_transferring recovery_batch_size) s ≡ gave (d ∷ batch)
      → recover_batch ports deliveries now (d ∷ batch) outcome false s
        ≡ ((counted, went_on, problem), t)
      → ((problem ≡ none)
          × (waiting t < waiting s)
          × (recover_transfers ports deliveries (suc fuel) now outcome s
              ≡ recover_transfers ports deliveries fuel now counted t))
        ⊎ ((r : (RecoveryOutcome × Option Fault) × S) × (recover_transfers ports deliveries
                (suc fuel)
                now
                outcome
                s
              ≡ some r))
  unfolding recover_transfers
  going_on fuel now outcome counted d batch went_on (some e) s t listed run =
      inr (((counted, some e), t), ground arith)
  going_on fuel now outcome counted d batch false none s t listed run =
      inr (((counted, none), t), ground arith)
  going_on fuel now outcome counted d batch true none s t listed run =
      elim (batch_lem now (d ∷ batch) outcome counted false true none s t run) [
        | inl less ↦ inl (refl, less, ground arith)
        | inr (stuck, kept) ↦ ground arith
      ]

  -- The restart ends, with an outcome, before it runs out of as many batches as one more than the number
  -- of deliveries in transfer.
  pub recover_transfers_ends :
      (fuel : ℕ) (now : Instant) (outcome : RecoveryOutcome) (s : S)
      → waiting s < fuel
      → (r : (RecoveryOutcome × Option Fault) × S) × (recover_transfers ports deliveries fuel now
            outcome s
          ≡ some r)
  unfolding recover_transfers
  recover_transfers_ends zero now outcome s enough = ground arith
  recover_transfers_ends (suc fuel) now outcome s enough =
      elim (Reply-cases (read (deliveries.list_transferring recovery_batch_size) s)) [
        | inr (e, bad) ↦ (((outcome, some (store_error e "recovery_list_failed")), s), ground arith)
        | inl ([], listed) ↦ (((outcome, none), s), ground arith)
        | inl (d ∷ batch, listed) ↦
            let ((counted, went_on, problem), t) =
              recover_batch ports deliveries now (d ∷ batch) outcome false s in
            elim (going_on fuel now outcome counted d batch went_on problem s t listed refl) [
              | inr over ↦ over
              | inl (fine, less, goes_on) ↦
                  let (r, end) =
                    recover_transfers_ends fuel now counted t (less_fuel less enough) in
                  (r, goes_on ∙ end)
            ]
      ]
