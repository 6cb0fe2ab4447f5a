-- ===== src/Revocation/Ledger.antt =====
-- internal/domain/revocation.go: `Merge`, `Correct` and `StampChangeGeneration` on one row of the ledger, and
-- as a step relation.
use cert_me.Prelude.{
  Bool, Bool-cases, [], ap, arith, false, inl, inr, refl, true, ◌↔◌, ◌∙◌, ◌≡◌, ◌≢◌, ◌⊎◌,
}
use cert_me.Errors.{ok}
use cert_me.Prelude.Int.{ℤ, ◌≤ℤ◌}
use cert_me.Prelude.Star.{Star, Star-keeps}
use cert_me.Prelude.Text.{Text, is_empty, is_empty_iff, text_eq_iff}
use cert_me.Revocation.{
  Revocation, RevocationFacts, RevocationReason, aa_compromise, affiliation_changed, ca_compromise,
  cessation_of_operation, correct, key_compromise, merge, merge_checked, privilege_withdrawn,
  reason_eq, same_facts, same_key, stamp_change_generation, superseded, unspecified,
}
use cert_me.Values.Ids.{next}
use cert_me.Values.Instant.{Instant, add, after, equal, is_zero, minutes}

-- The row is for the same certificate serial of the same issuer, and a certificate link that was
-- there is kept.
pub record SameRow (r s : Revocation) : Type 0 where
  pub id : s.id ≡ r.id
  pub issuer : s.issuer_id ≡ r.issuer_id
  pub serial : s.serial ≡ r.serial
  pub source : s.source ≡ r.source
  pub link : is_empty r.certificate_id ≡ false → s.certificate_id ≡ r.certificate_id

-- What a merge leaves: the asserted facts stand, the flag for review is never lifted, and the
-- version moves exactly if something changed.
pub record Merged (r s : Revocation) (changed : Bool) : Type 0 where
  pub row : SameRow r s
  pub time : s.revoked_at ≡ r.revoked_at
  pub reason : s.reason ≡ r.reason
  pub generation : s.change_generation ≡ r.change_generation
  pub flag : r.needs_review ≡ true → s.needs_review ≡ true
  pub same : changed ≡ false → s ≡ r
  pub moved : changed ≡ true → s.version ≡ next r.version

merge_checked-Merged :
    (r : Revocation) (incoming : RevocationFacts)
    → Merged r (merge_checked r incoming).0 (merge_checked r incoming).1
unfolding merge_checked
merge_checked-Merged r incoming = record {
  row = ground arith;
  time = ground arith;
  reason = ground arith;
  generation = ground arith;
  flag = λ f. ground arith;
  same = λ f. ground arith;
  moved = λ f. ground arith;
}

merge-checked :
    (r : Revocation) (incoming : RevocationFacts) {out : Revocation × Bool}
    → merge r incoming ≡ ok out
    → out ≡ merge_checked r incoming
unfolding merge
merge-checked r incoming {out} h = ground arith

-- A successful merge never re-keys, overwrites or lifts a revocation, and reports whether it changed
-- the row.
pub merge-Merged :
    (r s : Revocation) (incoming : RevocationFacts) (changed : Bool)
    → merge r incoming ≡ ok (s, changed)
    → Merged r s changed
merge-Merged r s incoming changed h =
    let e = merge-checked r incoming h in
    rw (ap (λ (o : Revocation × Bool). o.0) e, ap (λ (o : Revocation × Bool). o.1) e)
      (merge_checked-Merged r incoming)

reason_eq_iff : (a b : RevocationReason) → (reason_eq a b ≡ true) ↔ (a ≡ b)
unfolding reason_eq
reason_eq_iff (RevocationReason.unlisted a) (RevocationReason.unlisted b) =
    ground (arith, text_eq_iff a b)
reason_eq_iff (RevocationReason.unlisted a) b = ground arith
reason_eq_iff unspecified b = ground arith
reason_eq_iff key_compromise b = ground arith
reason_eq_iff ca_compromise b = ground arith
reason_eq_iff affiliation_changed b = ground arith
reason_eq_iff superseded b = ground arith
reason_eq_iff cessation_of_operation b = ground arith
reason_eq_iff privilege_withdrawn b = ground arith
reason_eq_iff aa_compromise b = ground arith

same_facts_iff :
    (r : Revocation) (incoming : RevocationFacts)
    → (same_facts r incoming ≡ true)
      ↔ ((r.reason ≡ incoming.reason) × (r.revoked_at ≡ incoming.revoked_at))
unfolding same_facts equal
same_facts_iff r incoming = (
  λ h. ground (arith, reason_eq_iff r.reason incoming.reason),
  λ h. ground (arith, reason_eq_iff r.reason incoming.reason),
)

not_same :
    (r : Revocation) (incoming : RevocationFacts)
    → (r.reason ≢ incoming.reason) ⊎ (r.revoked_at ≢ incoming.revoked_at)
    → same_facts r incoming ≡ false
not_same r incoming (inl d) = elim (Bool-cases (same_facts r incoming)) [
  | inl e ↦ absurd (d ((same_facts_iff r incoming).0 e).0)
  | inr e ↦ e
]
not_same r incoming (inr d) = elim (Bool-cases (same_facts r incoming)) [
  | inl e ↦ absurd (d ((same_facts_iff r incoming).0 e).1)
  | inr e ↦ e
]

-- A successful merge of an assertion with another reason or time leaves the reason and the time of
-- the row, and the row is flagged for review.
pub merge_conflict :
    (r s : Revocation) (incoming : RevocationFacts) (changed : Bool)
    → merge r incoming ≡ ok (s, changed)
    → (r.reason ≢ incoming.reason) ⊎ (r.revoked_at ≢ incoming.revoked_at)
    → (s.needs_review ≡ true) × (s.reason ≡ r.reason) × (s.revoked_at ≡ r.revoked_at)
unfolding merge_checked
merge_conflict r s incoming changed h differ =
    let e = merge-checked r incoming h in
    let differs : same_facts r incoming ≡ false = not_same r incoming differ in
    let m = merge-Merged r s incoming changed h in (ground arith, m.reason, m.time)

merge_checked_twice :
    (r : Revocation) (incoming : RevocationFacts)
    → let s = (merge_checked r incoming).0 in merge_checked s incoming ≡ (s, false)
unfolding merge_checked same_facts
merge_checked_twice r incoming = ground arith

-- Merging the same assertion a second time changes nothing.
pub merge_twice :
    (r s : Revocation) (incoming : RevocationFacts) (changed : Bool)
    → merge r incoming ≡ ok (s, changed)
    → merge s incoming ≡ ok (s, false)
unfolding merge same_key
merge_twice r s incoming changed h =
    let m = merge-Merged r s incoming changed h in
    let e = merge-checked r incoming h in
    ground (arith, m.row.issuer, m.row.serial, merge_checked_twice r incoming)

-- A correction that succeeds takes the reason and the time as given, lifts the flag for review, and
-- keeps the row; the time is set, and is not after the sum of `now` and five minutes.
pub correct_lem :
    (r s : Revocation) (reason : RevocationReason) (time now : Instant) (justification : Text)
    → correct r reason time justification now ≡ ok s
    → SameRow r s
      × (s.reason ≡ reason)
      × (s.revoked_at ≡ time)
      × (s.needs_review ≡ false)
      × (s.version ≡ next r.version)
      × (is_zero time ≡ false)
      × (justification ≢ [])
      × (after time (add now (minutes 5)) ≡ false)
unfolding correct
correct_lem r s reason time now justification h = (
  record {
    id = ground arith;
    issuer = ground arith;
    serial = ground arith;
    source = ground arith;
    link = λ f. ground arith;
  },
  ground arith,
  ground arith,
  ground arith,
  ground arith,
  ground arith,
  λ e. ground (arith, is_empty_iff justification),
  ground arith,
)

-- The calls that write a row that exists.
pub data Step (r : Revocation) (s : Revocation) : Type 0 where
  merged :
      (incoming : RevocationFacts) (changed : Bool) → merge r incoming ≡ ok (s, changed) → Step r s
  corrected :
      (reason : RevocationReason) (time now : Instant) (justification : Text)
      → correct r reason time justification now ≡ ok s
      → Step r s
  stamped : (generation : ℤ) → stamp_change_generation r generation ≡ ok s → Step r s

-- The row is the same, and its generation has not gone back.
pub record Later (r s : Revocation) : Type 0 where
  pub row : SameRow r s
  pub generation : r.change_generation ≤ℤ s.change_generation

step-Later : (r s : Revocation) → Step r s → Later r s
step-Later r s (merged incoming changed h) =
    let m = merge-Merged r s incoming changed h in
    record { row = m.row; generation = ground (arith, m.generation) }
step-Later r s (corrected reason time now justification h) = record {
  row = (correct_lem r s reason time now justification h).0;
  generation = unfold correct in ground arith;
}
step-Later r s (stamped generation h) =
    unfold stamp_change_generation in
    record {
      row = record {
        id = ground arith;
        issuer = ground arith;
        serial = ground arith;
        source = ground arith;
        link = λ f. ground arith;
      };
      generation = ground arith;
    }

Later-trans : (r s t : Revocation) → Later r s → Later s t → Later r t
Later-trans r s t p q = record {
  row = record {
    id = q.row.id ∙ p.row.id;
    issuer = q.row.issuer ∙ p.row.issuer;
    serial = q.row.serial ∙ p.row.serial;
    source = q.row.source ∙ p.row.source;
    link = λ f. ground (arith, p.row.link f, q.row.link);
  };
  generation = ground (arith, p.generation, q.generation);
}

-- Along any sequence of merges, corrections and stamps a row keeps its identifier, its issuer and
-- serial, its source and the certificate it is linked to, and its generation never goes back.
pub ledger_row_kept : (r s : Revocation) → Star Step r s → Later r s
ledger_row_kept r s steps =
    Star-keeps (λ x. Later r x) (λ x y st p. Later-trans r x y p (step-Later x y st)) steps start
  where
    start : Later r r
    start = record {
      row = record { id = refl; issuer = refl; serial = refl; source = refl; link = λ f. refl };
      generation = omega arith;
    }
