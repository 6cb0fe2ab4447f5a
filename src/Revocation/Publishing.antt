-- ===== src/Revocation/Publishing.antt =====
-- internal/domain/revocation.go: the operations on `CRLState` as a step relation.
use cert_me.Prelude.{arith, false, inl, inr, true, ◌<◌, ◌≡◌, ◌≤◌}
use cert_me.Errors.{Result-cases, err, is_ok, not_permitted, ok, policy_error}
use cert_me.Prelude.Int.{ℤ, ◌≤ℤ◌}
use cert_me.Prelude.Star.{Star, Star-keeps}
use cert_me.Prelude.Text.{Text}
use cert_me.Revocation.Crl.{
  CrlClosureFacts, CrlState, bump_revocation_generation, can_publish, close_crl, has_published,
  is_closed, mark_published, observe_imported_number, reserve_next, set_signing_certificate,
}
use cert_me.Values.Hex.{CrlNumber, number_le, number_value}
use cert_me.Values.Hex.Counting.{value-increment}
use cert_me.Values.Ids.{check_id, filled-check_id}
use cert_me.Values.Instant.{Instant}

pub data Step (c : CrlState) (d : CrlState) : Type 0 where
  bumped : d ≡ bump_revocation_generation c → Step c d
  reserved : d ≡ (reserve_next c).1 → Step c d
  observed : (number : CrlNumber) → d ≡ (observe_imported_number c number).0 → Step c d
  published :
      (document : Text) (number : CrlNumber) (covered : ℤ) (at : Instant)
      → mark_published c document number covered at ≡ ok d
      → Step c d
  signed_by : (certificate : Text) → set_signing_certificate c certificate ≡ ok d → Step c d
  ended : (facts : CrlClosureFacts) → close_crl c facts ≡ ok d → Step c d

-- `d` is no further back than `c`.
pub record Follows (c d : CrlState) : Type 0 where
  pub reserved : number_value c.max_reserved_number ≤ number_value d.max_reserved_number
  pub number :
      has_published c ≡ true → number_value c.published_number ≤ number_value d.published_number
  pub generation : c.published_generation ≤ℤ d.published_generation
  pub still_published : has_published c ≡ true → has_published d ≡ true
  pub still_closed : is_closed c.publication_state ≡ true → is_closed d.publication_state ≡ true

-- What a publication that succeeded had to satisfy, and what it leaves.
pub record Published (c d : CrlState) (number : CrlNumber) (covered : ℤ) : Type 0 where
  pub was_open : is_closed c.publication_state ≡ false
  pub above : has_published c ≡ true → number_value c.published_number < number_value number
  pub not_behind : c.published_generation ≤ℤ covered
  pub written : d.published_number ≡ number
  pub generation : d.published_generation ≡ covered
  pub reserved : d.max_reserved_number ≡ c.max_reserved_number
  pub marked : has_published d ≡ true

mark_published-Published :
    (c d : CrlState) (document : Text) (number : CrlNumber) (covered : ℤ) (at : Instant)
    → mark_published c document number covered at ≡ ok d
    → Published c d number covered
unfolding mark_published can_publish number_le
mark_published-Published c d document number covered at h = record {
  was_open = ground arith;
  above = λ p. ground arith;
  not_behind = ground arith;
  written = ground arith;
  generation = ground arith;
  reserved = ground arith;
  marked = unfold has_published in ground (arith, filled-check_id document);
}

step-Follows : (c d : CrlState) → Step c d → Follows c d
unfolding bump_revocation_generation reserve_next observe_imported_number set_signing_certificate
    close_crl mark_published can_publish has_published number_le
step-Follows c d (bumped e) = ground arith
step-Follows c d (reserved e) = ground (arith, value-increment c.max_reserved_number)
step-Follows c d (observed number e) = ground arith
step-Follows c d (published document number covered at h) =
    let p = mark_published-Published c d document number covered at h in
    record {
      reserved = ground (arith, p.reserved);
      number = λ q. ground (arith, p.above q, p.written);
      generation = ground (arith, p.not_behind, p.generation);
      still_published = λ q. p.marked;
      still_closed = λ q. ground (arith, p.was_open);
    }
step-Follows c d (signed_by certificate h) = ground arith
step-Follows c d (ended facts h) = ground arith

Follows-trans : (c d e : CrlState) → Follows c d → Follows d e → Follows c e
Follows-trans c d e p q = record {
  reserved = ground (arith, p.reserved, q.reserved);
  number = λ h. ground (arith, p.number h, q.number (p.still_published h));
  generation = ground (arith, p.generation, q.generation);
  still_published = λ h. q.still_published (p.still_published h);
  still_closed = λ h. q.still_closed (p.still_closed h);
}

-- Along any sequence of operations the reserved number, the published number and the published
-- generation never decrease, and a closed publication stays closed.
pub crl_never_regresses : (c d : CrlState) → Star Step c d → Follows c d
crl_never_regresses c d steps =
    Star-keeps (λ x. Follows c x) (λ x y st p. Follows-trans c x y p (step-Follows x y st)) steps
      start
  where
    start : Follows c c
    start = record {
      reserved = omega arith;
      number = λ h. omega arith;
      generation = omega arith;
      still_published = λ h. h;
      still_closed = λ h. h;
    }

-- A number that was reserved is below every number that is reserved later, whatever happened in
-- between: it is never handed out again, published or not.
pub reserve_next_fresh :
    (c d : CrlState)
    → Star Step (reserve_next c).1 d
    → number_value (reserve_next c).0 < number_value (reserve_next d).0
unfolding reserve_next
reserve_next_fresh c d steps = omega (
  arith,
  (crl_never_regresses (reserve_next c).1 d steps).reserved,
  value-increment d.max_reserved_number,
)

-- Of two publications, with any operations between them, the later one has the greater number and
-- covers no older generation.
pub publications_ordered :
    (c c' d d' : CrlState) (document document' : Text) (number number' : CrlNumber)
    (covered covered' : ℤ) (at at' : Instant)
    → mark_published c document number covered at ≡ ok c'
    → Star Step c' d
    → mark_published d document' number' covered' at' ≡ ok d'
    → (number_value number < number_value number') × (covered ≤ℤ covered')
publications_ordered c c' d d' document document' number number' covered covered' at at' first steps
      second =
    let p = mark_published-Published c c' document number covered at first in
    let f = crl_never_regresses c' d steps in
    let q = mark_published-Published d d' document' number' covered' at' second in
    (
      ground (arith, p.written, f.number p.marked, q.above (f.still_published p.marked)),
      ground (arith, p.generation, f.generation, q.not_behind),
    )

-- Once publication is closed, no operation publishes a CRL or changes the signing certificate.
pub closed_for_good :
    (c d : CrlState) (document : Text) (number : CrlNumber) (covered : ℤ) (at : Instant)
    → is_closed c.publication_state ≡ true
    → Star Step c d
    → (can_publish d number covered ≡ err (policy_error not_permitted "crl_publication_closed"))
      × (is_ok (mark_published d document number covered at) ≡ false)
      × (is_ok (set_signing_certificate d document) ≡ false)
unfolding can_publish mark_published set_signing_certificate
closed_for_good c d document number covered at h steps =
    let f = (crl_never_regresses c d steps).still_closed h in
    elim (Result-cases (check_id document)) [
      | inl (u, e) ↦ (ground arith, ground arith, ground arith)
      | inr (x, e) ↦ (ground arith, ground arith, ground arith)
    ]
