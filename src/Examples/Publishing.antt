-- ===== src/Examples/Publishing.antt =====
-- internal/domain/revocation.go, the publication of CRLs, at concrete inputs.
use cert_me.Prelude.{[], ap, false, refl, sym, ◌<◌, ◌≡◌}
use cert_me.Errors.{err, is_ok, not_permitted, ok, policy_error}
use cert_me.Examples.Samples.{at, id_a, id_b, id_c}
use cert_me.Prelude.Int.{add64, pos, wrap64, ◌+ℤ◌, ◌≤ℤ◌}
use cert_me.Prelude.Star.{done, more}
use cert_me.Prelude.Text.{bytes}
use cert_me.Revocation.Crl.{
  CrlState, active, bump_revocation_generation, can_publish, closed, has_published, inactive,
  mark_published, reserve_next, set_signing_certificate,
}
use cert_me.Revocation.Publishing.{
  Follows, bumped, closed_for_good, crl_never_regresses, publications_ordered, published,
  reserve_next_fresh, reserved,
}
use cert_me.Values.Hex.{CrlNumber, hex_text, increment, no_number, number_le, number_value}
use cert_me.Values.Ids.{next, parse_uuid}
use cert_me.Values.Instant.{is_zero, unset}

abbrev fresh : CrlState
fresh = record {
  ca_key_generation_id = id_a;
  max_reserved_number = no_number;
  revocation_generation = pos 1;
  published_document_id = [];
  published_number = no_number;
  published_generation = pos 0;
  next_publish_at = unset;
  publication_state = inactive;
  signing_ca_certificate_id = id_c;
  version = pos 0;
}

abbrev number_one : CrlNumber
number_one = record { hex = bytes "1" }

abbrev number_two : CrlNumber
number_two = record { hex = bytes "2" }

abbrev reserved_one : CrlState
reserved_one = record fresh { max_reserved_number = number_one; version = pos 1 }

abbrev published_one : CrlState
published_one = record reserved_one {
  published_document_id = id_b;
  published_number = number_one;
  published_generation = pos 1;
  next_publish_at = at 500;
  publication_state = active;
  version = pos 2;
}

abbrev reserved_two : CrlState
reserved_two = record published_one { max_reserved_number = number_two; version = pos 3 }

abbrev published_two : CrlState
published_two = record reserved_two {
  published_document_id = id_c;
  published_number = number_two;
  next_publish_at = at 900;
  version = pos 4;
}

one_reserved : reserve_next fresh ≡ (number_one, reserved_one)
unfolding reserve_next increment next hex_text add64 number_value wrap64 ◌+ℤ◌
one_reserved = refl

one_published : mark_published reserved_one id_b number_one (pos 1) (at 500) ≡ ok published_one
unfolding mark_published parse_uuid can_publish has_published is_zero next add64 wrap64 ◌+ℤ◌
one_published = refl

two_reserved : reserve_next published_one ≡ (number_two, reserved_two)
unfolding reserve_next increment next hex_text add64 number_value wrap64 ◌+ℤ◌
two_reserved = refl

two_published : mark_published reserved_two id_c number_two (pos 1) (at 900) ≡ ok published_two
unfolding mark_published parse_uuid can_publish has_published number_le is_zero next add64 wrap64
    ◌+ℤ◌
two_published = refl

crl_never_regresses_example : Follows fresh published_one
crl_never_regresses_example = crl_never_regresses fresh published_one (
    more (reserved (sym (ap (λ r. r.1) one_reserved)))
      (more (published id_b number_one (pos 1) (at 500) one_published) done))

publications_ordered_example :
    (number_value number_one < number_value number_two) × (pos 1 ≤ℤ pos 1)
publications_ordered_example =
    publications_ordered reserved_one published_one reserved_two published_two id_b id_c number_one
      number_two (pos 1) (pos 1) (at 500) (at 900) one_published
      (more (reserved (sym (ap (λ r. r.1) two_reserved))) done) two_published

reserve_next_fresh_example :
    number_value (reserve_next fresh).0 < number_value (reserve_next (reserve_next fresh).1).0
reserve_next_fresh_example = reserve_next_fresh fresh (reserve_next fresh).1 done

abbrev shut : CrlState
shut = record published_two { publication_state = closed; version = pos 5 }

abbrev bumped_shut : CrlState
bumped_shut = record shut { revocation_generation = pos 2; version = pos 6 }

shut_bumped : bumped_shut ≡ bump_revocation_generation shut
unfolding bump_revocation_generation add64 next wrap64 ◌+ℤ◌
shut_bumped = refl

closed_for_good_example :
    (can_publish bumped_shut number_two (pos 2)
      ≡ err (policy_error not_permitted "crl_publication_closed"))
    × (is_ok (mark_published bumped_shut id_b number_two (pos 2) (at 900)) ≡ false)
    × (is_ok (set_signing_certificate bumped_shut id_b) ≡ false)
closed_for_good_example =
    closed_for_good shut bumped_shut id_b number_two (pos 2) (at 900) refl
      (more (bumped shut_bumped) done)
