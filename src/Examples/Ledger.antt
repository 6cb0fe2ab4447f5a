-- ===== src/Examples/Ledger.antt =====
-- internal/domain/revocation.go, the ledger, at concrete inputs.
use cert_me.Prelude.{[], false, refl, true, ◌≡◌}
use cert_me.Errors.{ok}
use cert_me.Examples.Samples.{at, id_a, id_b, id_c}
use cert_me.Prelude.Int.{add64, pos, wrap64, ◌+ℤ◌}
use cert_me.Prelude.Star.{done, more}
use cert_me.Prelude.Text.{bytes, text_eq}
use cert_me.Revocation.{
  Revocation, RevocationFacts, correct, imported, key_compromise, manual, merge, merge_checked,
  reason_eq, same_facts, same_key, superseded, validate_reason, validate_source,
}
use cert_me.Revocation.Ledger.{Later, Merged, corrected, ledger_row_kept, merge-Merged, merged}
use cert_me.Values.Hex.{serial_eq}
use cert_me.Values.Ids.{next}
use cert_me.Values.Instant.{add, after, is_zero}

abbrev row : Revocation
row = record {
  id = id_a;
  issuer_id = id_b;
  serial = record { hex = bytes "1f" };
  certificate_id = [];
  revoked_at = at 100;
  reason = key_compromise;
  source = manual;
  change_generation = pos 1;
  needs_review = false;
  version = pos 1;
}

-- Another reason for the same serial.
abbrev other_claim : RevocationFacts
other_claim = record row { id = id_c; reason = superseded; source = imported }

abbrev flagged : Revocation
flagged = record row { needs_review = true; version = pos 2 }

row_flagged : merge row other_claim ≡ ok (flagged, true)
unfolding merge validate_reason validate_source is_zero same_key text_eq serial_eq merge_checked
    same_facts reason_eq next add64 wrap64 ◌+ℤ◌
row_flagged = refl

merge-Merged_example : Merged row flagged true
merge-Merged_example = merge-Merged row flagged other_claim true row_flagged

abbrev corrected_row : Revocation
corrected_row = record flagged {
  reason = superseded;
  revoked_at = at 90;
  needs_review = false;
  version = pos 3;
}

row_corrected : correct flagged superseded (at 90) (bytes "superseded") (at 200) ≡ ok corrected_row
unfolding correct validate_reason is_zero after add add64 wrap64 ◌+ℤ◌ next
row_corrected = refl

ledger_row_kept_example : Later row corrected_row
ledger_row_kept_example = ledger_row_kept row corrected_row (
    more (merged other_claim true row_flagged)
      (more (corrected superseded (at 90) (at 200) (bytes "superseded") row_corrected) done))
