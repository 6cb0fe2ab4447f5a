-- ===== src/Examples/Names.antt =====
-- internal/domain/values.go and the DNS names of certificate.go at concrete inputs.
use cert_me.Prelude.{List, [], arith, false, length, refl, true, ◌+◌, ◌<◌, ◌^◌, ◌↔◌, ◌≡◌, ◌≢◌, ◌≤◌}
use cert_me.Certificate.{validate_dns_san_value}
use cert_me.Certificate.Dns.{Labels, join_dots}
use cert_me.Certificate.HostNames.{validate_dns_iff}
use cert_me.Errors.{ok}
use cert_me.Prelude.Text.{Text, bytes}
use cert_me.Values.Hex.{
  CrlNumber, all_lower_hex, big, has_leading_zero, hex_text, increment, number_value,
  parse_crl_number,
}
use cert_me.Values.Hex.Counting.{parse-increment}
use cert_me.Values.Hex.RoundTrip.{hex_text-big}
use cert_me.Values.Ids.{is_lower_hex_digit}

validate_dns_iff_example : (validate_dns_san_value (bytes "*.example.org") ≡ ok tt) ↔ (
    (length (bytes "*.example.org") ≤ 253)
    × ((ls : List Text) × (bytes "*.example.org" ≡ join_dots ls) × (2 ≤ length ls) × Labels ls))
validate_dns_iff_example = validate_dns_iff (bytes "*.example.org")

abbrev number_ff : CrlNumber
number_ff = record { hex = bytes "ff" }

parse-increment_example :
    (parse_crl_number (increment number_ff).hex ≡ ok (increment number_ff))
    ↔ (number_value number_ff + 1 < 16 ^ 40)
parse-increment_example = parse-increment number_ff

ff_filled : bytes "ff" ≢ []
ff_filled = λ e. ground arith

ff_lower : all_lower_hex (bytes "ff") ≡ true
unfolding all_lower_hex is_lower_hex_digit
ff_lower = refl

ff_leading : has_leading_zero (bytes "ff") ≡ false
unfolding has_leading_zero
ff_leading = refl

hex_text-big_example : hex_text (big (bytes "ff")) ≡ bytes "ff"
hex_text-big_example = hex_text-big (bytes "ff") ff_lower ff_leading ff_filled
