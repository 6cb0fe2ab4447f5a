-- ===== src/Values/Hex/Counting.antt =====
-- internal/domain/values.go: serial numbers and CRL numbers as the integers that they write.
use cert_me.Prelude.{ap, arith, some, sym, true, ℕ, ◌+◌, ◌<◌, ◌^◌, ◌↔◌, ◌∙◌, ◌≡◌}
use cert_me.Errors.{ok}
use cert_me.Prelude.Int.{pos}
use cert_me.Prelude.Text.{Text, text_eq_iff}
use cert_me.Values.Hex.{
  CrlNumber, SerialNumber, big, hex_text, increment, new_crl_number_from_big, number_value,
  parse_crl_number, parse_serial_number, serial_eq,
}
use cert_me.Values.Hex.Numbers.{IsMinimalHex, IsMinimalHex-hex_text, validate_minimal_hex_iff}
use cert_me.Values.Hex.RoundTrip.{big-hex_text, hex_text-big}

valid_serial : (s : SerialNumber) → parse_serial_number s.hex ≡ ok s → IsMinimalHex 40 s.hex
unfolding parse_serial_number
valid_serial s h = (validate_minimal_hex_iff 40 s.hex).0 (ground arith)

printed : {n : ℕ} {s : Text} → IsMinimalHex n s → hex_text (big s) ≡ s
printed {s = s} v = hex_text-big s v.lower v.no_leading_zero v.filled

-- Two serial numbers that passed validation are `Equal` exactly if they are the same integer.

pub serial_eq_iff :
    (s t : SerialNumber)
    → parse_serial_number s.hex ≡ ok s
    → parse_serial_number t.hex ≡ ok t
    → (serial_eq s t ≡ true) ↔ (big s.hex ≡ big t.hex)
unfolding serial_eq
serial_eq_iff s t hs ht = (
  λ e. ap big ((text_eq_iff s.hex t.hex).0 e),
  λ e.
      (text_eq_iff s.hex t.hex).1
        (sym (printed (valid_serial s hs)) ∙ ap hex_text e ∙ printed (valid_serial t ht)),
)

-- `Increment` adds one to the number, whatever its text.
pub value-increment : (c : CrlNumber) → number_value (increment c) ≡ number_value c + 1
unfolding increment number_value
value-increment c = big-hex_text (big c.hex + 1)

valid_number : (s : Text) {c : CrlNumber} → parse_crl_number s ≡ ok c → IsMinimalHex 40 s
unfolding parse_crl_number
valid_number s h = (validate_minimal_hex_iff 40 s).0 (ground arith)

parse_valid : (s : Text) → IsMinimalHex 40 s → parse_crl_number s ≡ ok (record { hex = s })
unfolding parse_crl_number
parse_valid s v = rw ((validate_minimal_hex_iff 40 s).1 v)

-- The incremented number is a valid CRL number unless it needs a 41st digit.
pub parse-increment :
    (c : CrlNumber)
    → (parse_crl_number (increment c).hex ≡ ok (increment c)) ↔ (number_value c + 1 < 16 ^ 40)
unfolding increment
parse-increment c = (
  λ h. (IsMinimalHex-hex_text 39 (number_value c + 1)).0 (valid_number (increment c).hex h),
  λ h. parse_valid (increment c).hex ((IsMinimalHex-hex_text 39 (number_value c + 1)).1 h),
)

-- `NewCRLNumberFromBig` accepts exactly the integers from 0 to 16 ^ 40 - 1, and keeps their value.
pub new_crl_number_from_big_lem :
    (n : ℕ)
    → n < 16 ^ 40
    → (c : CrlNumber) × (new_crl_number_from_big (some (pos n)) ≡ ok c) × (number_value c ≡ n)
unfolding new_crl_number_from_big number_value
new_crl_number_from_big_lem n h = (
  record { hex = hex_text n },
  ground (arith, parse_valid (hex_text n) ((IsMinimalHex-hex_text 39 n).1 h)),
  big-hex_text n,
)
