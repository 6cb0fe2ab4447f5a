-- ===== src/Values/Hex.antt =====
-- internal/domain/values.go: fingerprints, serial numbers and CRL numbers, which are kept as
-- lowercase hexadecimal texts, and the `big.Int` conversions that they use.
pub mod RoundTrip
pub mod Numbers
pub mod Counting
use cert_me.Prelude.{
  Bool, Option, [], false, if◌then◌else◌, leb, length, ltb, none, not, refl, some, suc, true, zero,
  ℕ, ◌%◌, ◌&&◌, ◌*◌, ◌+◌, ◌-◌, ◌/◌, ◌==◌, ◌∷◌, ◌≡◌,
}
use cert_me.Errors.{Check, Result, err, invalid_value, ok, reject_if, wrapped, ◌>>=◌, ◌>>◌}
use cert_me.Prelude.Int.{leb_ℤ, ltb_ℤ, pos, pos_part, ℤ}
use cert_me.Prelude.Text.{Text, bytes, is_empty, text_eq}
use cert_me.Values.Ids.{is_lower_hex_digit}

abbrev pub fingerprint_hex_length : ℕ
fingerprint_hex_length = 64

-- The loops of `ParseFingerprint` and `validateMinimalHex` over the bytes.
unfoldable pub all_lower_hex : Text → Bool
all_lower_hex [] = true
all_lower_hex (c ∷ s) = is_lower_hex_digit c && all_lower_hex s

pub record Fingerprint : Type 0 where
  pub hex : Text

unfoldable pub parse_fingerprint : Text → Result Fingerprint
unfolding all_lower_hex is_lower_hex_digit
parse_fingerprint raw = do
  reject_if (not (length raw == fingerprint_hex_length)) (wrapped invalid_value)
  reject_if (not (all_lower_hex raw)) (wrapped invalid_value)
  ok (record { hex = raw })

unfoldable pub fingerprint_eq : Fingerprint → Fingerprint → Bool
unfolding text_eq
fingerprint_eq f other = text_eq f.hex other.hex

abbrev pub fingerprint_is_zero : Fingerprint → Bool
fingerprint_is_zero f = is_empty f.hex

-- `TokenHash`
pub record TokenHash : Type 0 where
  pub fingerprint : Fingerprint

unfoldable pub new_token_hash : Fingerprint → Result TokenHash
new_token_hash digest = do
  reject_if (fingerprint_is_zero digest) (wrapped invalid_value)
  ok (record { fingerprint = digest })

unfoldable pub parse_token_hash : Text → Result TokenHash
unfolding parse_fingerprint
parse_token_hash raw = do digest ← parse_fingerprint raw; ok (record { fingerprint = digest })

abbrev pub token_hash_is_zero : TokenHash → Bool
token_hash_is_zero h = fingerprint_is_zero h.fingerprint

abbrev pub max_serial_hex_length : ℕ
max_serial_hex_length = 40

-- `len(raw) > 1 && raw[0] == '0'`
unfoldable pub has_leading_zero : Text → Bool
has_leading_zero [] = false
has_leading_zero (c ∷ []) = false
has_leading_zero (c ∷ d ∷ s) = c == b'0'

unfoldable pub validate_minimal_hex : Text → ℕ → Check
unfolding has_leading_zero all_lower_hex is_lower_hex_digit
validate_minimal_hex raw max_len = do
  reject_if (is_empty raw) (wrapped invalid_value)
  reject_if (ltb max_len (length raw)) (wrapped invalid_value)
  reject_if (has_leading_zero raw) (wrapped invalid_value)
  reject_if (not (all_lower_hex raw)) (wrapped invalid_value)

-- The value of a hexadecimal digit of either case, as `big.Int.SetString` reads it.
unfoldable pub digit_value : ℕ → ℕ
digit_value c = if leb c b'9' then c - b'0' else if leb b'a' c then c - b'a' + 10 else c - b'A' + 10

-- `n.SetString(hex, 16)`, which the callers make on validated digits only.
unfoldable pub read_hex : ℕ → Text → ℕ
read_hex n [] = n
read_hex n (c ∷ s) = read_hex (n * 16 + digit_value c) s

unfoldable pub digit_char : ℕ → ℕ
digit_char d = if ltb d 10 then b'0' + d else b'a' + (d - 10)

-- The digits of a number before those in `acc`; `fuel` bounds their count.
unfoldable pub hex_digits : ℕ → ℕ → Text → Text
hex_digits zero n acc = acc
hex_digits (suc fuel) n acc =
    let more = hex_digits fuel (n / 16) (digit_char (n % 16) ∷ acc) in if n == 0 then acc else more

-- `n.Text(16)` of a number that is not negative.
unfoldable pub hex_text : ℕ → Text
unfolding hex_digits digit_char
hex_text n = if n == 0 then b'0' ∷ [] else hex_digits n n []

pub record SerialNumber : Type 0 where
  pub hex : Text

unfoldable pub parse_serial_number : Text → Result SerialNumber
parse_serial_number raw = do
  validate_minimal_hex raw max_serial_hex_length
  reject_if (text_eq raw (b'0' ∷ [])) (wrapped invalid_value)
  ok (record { hex = raw })

-- `NewSerialNumberFromBig`; `none` is a nil pointer.
unfoldable pub new_serial_number_from_big : Option ℤ → Result SerialNumber
new_serial_number_from_big none = err (wrapped invalid_value)
new_serial_number_from_big (some n) = do
  reject_if (leb_ℤ n (pos 0)) (wrapped invalid_value)
  parse_serial_number (hex_text (pos_part n))

abbrev pub serial_is_zero : SerialNumber → Bool
serial_is_zero s = is_empty s.hex

-- `Big`, of a serial number and of a CRL number.
unfoldable pub big : Text → ℕ
unfolding read_hex digit_value
big [] = 0
big (c ∷ s) = read_hex 0 (c ∷ s)

-- `SerialNumber.Equal`
unfoldable pub serial_eq : SerialNumber → SerialNumber → Bool
unfolding text_eq
serial_eq s other = text_eq s.hex other.hex

pub record CrlNumber : Type 0 where
  pub hex : Text

-- `CRLNumber{}`
abbrev pub no_number : CrlNumber
no_number = record { hex = [] }

unfoldable pub parse_crl_number : Text → Result CrlNumber
parse_crl_number raw = do validate_minimal_hex raw max_serial_hex_length; ok (record { hex = raw })

unfoldable pub new_crl_number_from_big : Option ℤ → Result CrlNumber
new_crl_number_from_big none = err (wrapped invalid_value)
new_crl_number_from_big (some n) = do
  reject_if (ltb_ℤ n (pos 0)) (wrapped invalid_value)
  parse_crl_number (hex_text (pos_part n))

abbrev pub number_is_zero : CrlNumber → Bool
number_is_zero c = is_empty c.hex

-- `CRLNumber.Big`
unfoldable pub number_value : CrlNumber → ℕ
unfolding big
number_value c = big c.hex

-- `c.Compare(other) <= 0`
unfoldable pub number_le : CrlNumber → CrlNumber → Bool
unfolding number_value
number_le c other = leb (number_value c) (number_value other)

-- `CRLNumber.Increment`
unfoldable pub increment : CrlNumber → CrlNumber
increment c = record { hex = hex_text (number_value c + 1) }

increment_test : increment (record { hex = bytes "9ff" }) ≡ record { hex = bytes "a00" }
unfolding increment number_value hex_text
increment_test = refl
