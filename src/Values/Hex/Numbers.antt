-- ===== src/Values/Hex/Numbers.antt =====
-- internal/domain/values.go: `validateMinimalHex` against the texts that `Text(16)` prints.
use native.Mathlib.Nat.{pow-suc}
use native.Mathlib.Decide.{dec_lt}
use cert_me.Prelude.{
  [], ap, arith, false, length, refl, suc, sym, true, zero, ℕ, ◌%◌, ◌+◌, ◌/◌, ◌<◌, ◌^◌, ◌↔◌, ◌∙◌,
  ◌∷◌, ◌≡◌, ◌≢◌, ◌≤◌,
}
use cert_me.Errors.{ok}
use cert_me.Prelude.Text.{Text}
use cert_me.Values.Hex.{
  all_lower_hex, digit_char, has_leading_zero, hex_digits, hex_text, validate_minimal_hex,
}
use cert_me.Values.Hex.RoundTrip.{
  digit_char-lower, hex_digits_step, hex_digits_zero, hex_text_pos, hex_text_zero,
}
use cert_me.Values.Ids.{is_lower_hex_digit}

-- A text that `validateMinimalHex` accepts: not empty, at most `n` lowercase hexadecimal digits,
-- and no leading zero but in `0` itself.
pub record IsMinimalHex (n : ℕ) (s : Text) : Type 0 where
  pub filled : s ≢ []
  pub fits : length s ≤ n
  pub no_leading_zero : has_leading_zero s ≡ false
  pub lower : all_lower_hex s ≡ true

pub validate_minimal_hex_iff :
    (n : ℕ) (s : Text) → (validate_minimal_hex s n ≡ ok tt) ↔ IsMinimalHex n s
unfolding validate_minimal_hex
validate_minimal_hex_iff n [] = (λ h. cc, λ h. absurd (h.filled refl))
validate_minimal_hex_iff n (c ∷ s) = (
  λ h. record {
    filled = λ e. cc;
    fits = ground arith;
    no_leading_zero = ground arith;
    lower = ground arith;
  },
  λ h. ground arith,
)

lower-hex_digits :
    (fuel n : ℕ) (acc : Text)
    → n ≤ fuel
    → all_lower_hex acc ≡ true
    → all_lower_hex (hex_digits fuel n acc) ≡ true
unfolding hex_digits all_lower_hex
lower-hex_digits zero n acc h l = l
lower-hex_digits (suc fuel) n acc h l =
    ground
      (arith, digit_char-lower (n % 16), lower-hex_digits fuel (n / 16) (digit_char (n % 16) ∷ acc))

lower-hex_text : (n : ℕ) → all_lower_hex (hex_text n) ≡ true
unfolding all_lower_hex is_lower_hex_digit
lower-hex_text zero = rw hex_text_zero
lower-hex_text (suc n) =
    rw (hex_text_pos (suc n) (omega arith)) (lower-hex_digits (suc n) (suc n) [] (omega arith) refl)

first_digit : (d : ℕ) (s : Text) → 0 < d → has_leading_zero (digit_char d ∷ s) ≡ false
unfolding has_leading_zero digit_char
first_digit d [] h = refl
first_digit d (c ∷ s) h = ground arith

leading-hex_digits :
    (fuel n : ℕ) (acc : Text) → 0 < n → n ≤ fuel → has_leading_zero (hex_digits fuel n acc) ≡ false
leading-hex_digits zero n acc p h = absurd (omega arith)
leading-hex_digits (suc fuel) n acc p h = elim (dec_lt 0 (n / 16)) [
  | yes more ↦
      rw (hex_digits_step fuel n acc p)
        (leading-hex_digits fuel (n / 16) (digit_char (n % 16) ∷ acc) more (omega arith))
  | no done ↦
      let none_left : n / 16 ≡ 0 = omega arith in
      let last : 0 < n % 16 = omega arith in
      rw (hex_digits_step fuel n acc p, none_left, hex_digits_zero) (first_digit (n % 16) acc last)
]

leading-hex_text : (n : ℕ) → has_leading_zero (hex_text n) ≡ false
unfolding has_leading_zero
leading-hex_text zero = rw hex_text_zero
leading-hex_text (suc n) =
    rw (hex_text_pos (suc n) (omega arith))
      (leading-hex_digits (suc n) (suc n) [] (omega arith) (omega arith))

-- A number below 16 ^ k has at most k digits.
length-hex_digits_le :
    (k fuel n : ℕ) (acc : Text)
    → n < 16 ^ k
    → n ≤ fuel
    → length (hex_digits fuel n acc) ≤ k + length acc
length-hex_digits_le k fuel zero acc p h = rw (hex_digits_zero fuel acc) (omega arith)
length-hex_digits_le k zero (suc n) acc p h = absurd (omega arith)
length-hex_digits_le zero (suc fuel) (suc n) acc p h = absurd (omega arith)
length-hex_digits_le (suc k) (suc fuel) (suc n) acc p h =
    let below : suc n / 16 < 16 ^ k = omega (arith, pow-suc 16 k) in
    rw (hex_digits_step fuel (suc n) acc (omega arith)) (
      omega (
        arith,
        length-hex_digits_le k fuel (suc n / 16) (digit_char (suc n % 16) ∷ acc) below
            (omega arith),
      ))

grows-hex_digits : (fuel n : ℕ) (acc : Text) → length acc ≤ length (hex_digits fuel n acc)
unfolding hex_digits
grows-hex_digits zero n acc = omega arith
grows-hex_digits (suc fuel) n acc =
    ground (arith, grows-hex_digits fuel (n / 16) (digit_char (n % 16) ∷ acc))

positive_power : (k : ℕ) → 0 < 16 ^ k
positive_power zero = omega arith
positive_power (suc k) = omega (arith, pow-suc 16 k, positive_power k)

-- A number of at least 16 ^ k has more than k digits.
length-hex_digits_lt :
    (k fuel n : ℕ) (acc : Text)
    → 16 ^ k ≤ n
    → n ≤ fuel
    → k + length acc < length (hex_digits fuel n acc)
length-hex_digits_lt zero zero n acc p h = absurd (omega (arith, h, p))
length-hex_digits_lt zero (suc fuel) zero acc p h = absurd (omega (arith, p))
length-hex_digits_lt zero (suc fuel) (suc n) acc p h =
    rw (hex_digits_step fuel (suc n) acc (omega arith))
      (omega (arith, grows-hex_digits fuel (suc n / 16) (digit_char (suc n % 16) ∷ acc)))
length-hex_digits_lt (suc k) zero n acc p h = absurd (omega (arith, pow-suc 16 k, positive_power k))
length-hex_digits_lt (suc k) (suc fuel) n acc p h =
    let above : 16 ^ k ≤ n / 16 = omega (arith, pow-suc 16 k) in
    let some_left : 0 < n = omega (arith, pow-suc 16 k, positive_power k) in
    rw (hex_digits_step fuel n acc some_left) (
      omega (
        arith,
        length-hex_digits_lt k fuel (n / 16) (digit_char (n % 16) ∷ acc) above (omega arith),
      ))

length-hex_text : (k n : ℕ) → (length (hex_text n) ≤ suc k) ↔ (n < 16 ^ suc k)
length-hex_text k zero = (λ _. positive_power (suc k), λ _. rw hex_text_zero (omega arith))
length-hex_text k (suc n) = (
  λ h. elim (dec_lt (suc n) (16 ^ suc k)) [
    | yes below ↦ below
    | no above ↦ absurd (
        omega (
          arith,
          ap length (hex_text_pos (suc n) (omega arith)),
          length-hex_digits_lt (suc k) (suc n) (suc n) [] (omega arith) (omega arith),
        ))
  ],
  λ h.
      rw (hex_text_pos (suc n) (omega arith))
        (omega (arith, length-hex_digits_le (suc k) (suc n) (suc n) [] h (omega arith))),
)

filled-hex_text : (n : ℕ) → hex_text n ≢ []
filled-hex_text zero e = cc hex_text_zero
filled-hex_text (suc n) e = absurd (
    omega (
      arith,
      ap length (sym (hex_text_pos (suc n) (omega arith)) ∙ e),
      length-hex_digits_lt 0 (suc n) (suc n) [] (omega arith) (omega arith),
    ))

-- What `Text(16)` prints is accepted exactly if it fits.
pub IsMinimalHex-hex_text : (k n : ℕ) → IsMinimalHex (suc k) (hex_text n) ↔ (n < 16 ^ suc k)
IsMinimalHex-hex_text k n = (
  λ h. (length-hex_text k n).0 h.fits,
  λ h. record {
    filled = filled-hex_text n;
    fits = (length-hex_text k n).1 h;
    no_leading_zero = leading-hex_text n;
    lower = lower-hex_text n;
  },
)
