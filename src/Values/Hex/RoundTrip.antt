-- ===== src/Values/Hex/RoundTrip.antt =====
-- internal/domain/values.go: the hexadecimal texts of `big.Int`, printed and read back.
use mathlib.Core.List.{append-nil}
use cert_me.Prelude.{
  [], ap, arith, false, inl, inr, refl, suc, sym, true, zero, ℕ, ◌%◌, ◌*◌, ◌++◌, ◌+◌, ◌/◌, ◌<◌, ◌∙◌,
  ◌∷◌, ◌≡◌, ◌≢◌, ◌≤◌, ◌⊎◌,
}
use cert_me.Prelude.Text.{Text}
use cert_me.Values.Hex.{
  all_lower_hex, big, digit_char, digit_value, has_leading_zero, hex_digits, hex_text, read_hex,
}
use cert_me.Values.Ids.{is_lower_hex_digit}

-- A digit that `hex_digits` writes is a lowercase hexadecimal digit of the right value.
pub digit_char-lower : (d : ℕ) → d < 16 → is_lower_hex_digit (digit_char d) ≡ true
unfolding is_lower_hex_digit digit_char
digit_char-lower d h = ground arith

pub digit_value-digit_char : (d : ℕ) → d < 16 → digit_value (digit_char d) ≡ d
unfolding digit_value digit_char
digit_value-digit_char d h = ground arith

-- On a lowercase digit the two are inverse.
digit_char-digit_value :
    (c : ℕ) → is_lower_hex_digit c ≡ true → (digit_char (digit_value c) ≡ c) × (digit_value c < 16)
unfolding is_lower_hex_digit digit_value digit_char
digit_char-digit_value c h = ground arith

-- One round of the loop.
pub hex_digits_step :
    (fuel n : ℕ) (acc : Text)
    → 0 < n
    → hex_digits (suc fuel) n acc ≡ hex_digits fuel (n / 16) (digit_char (n % 16) ∷ acc)
unfolding hex_digits
hex_digits_step fuel n acc h = ground arith

pub hex_digits_zero : (fuel : ℕ) (acc : Text) → hex_digits fuel 0 acc ≡ acc
unfolding hex_digits
hex_digits_zero zero acc = refl
hex_digits_zero (suc fuel) acc = refl

-- Reading starts from the number whose digits stand in front.
pub read_hex-hex_digits :
    (fuel n : ℕ) (acc : Text) → n ≤ fuel → read_hex 0 (hex_digits fuel n acc) ≡ read_hex n acc
unfolding read_hex
read_hex-hex_digits fuel zero acc h = ap (read_hex 0) (hex_digits_zero fuel acc)
read_hex-hex_digits zero (suc n) acc h = absurd (omega arith)
read_hex-hex_digits (suc fuel) (suc n) acc h =
    let m = suc n in
    rw (hex_digits_step fuel m acc (omega arith)) (
      read_hex-hex_digits fuel (m / 16) (digit_char (m % 16) ∷ acc) (omega arith)
      ∙ ap (λ k. read_hex k acc) (rw (digit_value-digit_char (m % 16) (omega arith)) (omega arith)))

pub big-eq-read_hex : (s : Text) → big s ≡ read_hex 0 s
unfolding big
big-eq-read_hex [] = refl
big-eq-read_hex (c ∷ s) = refl

pub hex_text_zero : hex_text 0 ≡ b'0' ∷ []
unfolding hex_text
hex_text_zero = refl

pub hex_text_pos : (n : ℕ) → 0 < n → hex_text n ≡ hex_digits n n []
unfolding hex_text
hex_text_pos n h = ground arith

-- Reading what `Text(16)` printed gives the number back.
pub big-hex_text : (n : ℕ) → big (hex_text n) ≡ n
unfolding hex_text big
big-hex_text zero = refl
big-hex_text (suc n) =
    big-eq-read_hex (hex_text (suc n))
    ∙ ap (read_hex 0) (hex_text_pos (suc n) (omega arith))
    ∙ read_hex-hex_digits (suc n) (suc n) [] (omega arith)

-- Any two amounts of fuel that suffice give the same digits.
hex_digits_fuel : (f g n : ℕ) (acc : Text) → n ≤ f → n ≤ g → hex_digits f n acc ≡ hex_digits g n acc
hex_digits_fuel f g zero acc p q = hex_digits_zero f acc ∙ sym (hex_digits_zero g acc)
hex_digits_fuel zero g (suc n) acc p q = absurd (omega arith)
hex_digits_fuel (suc f) zero (suc n) acc p q = absurd (omega arith)
hex_digits_fuel (suc f) (suc g) (suc n) acc p q =
    hex_digits_step f (suc n) acc (omega arith)
    ∙ hex_digits_fuel f g (suc n / 16) (digit_char (suc n % 16) ∷ acc) (omega arith) (omega arith)
    ∙ sym (hex_digits_step g (suc n) acc (omega arith))

-- Reading a digit after `n` and printing puts that digit after those of `n`.
hex_digits_snoc :
    (f g n c : ℕ) (acc : Text)
    → is_lower_hex_digit c ≡ true
    → 0 < n * 16 + digit_value c
    → n * 16 + digit_value c ≤ f
    → n ≤ g
    → hex_digits f (n * 16 + digit_value c) acc ≡ hex_digits g n (c ∷ acc)
hex_digits_snoc zero g n c acc l p hf hg = absurd (omega arith)
hex_digits_snoc (suc f) g n c acc l p hf hg =
    let m = n * 16 + digit_value c in
    let (same, small) = digit_char-digit_value c l in
    let low : m % 16 ≡ digit_value c = omega arith in
    let high : m / 16 ≡ n = omega arith in
    hex_digits_step f m acc p
    ∙ ap (λ k. hex_digits f k (digit_char (m % 16) ∷ acc)) high
    ∙ ap (λ k. hex_digits f n (digit_char k ∷ acc)) low
    ∙ ap (λ k. hex_digits f n (k ∷ acc)) same
    ∙ hex_digits_fuel f g n (c ∷ acc) (omega arith) hg

read_hex-le : (n : ℕ) (s : Text) → n ≤ read_hex n s
unfolding read_hex
read_hex-le n [] = omega arith
read_hex-le n (c ∷ s) = omega (arith, read_hex-le (n * 16 + digit_value c) s)

hex_digits-read_hex :
    (n : ℕ) (s acc : Text)
    → 0 < n
    → all_lower_hex s ≡ true
    → hex_digits (read_hex n s) (read_hex n s) acc ≡ hex_digits n n (s ++ acc)
unfolding read_hex all_lower_hex
hex_digits-read_hex n [] acc p l = refl
hex_digits-read_hex n (c ∷ s) acc p l =
    let m = n * 16 + digit_value c in
    let both : (is_lower_hex_digit c ≡ true) × (all_lower_hex s ≡ true) = ground arith in
    hex_digits-read_hex m s acc (omega arith) both.1
    ∙ hex_digits_snoc m n n c (s ++ acc) both.0 (omega arith) (omega arith) (omega arith)

hex_text_cons :
    (c : ℕ) (s : Text)
    → is_lower_hex_digit c ≡ true
    → 0 < digit_value c
    → all_lower_hex s ≡ true
    → hex_text (read_hex 0 (c ∷ s)) ≡ c ∷ s
unfolding read_hex hex_digits
hex_text_cons c s lc p ls =
    let m = 0 * 16 + digit_value c in
    hex_text_pos (read_hex m s) (omega (arith, read_hex-le m s))
    ∙ hex_digits-read_hex m s [] (omega arith) ls
    ∙ hex_digits_snoc m 0 0 c (s ++ []) lc (omega arith) (omega arith) (omega arith)
    ∙ ap (λ r. c ∷ r) (append-nil s)

zero_digit : (c : ℕ) → is_lower_hex_digit c ≡ true → (c ≡ b'0') ⊎ (0 < digit_value c)
unfolding is_lower_hex_digit digit_value
zero_digit c h = ground arith

-- A validated hexadecimal text is what `Text(16)` prints of its value.
pub hex_text-big :
    (s : Text) → all_lower_hex s ≡ true → has_leading_zero s ≡ false → s ≢ [] → hex_text (big s) ≡ s
unfolding all_lower_hex has_leading_zero
hex_text-big [] l z ne = absurd (ne refl)
hex_text-big (c ∷ []) l z ne = elim (zero_digit c (ground arith)) [
  | inl e ↦ rw e (unfold hex_text big read_hex digit_value in refl)
  | inr p ↦ ap hex_text (big-eq-read_hex (c ∷ [])) ∙ hex_text_cons c [] (ground arith) p refl
]
hex_text-big (c ∷ d ∷ s) l z ne =
    let lower : (is_lower_hex_digit c ≡ true) × (all_lower_hex (d ∷ s) ≡ true) = ground arith in
    elim (zero_digit c lower.0) [
      | inl e ↦ ground arith
      | inr p ↦
          ap hex_text (big-eq-read_hex (c ∷ d ∷ s)) ∙ hex_text_cons c (d ∷ s) lower.0 p lower.1
    ]
