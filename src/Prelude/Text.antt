-- ===== src/Prelude/Text.antt =====
-- Go's `string`: a sequence of bytes, with `==`, `len` and `strings.TrimSpace`.
use Prim.Native.Char.{code}
use cert_me.Prelude.{
  ℕ, zero, suc, String, ◌≡◌, refl, ◌↔◌, Bool, true, false, ◌&&◌, ◌||◌, List, [], ◌∷◌, arith, leb,
  ◌==◌, if◌then◌else◌, length,
}
use mathlib.Core.List.{reverse}

abbrev pub Text : Type 0
Text = List ℕ

-- The bytes of an ASCII literal.
abbrev pub bytes : String → Text
bytes String.[] = []
bytes (String.◌∷◌ c s) = code c ∷ bytes s

-- `a == b`
unfoldable pub text_eq : Text → Text → Bool
text_eq [] [] = true
text_eq [] (y ∷ ys) = false
text_eq (x ∷ xs) [] = false
text_eq (x ∷ xs) (y ∷ ys) = x == y && text_eq xs ys

pub text_eq_iff : (a b : Text) → (text_eq a b ≡ true) ↔ (a ≡ b)
unfolding text_eq
text_eq_iff [] [] = (λ _. refl, λ _. refl)
text_eq_iff [] (y ∷ ys) = ground arith
text_eq_iff (x ∷ xs) [] = ground arith
text_eq_iff (x ∷ xs) (y ∷ ys) = ground (arith, text_eq_iff xs ys)

pub text_eq_refl : (a : Text) → text_eq a a ≡ true
text_eq_refl a = (text_eq_iff a a).1 refl

-- `s == ""`
abbrev pub is_empty : Text → Bool
is_empty [] = true
is_empty (_ ∷ _) = false

pub is_empty_iff : (a : Text) → (is_empty a ≡ true) ↔ (a ≡ [])
is_empty_iff [] = ground arith
is_empty_iff (x ∷ xs) = ground arith

-- The ASCII characters of `unicode.IsSpace`: tab, newline, vertical tab, form feed, carriage
-- return, space.
abbrev is_ascii_space : ℕ → Bool
is_ascii_space c = leb 9 c && leb c 13 || c == 32

-- The UTF-8 encodings of the other characters of `unicode.IsSpace`: U+0085 and U+00A0 in two
-- bytes; U+1680, U+2000 to U+200A, U+2028, U+2029, U+202F, U+205F and U+3000 in three.
abbrev is_space2 : ℕ → ℕ → Bool
is_space2 a b = a == 0xc2 && (b == 0x85 || b == 0xa0)

abbrev is_space3 : ℕ → ℕ → ℕ → Bool
is_space3 a b c =
    a == 0xe1 && b == 0x9a && c == 0x80
    || a == 0xe2 && b == 0x80 && (leb 0x80 c && leb c 0x8a || c == 0xa8 || c == 0xa9 || c == 0xaf)
    || a == 0xe2 && b == 0x81 && c == 0x9f
    || a == 0xe3 && b == 0x80 && c == 0x80

-- Drops the leading white space of a text; `fuel` bounds the characters that are dropped.
trim_left : ℕ → Text → Text
trim_left zero s = s
trim_left (suc fuel) [] = []
trim_left (suc fuel) (a ∷ []) = if is_ascii_space a then [] else a ∷ []
trim_left (suc fuel) (a ∷ b ∷ []) =
    let one = trim_left fuel (b ∷ []) in
    if is_ascii_space a then one else if is_space2 a b then [] else a ∷ b ∷ []
trim_left (suc fuel) (a ∷ b ∷ c ∷ s) =
    let one = trim_left fuel (b ∷ c ∷ s) in
    let two = trim_left fuel (c ∷ s) in
    let three = trim_left fuel s in
    if is_ascii_space a
    then one
    else if is_space2 a b
    then two
    else if is_space3 a b c
    then three
    else a ∷ b ∷ c ∷ s

-- The same over a reversed text, so the bytes of a character come last first.
trim_right : ℕ → Text → Text
trim_right zero s = s
trim_right (suc fuel) [] = []
trim_right (suc fuel) (a ∷ []) = if is_ascii_space a then [] else a ∷ []
trim_right (suc fuel) (b ∷ a ∷ []) =
    let one = trim_right fuel (a ∷ []) in
    if is_ascii_space b then one else if is_space2 a b then [] else b ∷ a ∷ []
trim_right (suc fuel) (c ∷ b ∷ a ∷ s) =
    let one = trim_right fuel (b ∷ a ∷ s) in
    let two = trim_right fuel (a ∷ s) in
    let three = trim_right fuel s in
    if is_ascii_space c
    then one
    else if is_space2 b c
    then two
    else if is_space3 a b c
    then three
    else c ∷ b ∷ a ∷ s

-- `strings.TrimSpace`; a text has at most `length` characters.
unfoldable pub trim_space : Text → Text
unfolding trim_left trim_right
trim_space s =
    let front = trim_left (length s) s in reverse (trim_right (length front) (reverse front))

trim_space_test :
    trim_space (32 ∷ 0xc2 ∷ 0xa0 ∷ b'a' ∷ 32 ∷ b'b' ∷ 0xe3 ∷ 0x80 ∷ 0x80 ∷ 10 ∷ []) ≡ bytes "a b"
unfolding trim_space
trim_space_test = refl
