-- ===== src/Values/Ids.antt =====
-- internal/domain/values.go: identifiers and versions. Every identifier type is a `string`, and
-- its parser is `parseUUID` under another name.
use Prim.Native.Nat.{ℕ}
use cert_me.Prelude.{
  Bool, [], arith, false, if◌then◌else◌, inl, inr, leb, length, not, refl, true, ◌&&◌, ◌+◌, ◌==◌,
  ◌||◌, ◌↔◌, ◌∷◌, ◌≡◌, ◌⊎◌,
}
use cert_me.Errors.{
  Check, Failure, Result, Result-cases, discard, err, invalid_value, ok, reject_if, wrapped, ◌>>◌,
}
use cert_me.Prelude.Int.{add64, ltb_ℤ, pos, ℤ}
use cert_me.Prelude.Text.{Text, bytes, is_empty}

abbrev pub uuid_length : ℕ
uuid_length = 36

unfoldable pub is_lower_hex_digit : ℕ → Bool
is_lower_hex_digit c = leb b'0' c && leb c b'9' || leb b'a' c && leb c b'f'

-- The `switch i` of the loop in `parseUUID`.
unfoldable pub is_uuid_byte : ℕ → ℕ → Bool
unfolding is_lower_hex_digit
is_uuid_byte i c =
    if i == 8 || i == 13 || i == 18 || i == 23 then c == b'-' else is_lower_hex_digit c

-- The loop, from index `i` over the bytes that are left.
scan_uuid : ℕ → Text → Check
scan_uuid i [] = ok tt
scan_uuid i (c ∷ s) =
    let rest = scan_uuid (i + 1) s in if is_uuid_byte i c then rest else err (wrapped invalid_value)

unfoldable pub parse_uuid : Text → Result Text
unfolding scan_uuid is_uuid_byte
parse_uuid raw = do
  reject_if (not (length raw == uuid_length)) (wrapped invalid_value)
  scan_uuid 0 raw
  ok raw

-- `if _, err := ParseXID(id); err != nil`
abbrev pub check_id : Text → Check
check_id raw = discard (parse_uuid raw)

-- The same behind `if id != ""`.
abbrev pub check_optional_id : Text → Check
check_optional_id [] = ok tt
check_optional_id (c ∷ s) = check_id (c ∷ s)

-- `Version`
abbrev pub Version : Type 0
Version = ℤ

unfoldable pub parse_version : ℤ → Result Version
parse_version raw = do reject_if (ltb_ℤ raw (pos 0)) (wrapped invalid_value); ok raw

-- `Version.Next`
unfoldable pub next : Version → Version
next v = add64 v (pos 1)

abbrev pub MatchesUuid : ℕ → Text → Type 0
MatchesUuid i [] = Unit
MatchesUuid i (c ∷ s) = (is_uuid_byte i c ≡ true) × MatchesUuid (i + 1) s

-- A canonical identifier: 36 bytes, `-` at 8, 13, 18 and 23, lowercase hex digits elsewhere.
abbrev pub IsUuid : Text → Type 0
IsUuid s = (length s ≡ 36) × MatchesUuid 0 s

scan_uuid-ok : (i : ℕ) (s : Text) → MatchesUuid i s → scan_uuid i s ≡ ok tt
unfolding scan_uuid
scan_uuid-ok i [] h = refl
scan_uuid-ok i (c ∷ s) h = ground (arith, scan_uuid-ok (i + 1) s h.1)

scan_uuid-MatchesUuid : (i : ℕ) (s : Text) → scan_uuid i s ≡ ok tt → MatchesUuid i s
unfolding scan_uuid
scan_uuid-MatchesUuid i [] h = tt
scan_uuid-MatchesUuid i (c ∷ s) h = ground (arith, scan_uuid-MatchesUuid (i + 1) s)

-- A parser returns its input exactly when that is a canonical identifier.
pub parse_uuid_iff : (s : Text) → (parse_uuid s ≡ ok s) ↔ IsUuid s
unfolding parse_uuid
parse_uuid_iff s =
    (λ h. ground (arith, scan_uuid-MatchesUuid 0 s), λ h. ground (arith, scan_uuid-ok 0 s h.1))

scan_uuid_error :
    (i : ℕ) (s : Text) {e : Failure} → scan_uuid i s ≡ err e → e ≡ wrapped invalid_value
unfolding scan_uuid
scan_uuid_error i [] h = cc
scan_uuid_error i (c ∷ s) {e} h = ground (arith, scan_uuid_error (i + 1) s {e = e})

parse_cases : (s : Text) → (parse_uuid s ≡ ok s) ⊎ (parse_uuid s ≡ err (wrapped invalid_value))
unfolding parse_uuid
parse_cases s = elim (Result-cases (scan_uuid 0 s)) [
  | inl (u, e) ↦ ground arith
  | inr (f, e) ↦ ground (arith, scan_uuid_error 0 s e)
]

-- Any other text is an invalid value.
pub parse_uuid_error : (s : Text) → ¬ IsUuid s → parse_uuid s ≡ err (wrapped invalid_value)
unfolding parse_uuid
parse_uuid_error s h = elim (parse_cases s) [
  | inl e ↦ absurd (h ((parse_uuid_iff s).0 e))
  | inr e ↦ e
]

-- An identifier that passed its parser is not empty.
pub filled-check_id : (s : Text) → check_id s ≡ ok tt → is_empty s ≡ false
unfolding parse_uuid
filled-check_id [] h = cc
filled-check_id (c ∷ s) h = refl

sample_id :
    parse_uuid (bytes "00000000-0000-4000-8000-000000000001")
    ≡ ok (bytes "00000000-0000-4000-8000-000000000001")
unfolding parse_uuid
sample_id = refl
