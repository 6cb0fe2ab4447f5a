-- ===== src/Certificate.antt =====
-- internal/domain/certificate.go: subjects, alternative names, profiles, certificates and the plan
-- of an issuance.
pub mod Dns
pub mod HostNames
pub mod Issuance
pub mod Planning
use cert_me.Prelude.{
  Bool, List, Option, [], false, if◌then◌else◌, leb, length, ltb, none, not, some, true, ℕ, ◌&&◌,
  ◌+◌, ◌==◌, ◌||◌, ◌∷◌,
}
use cert_me.Errors.{Check, Result, err, invalid_value, ok, reject_if, wrapped, ◌>>=◌, ◌>>◌}
use cert_me.Prelude.Text.{Text, bytes, is_empty, text_eq, trim_space}

pub record Subject : Type 0 where
  pub common_name : Text
  pub organization : Text
  pub organizational_unit : Text
  pub country : Text

abbrev pub max_subject_field_length : ℕ
max_subject_field_length = 255

unfoldable pub is_uppercase_ascii_letters : Text → Bool
is_uppercase_ascii_letters [] = true
is_uppercase_ascii_letters (c ∷ s) = leb b'A' c && leb c b'Z' && is_uppercase_ascii_letters s

-- `NewSubject`; the argument is `SubjectFacts`, with the same fields.
unfoldable pub new_subject : Subject → Result Subject
new_subject facts = do
  let cn = trim_space facts.common_name
  reject_if (is_empty cn) (wrapped invalid_value)
  reject_if (ltb max_subject_field_length (length cn)) (wrapped invalid_value)
  reject_if (ltb max_subject_field_length (length facts.organization)) (wrapped invalid_value)
  reject_if (ltb max_subject_field_length (length facts.organizational_unit))
      (wrapped invalid_value)
  reject_if
      (not (is_empty facts.country)
        && (not (length facts.country == 2) || not (is_uppercase_ascii_letters facts.country)))
      (wrapped invalid_value)
  ok (record facts { common_name = cn })

pub data SanType : Type 0 where
  dns ip uri : SanType
  unlisted : Text → SanType

unfoldable pub validate_san_type : SanType → Check
validate_san_type (SanType.unlisted _) = err (wrapped invalid_value)
validate_san_type dns = ok tt
validate_san_type _ = ok tt

abbrev pub is_dns_or_ip : SanType → Bool
is_dns_or_ip dns = true
is_dns_or_ip ip = true
is_dns_or_ip _ = false

pub record San : Type 0 where
  pub kind : SanType
  pub value : Text

abbrev pub max_san_value_length : ℕ
max_san_value_length = 2048

-- `NewBootstrapDNSNameSAN`
unfoldable pub new_bootstrap_dns_name_san : Result San
new_bootstrap_dns_name_san = ok (record { kind = dns; value = bytes "cert-me" })

abbrev pub max_dns_san_length : ℕ
max_dns_san_length = 253

abbrev pub max_dns_label_length : ℕ
max_dns_label_length = 63

abbrev pub put_byte : ℕ → List Text → List Text
put_byte c [] = (c ∷ []) ∷ []
put_byte c (label ∷ labels) = if c == b'.' then [] ∷ label ∷ labels else (c ∷ label) ∷ labels

-- `strings.Split(v, ".")`
unfoldable pub split_dots : Text → List Text
split_dots [] = [] ∷ []
split_dots (c ∷ s) = put_byte c (split_dots s)

-- `strings.Contains(label, "*")`
unfoldable pub contains_star : Text → Bool
contains_star [] = false
contains_star (c ∷ s) = c == b'*' || contains_star s

-- `label[len(label)-1]`, of a text that is not empty.
unfoldable pub last_byte : Text → ℕ
last_byte [] = 0
last_byte (c ∷ []) = c
last_byte (c ∷ d ∷ s) = last_byte (d ∷ s)

abbrev pub first_byte : Text → ℕ
first_byte [] = 0
first_byte (c ∷ s) = c

-- The `switch` of the loop in `isValidDNSLabel`.
unfoldable pub is_label_byte : ℕ → Bool
is_label_byte c =
    leb b'a' c && leb c b'z' || leb b'A' c && leb c b'Z' || leb b'0' c && leb c b'9' || c == b'-'

unfoldable pub all_label_bytes : Text → Bool
all_label_bytes [] = true
all_label_bytes (c ∷ s) = is_label_byte c && all_label_bytes s

unfoldable pub is_valid_dns_label : Text → Bool
is_valid_dns_label label =
    if ltb (length label) 1 || ltb max_dns_label_length (length label)
    then false
    else if first_byte label == b'-' || last_byte label == b'-'
    then false
    else all_label_bytes label

-- The body of the loop in `validateDNSSANValue`, at label `i`.
unfoldable pub check_dns_label : ℕ → Text → Check
check_dns_label i label =
    if is_empty label
    then err (wrapped invalid_value)
    else if text_eq label (b'*' ∷ [])
    then reject_if (not (i == 0)) (wrapped invalid_value)
    else if contains_star label
    then err (wrapped invalid_value)
    else reject_if (not (is_valid_dns_label label)) (wrapped invalid_value)

unfoldable pub check_dns_labels : ℕ → List Text → Check
check_dns_labels i [] = ok tt
check_dns_labels i (label ∷ labels) =
    let rest = check_dns_labels (i + 1) labels in check_dns_label i label >> rest

unfoldable pub validate_dns_san_value : Text → Check
validate_dns_san_value v = do
  reject_if (ltb max_dns_san_length (length v)) (wrapped invalid_value)
  check_dns_labels 0 (split_dots v)
  reject_if (ltb (length (split_dots v)) 2) (wrapped invalid_value)

-- `net/netip` and `net/url` of Go's library are parameters: `parse_addr v` is the zone and the
-- canonical form of an address, `none` if it does not parse; `is_absolute_uri v` says that `v` parses
-- to an absolute URI.
module _ (parse_addr : Text → Option (Text × Text)) (is_absolute_uri : Text → Bool) where
  unfoldable pub normalize_ip_san_value : Text → Result Text
  normalize_ip_san_value v = elim (parse_addr v) [
    | none ↦ err (wrapped invalid_value)
    | some (zone, canonical) ↦ do
      reject_if (not (is_empty zone)) (wrapped invalid_value)
      ok canonical
  ]

  -- The `switch kind` of `NewSAN`: the value to keep.
  unfoldable pub san_value : SanType → Text → Result Text
  san_value dns v = do validate_dns_san_value v; ok v
  san_value ip v = normalize_ip_san_value v
  san_value uri v = do reject_if (not (is_absolute_uri v)) (wrapped invalid_value); ok v
  san_value (SanType.unlisted _) v = ok v

  unfoldable pub new_san : SanType → Text → Result San
  new_san kind value = do
    validate_san_type kind
    let v = trim_space value
    reject_if (is_empty v) (wrapped invalid_value)
    reject_if (ltb max_san_value_length (length v)) (wrapped invalid_value)
    kept ← san_value kind v
    ok (record { kind = kind; value = kept })
