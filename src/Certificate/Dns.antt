-- ===== src/Certificate/Dns.antt =====
-- internal/domain/certificate.go: the labels of a DNS name, as a grammar and as `isValidDNSLabel` and the
-- loop of `validateDNSSANValue` check them.
use cert_me.Prelude.{
  All, Bool-cases, List, [], ap, arith, false, inl, inr, length, refl, true, ℕ, ◌++◌, ◌+◌, ◌↔◌, ◌∙◌,
  ◌∷◌, ◌≡◌, ◌≢◌, ◌≤◌, ◌⊎◌,
}
use cert_me.Certificate.{
  all_label_bytes, check_dns_label, check_dns_labels, contains_star, is_label_byte,
  is_valid_dns_label, last_byte,
}
use cert_me.Errors.{ok}
use cert_me.Prelude.Int.{apart}
use cert_me.Prelude.Text.{Text, text_eq, text_eq_iff}

-- A letter, a digit or a hyphen.
abbrev pub LabelByte : ℕ → Type 0
LabelByte c =
    ((b'a' ≤ c) × (c ≤ b'z')) ⊎ ((b'A' ≤ c) × (c ≤ b'Z')) ⊎ ((b'0' ≤ c) × (c ≤ b'9')) ⊎ (c ≡ b'-')

pub record Label (l : Text) : Type 0 where
  pub filled : 1 ≤ length l
  pub short : length l ≤ 63
  pub letters : All LabelByte l
  pub no_first_hyphen : (s : Text) → l ≢ b'-' ∷ s
  pub no_last_hyphen : (s : Text) → l ≢ s ++ (b'-' ∷ [])

abbrev pub star : Text
star = b'*' ∷ []

abbrev pub Labels : List Text → Type 0
Labels [] = ⊥
Labels (l ∷ ls) = ((l ≡ star) ⊎ Label l) × All Label ls

abbrev pub join_dots : List Text → Text
join_dots [] = []
join_dots (l ∷ []) = l
join_dots (l ∷ m ∷ ls) = l ++ (b'.' ∷ join_dots (m ∷ ls))

is_label_byte_iff : (c : ℕ) → (is_label_byte c ≡ true) ↔ LabelByte c
unfolding is_label_byte
is_label_byte_iff c = ground arith

all_label_bytes_iff : (l : Text) → (all_label_bytes l ≡ true) ↔ All LabelByte l
unfolding all_label_bytes
all_label_bytes_iff [] = ground arith
all_label_bytes_iff (c ∷ l) =
    let (bytes_of, bytes_ok) = all_label_bytes_iff l in
    let (byte_of, byte_ok) = is_label_byte_iff c in
    (
      λ h. (byte_of (ground arith), bytes_of (ground arith)),
      λ (b, bs). ground (arith, byte_ok b, bytes_ok bs),
    )

last_byte_hyphen :
    (c : ℕ) (s : Text) → last_byte (c ∷ s) ≡ b'-' → (t : Text) × (c ∷ s ≡ t ++ (b'-' ∷ []))
unfolding last_byte
last_byte_hyphen c [] h = ([], ap (λ d. d ∷ []) h)
last_byte_hyphen c (d ∷ s) h =
    let (t, same) = last_byte_hyphen d s h in (c ∷ t, ap (λ u. c ∷ u) same)

last_byte-append : (t : Text) → last_byte (t ++ (b'-' ∷ [])) ≡ b'-'
unfolding last_byte
last_byte-append [] = refl
last_byte-append (c ∷ []) = refl
last_byte-append (c ∷ d ∷ t) = last_byte-append (d ∷ t)

starred : (l : Text) → contains_star l ≡ true → all_label_bytes l ≡ false
unfolding contains_star all_label_bytes is_label_byte
starred [] h = cc
starred (c ∷ l) h = let rest = starred l in ground arith

is_valid_dns_label_iff : (l : Text) → (is_valid_dns_label l ≡ true) ↔ Label l
unfolding is_valid_dns_label
is_valid_dns_label_iff [] = (λ h. ground arith, λ q. ground (arith, q.filled))
is_valid_dns_label_iff (c ∷ l) =
    let (bytes_of, bytes_ok) = all_label_bytes_iff (c ∷ l) in
    (
      λ h. record {
        filled = ground arith;
        short = ground arith;
        letters = bytes_of (ground arith);
        no_first_hyphen = λ s e. ground arith;
        no_last_hyphen = λ s e.
            let ends : last_byte (c ∷ l) ≡ b'-' = ap last_byte e ∙ last_byte-append s in
            ground arith;
      },
      λ q.
          let opens : (c ≡ b'-') → ⊥ = λ e. q.no_first_hyphen l (ap (λ d. d ∷ l) e) in
          let closes : (last_byte (c ∷ l) ≡ b'-') → ⊥ =
            λ e. let (t, same) = last_byte_hyphen c l e in q.no_last_hyphen t same in
          ground (arith, q.short, opens, closes, bytes_ok q.letters),
    )

Label-unstarred : (l : Text) → Label l → contains_star l ≡ false
Label-unstarred l q = elim (Bool-cases (contains_star l)) [
  | inl held ↦ cc (starred l held, (all_label_bytes_iff l).1 q.letters)
  | inr free ↦ free
]

Label-check : (i : ℕ) (l : Text) → Label l → check_dns_label i l ≡ ok tt
unfolding check_dns_label text_eq contains_star
Label-check i [] q = ground (arith, q.filled)
Label-check i (c ∷ l) q =
    ground (arith, Label-unstarred (c ∷ l) q, (is_valid_dns_label_iff (c ∷ l)).1 q)

check_dns_label_iff :
    (i : ℕ) (l : Text) → (check_dns_label i l ≡ ok tt) ↔ (((i ≡ 0) × (l ≡ star)) ⊎ Label l)
unfolding check_dns_label
check_dns_label_iff i l = (
  λ h. elim (Bool-cases (text_eq l star)) [
    | inl same ↦ inl (ground arith, (text_eq_iff l star).0 same)
    | inr apart ↦ inr ((is_valid_dns_label_iff l).0 (ground arith))
  ],
  elim [
    | inl (first, same) ↦ ground (arith, (text_eq_iff l star).1 same, same)
    | inr q ↦ Label-check i l q
  ],
)

check_later_iff : (i : ℕ) (ls : List Text) → (check_dns_labels (i + 1) ls ≡ ok tt) ↔ All Label ls
unfolding check_dns_labels
check_later_iff i [] = (λ _. tt, λ _. refl)
check_later_iff i (l ∷ ls) =
    let (rest_of, rest_ok) = check_later_iff (i + 1) ls in
    let (label_of, label_ok) = check_dns_label_iff (i + 1) l in
    (
      λ h. (
        elim (label_of (ground arith)) [ inl (first, _) ↦ ground arith | inr q ↦ q ],
        rest_of (ground arith),
      ),
      λ (q, qs). ground (arith, label_ok (inr q), rest_ok qs),
    )

check_first_iff : (l : Text) → (check_dns_label 0 l ≡ ok tt) ↔ ((l ≡ star) ⊎ Label l)
check_first_iff l =
    let (of_check, to_check) = check_dns_label_iff 0 l in
    (
      λ h. elim (of_check h) [ inl (_, same) ↦ inl same | inr q ↦ inr q ],
      elim [ inl same ↦ to_check (inl (refl, same)) | inr q ↦ to_check (inr q) ],
    )

pub check_dns_labels_iff : (ls : List Text) → ls ≢ [] → (check_dns_labels 0 ls ≡ ok tt) ↔ Labels ls
unfolding check_dns_labels
check_dns_labels_iff [] some_label = elim (some_label refl) [ ]
check_dns_labels_iff (l ∷ ls) some_label =
    let (rest_of, rest_ok) = check_later_iff 0 ls in
    let (label_of, label_ok) = check_first_iff l in
    (
      λ h. (label_of (ground arith), rest_of (ground arith)),
      λ (q, qs). ground (arith, label_ok q, rest_ok qs),
    )
