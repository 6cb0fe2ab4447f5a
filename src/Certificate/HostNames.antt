-- ===== src/Certificate/HostNames.antt =====
-- internal/domain/certificate.go: `validateDNSSANValue`: `strings.Split` against joining the labels again.
use cert_me.Prelude.{
  All, List, [], ap, arith, inl, inr, length, refl, subst, sym, ℕ, ◌++◌, ◌↔◌, ◌∙◌, ◌∷◌, ◌≡◌, ◌≢◌,
  ◌≤◌, ◌⊎◌,
}
use cert_me.Certificate.{put_byte, split_dots, validate_dns_san_value}
use cert_me.Certificate.Dns.{Label, LabelByte, Labels, check_dns_labels_iff, join_dots, star}
use cert_me.Errors.{ok}
use cert_me.Prelude.Text.{Text}

join-put_byte : (c : ℕ) (ls : List Text) → join_dots (put_byte c ls) ≡ c ∷ join_dots ls
join-put_byte c [] = refl
join-put_byte c (l ∷ []) = ground arith
join-put_byte c (l ∷ m ∷ ls) = ground arith

join-split : (v : Text) → join_dots (split_dots v) ≡ v
unfolding split_dots
join-split [] = refl
join-split (c ∷ v) = join-put_byte c (split_dots v) ∙ ap (λ w. c ∷ w) (join-split v)

put_byte-some : (c : ℕ) (ls : List Text) → put_byte c ls ≢ []
put_byte-some c [] = λ e. ground arith
put_byte-some c (l ∷ ls) = λ e. ground arith

split-some : (v : Text) → split_dots v ≢ []
unfolding split_dots
split-some [] = λ e. ground arith
split-some (c ∷ v) = put_byte-some c (split_dots v)

put_byte-dot : (ls : List Text) → ls ≢ [] → put_byte b'.' ls ≡ [] ∷ ls
put_byte-dot [] some_label = elim (some_label refl) [ ]
put_byte-dot (l ∷ ls) some_label = refl

put_byte-other : (c : ℕ) (l : Text) (ls : List Text) → c ≢ b'.' → put_byte c (l ∷ ls) ≡ (c ∷ l) ∷ ls
put_byte-other c l ls other = ground arith

abbrev NoDot : Text → Type 0
NoDot l = All (λ c. c ≢ b'.') l

split-label : (l : Text) → NoDot l → split_dots l ≡ l ∷ []
unfolding split_dots
split-label [] _ = refl
split-label (c ∷ l) (q, qs) = ap (put_byte c) (split-label l qs) ∙ put_byte-other c l [] q

split-next : (l : Text) (v : Text) → NoDot l → split_dots (l ++ (b'.' ∷ v)) ≡ l ∷ split_dots v
unfolding split_dots
split-next [] v _ = put_byte-dot (split_dots v) (split-some v)
split-next (c ∷ l) v (q, qs) =
    ap (put_byte c) (split-next l v qs) ∙ put_byte-other c l (split_dots v) q

split-join :
    (l : Text) (ls : List Text) → All NoDot (l ∷ ls) → split_dots (join_dots (l ∷ ls)) ≡ l ∷ ls
split-join l [] (q, _) = split-label l q
split-join l (m ∷ ls) (q, qs) =
    split-next l (join_dots (m ∷ ls)) q ∙ ap (λ r. l ∷ r) (split-join m ls qs)

bytes-NoDot : (l : Text) → All LabelByte l → NoDot l
bytes-NoDot [] _ = tt
bytes-NoDot (c ∷ l) (b, bs) = ((λ e. ground arith), bytes-NoDot l bs)

labels-NoDot : (ls : List Text) → All Label ls → All NoDot ls
labels-NoDot [] _ = tt
labels-NoDot (l ∷ ls) (q, qs) = (bytes-NoDot l q.letters, labels-NoDot ls qs)

first-NoDot : (l : Text) → (l ≡ star) ⊎ Label l → NoDot l
first-NoDot [] _ = tt
first-NoDot (c ∷ l) (inl same) = subst NoDot (sym same) ((λ e. ground arith), tt)
first-NoDot (c ∷ l) (inr q) = bytes-NoDot (c ∷ l) q.letters

split-Labels : (ls : List Text) → Labels ls → split_dots (join_dots ls) ≡ ls
split-Labels [] none_there = elim none_there [ ]
split-Labels (l ∷ ls) (q, qs) = split-join l ls (first-NoDot l q, labels-NoDot ls qs)

-- `validateDNSSANValue` accepts exactly the texts of at most 253 bytes that are two or more labels
-- joined by dots, each of 1 to 63 letters, digits and hyphens with no hyphen at either end; the first
-- label may be a lone `*` instead.
pub validate_dns_iff :
    (v : Text)
    → (validate_dns_san_value v ≡ ok tt)
      ↔ ((length v ≤ 253) × ((ls : List Text) × (v ≡ join_dots ls) × (2 ≤ length ls) × Labels ls))
unfolding validate_dns_san_value
validate_dns_iff v = (
  λ h. (
    ground arith,
    (
      split_dots v,
      sym (join-split v),
      ground arith,
      (check_dns_labels_iff (split_dots v) (split-some v)).0 (ground arith),
    ),
  ),
  λ (short, (ls, same, two, labels)).
      let back : split_dots v ≡ ls = ap split_dots same ∙ split-Labels ls labels in
      ground (
        arith,
        short,
        (check_dns_labels_iff (split_dots v) (split-some v)).1 (subst Labels (sym back) labels),
        ap length back,
      ),
)
