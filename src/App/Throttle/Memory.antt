-- ===== src/App/Throttle/Memory.antt =====
-- internal/app/porttest/accounts.go, `GetRateLimit` and `SaveRateLimit`: the counters as a map from
-- the kind, the hash and the start of the window.
use cert_me.Prelude.{
  Bool, Bool-cases, List, [], arith, false, if◌then◌else◌, inl, inr, refl, subst, sym, true, ◌&&◌,
  ◌↔◌, ◌∙◌, ◌∷◌, ◌≡◌, ◌≢◌, ◌⊎◌,
}
use cert_me.App.{Fault}
use cert_me.App.Throttle.{
  LimitKind, Lookup, RateLimitRecord, RateLimits, ThrottleSubject, login_account, login_ip, missing,
  reset_account, reset_ip, row,
}
use cert_me.Prelude.Int.{apart, eq_ℤ_iff}
use cert_me.Prelude.Text.{text_eq_iff}
use cert_me.Series.{window}
use cert_me.Values.Hex.{fingerprint_eq}
use cert_me.Values.Instant.{Instant, equal}

unfoldable pub limit_kind_eq : LimitKind → LimitKind → Bool
limit_kind_eq login_account login_account = true
limit_kind_eq login_ip login_ip = true
limit_kind_eq reset_account reset_account = true
limit_kind_eq reset_ip reset_ip = true
limit_kind_eq _ _ = false

-- The keys are equal.
unfoldable pub same_counter : RateLimitRecord → ThrottleSubject → Instant → Bool
unfolding fingerprint_eq equal
same_counter r who w =
    limit_kind_eq r.subject.limit_kind who.limit_kind
    && fingerprint_eq r.subject.hash who.hash
    && equal r.window_start w

unfoldable pub find_counter : List RateLimitRecord → ThrottleSubject → Instant → Lookup
find_counter [] who w = missing
find_counter (r ∷ rows) who w =
    let rest = find_counter rows who w in if same_counter r who w then row r else rest

unfoldable pub put_counter : List RateLimitRecord → RateLimitRecord → List RateLimitRecord
put_counter [] r = r ∷ []
put_counter (x ∷ rows) r =
    let rest = put_counter rows r in
    if same_counter x r.subject r.window_start then r ∷ rows else x ∷ rest

limit_kind_eq_iff : (a b : LimitKind) → (limit_kind_eq a b ≡ true) ↔ (a ≡ b)
unfolding limit_kind_eq
limit_kind_eq_iff a b = ground arith

same_counter_iff :
    (r : RateLimitRecord) (who : ThrottleSubject) (w : Instant)
    → (same_counter r who w ≡ true) ↔ ((r.subject ≡ who) × (r.window_start ≡ w))
unfolding same_counter limit_kind_eq fingerprint_eq equal
same_counter_iff r who w = ground (
  arith,
  limit_kind_eq_iff r.subject.limit_kind who.limit_kind,
  text_eq_iff r.subject.hash.hex who.hash.hex,
  eq_ℤ_iff r.window_start.micros w.micros,
)

find-put_counter :
    (rows : List RateLimitRecord) (r : RateLimitRecord)
    → find_counter (put_counter rows r) r.subject r.window_start ≡ row r
unfolding find_counter put_counter
find-put_counter [] r = ground (arith, (same_counter_iff r r.subject r.window_start).1 (refl, refl))
find-put_counter (x ∷ rows) r =
    let rest = find-put_counter rows r in
    ground (arith, (same_counter_iff r r.subject r.window_start).1 (refl, refl))

other_counter :
    (r : RateLimitRecord) (who : ThrottleSubject) (w : Instant)
    → (r.subject ≢ who) ⊎ (r.window_start ≢ w)
    → same_counter r who w ≡ false
other_counter r who w apart =
    let same = (same_counter_iff r who w).0 in
    elim (Bool-cases (same_counter r who w)) [
      | inl e ↦ elim apart [
        | inl other ↦ absurd (other (same e).0)
        | inr other ↦ absurd (other (same e).1)
      ]
      | inr e ↦ e
    ]

-- Rows with one key answer alike.
same_key_alike :
    (x r : RateLimitRecord) (who : ThrottleSubject) (w : Instant)
    → same_counter x r.subject r.window_start ≡ true
    → same_counter r who w ≡ false
    → same_counter x who w ≡ false
same_key_alike x r who w same apart =
    let (subjects, windows) = (same_counter_iff x r.subject r.window_start).0 same in
    elim (Bool-cases (same_counter x who w)) [
      | inl e ↦
          let (subject, window) = (same_counter_iff x who w).0 e in
          cc ((same_counter_iff r who w).1 (sym subjects ∙ subject, sym windows ∙ window), apart)
      | inr e ↦ e
    ]

find-put_counter_other :
    (rows : List RateLimitRecord) (r : RateLimitRecord) (who : ThrottleSubject) (w : Instant)
    → (r.subject ≢ who) ⊎ (r.window_start ≢ w)
    → find_counter (put_counter rows r) who w ≡ find_counter rows who w
unfolding find_counter put_counter
find-put_counter_other [] r who w apart = ground (arith, other_counter r who w apart)
find-put_counter_other (x ∷ rows) r who w apart =
    let rest = find-put_counter_other rows r who w apart in
    ground (arith, other_counter r who w apart, same_key_alike x r who w)

pub saved_law :
    (s t : List RateLimitRecord) (r : RateLimitRecord)
    → ◌≡◌ {A = List RateLimitRecord ⊎ Fault} (inl (put_counter s r)) (inl t)
    → find_counter t r.subject r.window_start ≡ row r
saved_law s t r h =
    let same : put_counter s r ≡ t = ground arith in
    subst (λ u. find_counter u r.subject r.window_start ≡ row r) same (find-put_counter s r)

pub kept_law :
    (s t : List RateLimitRecord) (r : RateLimitRecord) (who : ThrottleSubject) (w : Instant)
    → ◌≡◌ {A = List RateLimitRecord ⊎ Fault} (inl (put_counter s r)) (inl t)
    → (r.subject ≢ who) ⊎ (r.window_start ≢ w)
    → find_counter t who w ≡ find_counter s who w
kept_law s t r who w h elsewhere =
    let same : put_counter s r ≡ t = ground arith in
    subst (λ u. find_counter u who w ≡ find_counter s who w) same
      (find-put_counter_other s r who w elsewhere)

-- The store of the tests.
unfoldable pub memory_limits : RateLimits (List RateLimitRecord)
memory_limits = record {
  get_rate_limit = find_counter;
  save_rate_limit = λ rows r. inl (put_counter rows r);
  saved = saved_law;
  kept = kept_law;
}
