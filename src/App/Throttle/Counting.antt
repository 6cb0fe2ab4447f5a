-- ===== src/App/Throttle/Counting.antt =====
-- internal/app/service/preauth.go: the counters along `recordPreAuthFailure`.
use cert_me.Prelude.{
  All, List, [], ap, arith, inl, inr, subst, suc, sym, zero, ℕ, ◌-◌, ◌<◌, ◌^◌, ◌∙◌, ◌∷◌, ◌≡◌, ◌≢◌,
  ◌⊎◌,
}
use cert_me.App.Throttle.{
  Lookup, Lookup-cases, RateLimitRecord, RateLimits, Saved-cases, ThrottleSubject, count_failure,
  current_window_start, missing, record_pre_auth_failure, row, save_counter, save_failure,
  unreadable,
}
use cert_me.Prelude.Int.{add64, apart, pos, wrap64, ℤ, ◌+ℤ◌}
use cert_me.Values.Instant.{Instant, unset}

-- `who` is in the list once.
abbrev pub Once : ThrottleSubject → List ThrottleSubject → Type 0
Once who [] = ⊥
Once who (x ∷ xs) = ((x ≡ who) × All (λ y. y ≢ who) xs) ⊎ ((x ≢ who) × Once who xs)

-- The failures that a lookup shows.
abbrev pub failures : Lookup → ℤ
failures missing = pos 0
failures (row r) = r.failure_count
failures (unreadable e) = pos 0

module _ {S : Type 0} (limits : RateLimits S) where
  saved_row :
      (s t : S) (r : RateLimitRecord)
      → save_counter limits s r ≡ inl t
      → limits.save_rate_limit s r ≡ inl t
  unfolding save_counter
  saved_row s t r h = elim (Saved-cases (limits.save_rate_limit s r)) [
    | inl (u, e) ↦ ground (arith, e)
    | inr (f, e) ↦ ground (arith, e)
  ]

  one_saved :
      (s t : S) (who : ThrottleSubject) (w : Instant)
      → save_failure limits s who w ≡ inl t
      → (b : Instant) × (limits.save_rate_limit s
            (count_failure who w (failures (limits.get_rate_limit s who w)) b)
          ≡ inl t)
  unfolding save_failure
  one_saved s t who w h = elim (Lookup-cases (limits.get_rate_limit s who w)) [
    | inl e ↦ (
      unset,
      saved_row s t (count_failure who w (failures (limits.get_rate_limit s who w)) unset)
          (rw e (rw (e, save_failure) at h)),
    )
    | inr (inl (r, e)) ↦ (
      r.blocked_until,
      saved_row s t (count_failure who w (failures (limits.get_rate_limit s who w)) r.blocked_until)
          (rw e (rw (e, save_failure) at h)),
    )
    | inr (inr (f, e)) ↦ ground (arith, e)
  ]

  -- The row of `who` in the window `w` after one more failure than before.
  abbrev OneMore : S → S → ThrottleSubject → Instant → Type 0
  OneMore s t who w =
      (b : Instant) × (limits.get_rate_limit t who w
        ≡ row (count_failure who w (failures (limits.get_rate_limit s who w)) b))

  get_saved :
      (s t : S) (who : ThrottleSubject) (w : Instant)
      → save_failure limits s who w ≡ inl t
      → OneMore s t who w
  unfolding count_failure
  get_saved s t who w h = let (b, stored) = one_saved s t who w h in (b, limits.saved s t _ stored)

  get_other :
      (s t : S) (x who : ThrottleSubject) (v w : Instant)
      → save_failure limits s x v ≡ inl t
      → (x ≢ who) ⊎ (v ≢ w)
      → limits.get_rate_limit t who w ≡ limits.get_rate_limit s who w
  unfolding count_failure
  get_other s t x who v w h apart =
      let (b, stored) = one_saved s t x v h in limits.kept s t _ who w stored apart

  elsewhere_kept :
      (s t : S) (who : ThrottleSubject) (xs : List ThrottleSubject) (now w : Instant)
      → record_pre_auth_failure limits s xs now ≡ inl t
      → All (λ x. x ≢ who) xs ⊎ (current_window_start now ≢ w)
      → limits.get_rate_limit t who w ≡ limits.get_rate_limit s who w
  unfolding record_pre_auth_failure
  elsewhere_kept s t who [] now w h apart =
      let same : s ≡ t = ground arith in ap (λ u. limits.get_rate_limit u who w) (sym same)
  elsewhere_kept s t who (x ∷ xs) now w h apart =
      elim (Saved-cases (save_failure limits s x (current_window_start now))) [
        | inr (f, e) ↦ ground (arith, e)
        | inl (u, e) ↦
            elsewhere_kept u t who xs now w (rw (e, record_pre_auth_failure) at h) (later apart)
            ∙ get_other s u x who (current_window_start now) w e (here apart)
      ]
    where
      later :
          All (λ y. y ≢ who) (x ∷ xs) ⊎ (current_window_start now ≢ w)
          → All (λ y. y ≢ who) xs ⊎ (current_window_start now ≢ w)
      later (inl (q, qs)) = inl qs
      later (inr q) = inr q

      here :
          All (λ y. y ≢ who) (x ∷ xs) ⊎ (current_window_start now ≢ w)
          → (x ≢ who) ⊎ (current_window_start now ≢ w)
      here (inl (q, qs)) = inl q
      here (inr q) = inr q

  counted-Once :
      (s t : S) (who : ThrottleSubject) (xs : List ThrottleSubject) (now : Instant)
      → record_pre_auth_failure limits s xs now ≡ inl t
      → Once who xs
      → OneMore s t who (current_window_start now)
  unfolding record_pre_auth_failure
  counted-Once s t who [] now h none_there = absurd none_there
  counted-Once s t who (x ∷ xs) now h there =
      elim (Saved-cases (save_failure limits s x (current_window_start now))) [
        | inr (f, e) ↦ ground (arith, e)
        | inl (u, e) ↦
            let rest = rw (e, record_pre_auth_failure) at h in
            after_first u e rest (counted-Once u t who xs now rest) there
      ]
    where
      after_first :
          (u : S)
          → save_failure limits s x (current_window_start now) ≡ inl u
          → record_pre_auth_failure limits u xs now ≡ inl t
          → (Once who xs → OneMore u t who (current_window_start now))
          → Once who (x ∷ xs)
          → OneMore s t who (current_window_start now)
      after_first u e k counted_later (inl (same, others)) =
          let w = current_window_start now in
          let first = subst (λ y. save_failure limits s y w ≡ inl u) same e in
          let (b, counted) = get_saved s u who w first in
          (b, elsewhere_kept u t who xs now w k (inl others) ∙ counted)
      after_first u e k counted_later (inr (other, inside)) =
          let w = current_window_start now in
          let (b, counted) = counted_later inside in
          let before_it = get_other s u x who w w e (inl other) in
          (b, counted ∙ ap (λ l. row (count_failure who w (failures l) b)) before_it)

-- `n` failures of `who` recorded in the window `w`, with any failures of other subjects or in other
-- windows between them.
pub data Failed {S : Type 0} (limits : RateLimits S) (who : ThrottleSubject) (w : Instant) (s : S)
    : ℕ → S → Type 0 where
  not_yet : Failed limits who w s 0 s
  once_more :
      {n : ℕ} {t u : S}
      → Failed limits who w s n t
      → (xs : List ThrottleSubject) (now : Instant)
      → record_pre_auth_failure limits t xs now ≡ inl u
      → Once who xs
      → current_window_start now ≡ w
      → Failed limits who w s (suc n) u
  apart_from_it :
      {n : ℕ} {t u : S}
      → Failed limits who w s n t
      → (xs : List ThrottleSubject) (now : Instant)
      → record_pre_auth_failure limits t xs now ≡ inl u
      → All (λ x. x ≢ who) xs ⊎ (current_window_start now ≢ w)
      → Failed limits who w s n u

one_more_failure : (n : ℕ) → n < 2 ^ 63 - 1 → add64 (pos n) (pos 1) ≡ pos (suc n)
unfolding add64 wrap64 ◌+ℤ◌
one_more_failure n below = ground arith

module _ {S : Type 0} (limits : RateLimits S) (who : ThrottleSubject) (w : Instant) (s : S) where
  pub failures_counted :
      (n : ℕ) (t : S)
      → Failed limits who w s n t
      → limits.get_rate_limit s who w ≡ missing
      → n < 2 ^ 63
      → failures (limits.get_rate_limit t who w) ≡ pos n
  unfolding count_failure
  failures_counted zero t not_yet fresh small = ap failures fresh
  failures_counted (suc n) u (once_more {t = t} run xs now h there at_w) fresh small =
      let (b, counted) =
        subst (OneMore limits t u who) at_w (counted-Once limits t u who xs now h there) in
      let before = failures_counted n t run fresh (ground arith) in
      ap failures counted ∙ ap (λ c. add64 c (pos 1)) before ∙ one_more_failure n (ground arith)
  failures_counted n u (apart_from_it {t = t} run xs now h apart) fresh small =
      ap failures (elsewhere_kept limits t u who xs now w h apart)
      ∙ failures_counted n t run fresh small
