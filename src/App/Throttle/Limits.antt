-- ===== src/App/Throttle/Limits.antt =====
-- internal/app/service/preauth.go: `requirePreAuthAdmission` against the counters that it reads.
use cert_me.Prelude.{
  All, Any, List, Option, [], arith, inl, inr, none, refl, subst, ℕ, ◌<◌, ◌^◌, ◌↔◌, ◌∷◌, ◌≡◌, ◌≢◌,
  ◌≤◌, ◌⊎◌,
}
use cert_me.App.{Fault}
use cert_me.App.Throttle.{
  Lookup, RateLimits, ThrottleSubject, admit_lookup, current_window_start, missing,
  require_pre_auth_admission, row, unreadable,
}
use cert_me.App.Throttle.Counting.{Failed, failures, failures_counted}
use cert_me.Prelude.Int.{pos, ◌<ℤ◌, ◌≤ℤ◌}
use cert_me.Values.Instant.{Instant, before, is_zero}

-- The counter of `who` in the window of `now` lets an attempt through.
abbrev pub Passes : Lookup → Instant → Type 0
Passes missing now = Unit
Passes (unreadable e) now = ⊥
Passes (row r) now =
    ((r.blocked_until.micros ≡ pos 0) ⊎ (r.blocked_until.micros ≤ℤ now.micros))
    × (r.failure_count <ℤ pos 10)

admit_lookup_iff :
    (l : Lookup) (now : Instant) (rest : Option Fault)
    → (admit_lookup l now rest ≡ none) ↔ (Passes l now × (rest ≡ none))
unfolding admit_lookup is_zero before
admit_lookup_iff missing now rest = (λ h. (tt, h), λ h. h.1)
admit_lookup_iff (unreadable e) now rest = (λ h. ground arith, λ h. absurd h.0)
admit_lookup_iff (row r) now rest = (λ h. ground arith, λ h. ground arith)

module _ {S : Type 0} (limits : RateLimits S) where
  -- An attempt is admitted exactly when the counter of every subject in the current window is
  -- missing, or has fewer than ten failures and no block that lasts beyond now.
  pub admission_iff :
      (s : S) (subjects : List ThrottleSubject) (now : Instant)
      → (require_pre_auth_admission limits s subjects now ≡ none)
        ↔ All (λ who. Passes (limits.get_rate_limit s who (current_window_start now)) now) subjects
  unfolding require_pre_auth_admission
  admission_iff s [] now = (λ _. tt, λ _. refl)
  admission_iff s (who ∷ subjects) now =
      let (rest_of, rest_ok) = admission_iff s subjects now in
      let (passes_of, passes_ok) =
        admit_lookup_iff (limits.get_rate_limit s who (current_window_start now)) now
          (require_pre_auth_admission limits s subjects now) in
      (
        λ h. let (here, later) = passes_of h in (here, rest_of later),
        λ (here, later). passes_ok (here, rest_ok later),
      )

ten_refuse : (l : Lookup) (n : ℕ) (now : Instant) → failures l ≡ pos n → 10 ≤ n → Passes l now → ⊥
ten_refuse missing n now counted ten = λ p. ground arith
ten_refuse (row r) n now counted ten = λ p. ground (arith, p.1)
ten_refuse (unreadable e) n now counted ten = λ p. p

refused_by :
    {S : Type 0} (limits : RateLimits S) (t : S) (who : ThrottleSubject)
    (subjects : List ThrottleSubject) (now : Instant)
    → Any (λ x. x ≡ who) subjects
    → All (λ x. Passes (limits.get_rate_limit t x (current_window_start now)) now) subjects
    → Passes (limits.get_rate_limit t who (current_window_start now)) now
refused_by limits t who [] now there passes = absurd there
refused_by limits t who (x ∷ xs) now (inl same) (here, later) =
    subst (λ y. Passes (limits.get_rate_limit t y (current_window_start now)) now) same here
refused_by limits t who (x ∷ xs) now (inr there) (here, later) =
    refused_by limits t who xs now there later

-- After ten or more failures of a subject were recorded in one window, starting without a counter,
-- an attempt that counts against the subject is refused at every time of that window, whatever
-- failures of other subjects or in other windows were recorded in between.
pub ten_failures_refuse :
    {S : Type 0} (limits : RateLimits S) (s t : S) (who : ThrottleSubject) (n : ℕ)
    (subjects : List ThrottleSubject) (now : Instant)
    → limits.get_rate_limit s who (current_window_start now) ≡ missing
    → Failed limits who (current_window_start now) s n t
    → 10 ≤ n
    → n < 2 ^ 63
    → Any (λ x. x ≡ who) subjects
    → require_pre_auth_admission limits t subjects now ≢ none
ten_failures_refuse limits s t who n subjects now fresh run ten small there admitted =
    let counted = failures_counted limits who (current_window_start now) s n t run fresh small in
    ten_refuse (limits.get_rate_limit t who (current_window_start now)) n now counted ten (
      refused_by limits t who subjects now there ((admission_iff limits t subjects now).0 admitted))
