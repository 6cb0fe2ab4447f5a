-- ===== src/Examples/Throttling.antt =====
-- internal/app/service/preauth.go over the store of the tests, at concrete inputs.
use cert_me.Prelude.{
  All, List, [], arith, if◌then◌else◌, inl, leb, none, refl, subst, suc, zero, ℕ, ◌<◌, ◌↔◌, ◌∷◌,
  ◌≡◌, ◌≢◌, ◌≤◌,
}
use cert_me.App.Throttle.{
  RateLimitRecord, ThrottleSubject, count_failure, current_window_start, failure_window,
  instant_from_time, login_account, missing, record_pre_auth_failure, require_pre_auth_admission,
  save_counter, save_failure, window_offset,
}
use cert_me.App.Throttle.Counting.{Failed, not_yet, once_more}
use cert_me.App.Throttle.Limits.{Passes, admission_iff, ten_failures_refuse}
use cert_me.App.Throttle.Memory.{
  find_counter, limit_kind_eq, memory_limits, put_counter, same_counter,
}
use cert_me.Calendar.{rem}
use cert_me.Examples.Samples.{at}
use cert_me.Prelude.Int.{add64, pos, sub64, wrap64, ◌+ℤ◌, ◌-ℤ◌}
use cert_me.Prelude.Text.{bytes, text_eq}
use cert_me.Values.Hex.{fingerprint_eq}
use cert_me.Values.Instant.{add, equal, unset}

abbrev guest : ThrottleSubject
guest = record { limit_kind = login_account; hash = record { hex = bytes "aa" } }

-- The rows after `n` failures.
abbrev counted : ℕ → List RateLimitRecord
counted zero = []
counted (suc n) =
    record {
      subject = guest;
      window_start = unset;
      failure_count = pos (suc n);
      blocked_until = if leb 9 n then add unset failure_window else unset;
    }
    ∷ []

one_counted :
    (n : ℕ)
    → n < 10
    → record_pre_auth_failure memory_limits (counted n) (guest ∷ []) (at 100)
      ≡ inl (counted (suc n))
unfolding record_pre_auth_failure save_failure save_counter memory_limits find_counter put_counter
    same_counter current_window_start count_failure window_offset instant_from_time rem add64 sub64
    wrap64 ◌+ℤ◌ ◌-ℤ◌ limit_kind_eq fingerprint_eq text_eq equal add
one_counted zero h = refl
one_counted (suc zero) h = refl
one_counted (suc (suc zero)) h = refl
one_counted (suc (suc (suc zero))) h = refl
one_counted (suc (suc (suc (suc zero)))) h = refl
one_counted (suc (suc (suc (suc (suc zero))))) h = refl
one_counted (suc (suc (suc (suc (suc (suc zero)))))) h = refl
one_counted (suc (suc (suc (suc (suc (suc (suc zero))))))) h = refl
one_counted (suc (suc (suc (suc (suc (suc (suc (suc zero)))))))) h = refl
one_counted (suc (suc (suc (suc (suc (suc (suc (suc (suc zero))))))))) h = refl
one_counted (suc (suc (suc (suc (suc (suc (suc (suc (suc (suc n)))))))))) h = ground arith

fails_up_to :
    (n : ℕ) → n ≤ 10 → Failed memory_limits guest (current_window_start (at 100)) [] n (counted n)
fails_up_to zero h = not_yet
fails_up_to (suc n) h =
    once_more (fails_up_to n (ground arith)) (guest ∷ []) (at 100) (one_counted n (ground arith))
      (inl (refl, tt)) refl

no_counter : memory_limits.get_rate_limit [] guest (current_window_start (at 200)) ≡ missing
unfolding memory_limits find_counter
no_counter = refl

same_window : current_window_start (at 100) ≡ current_window_start (at 200)
unfolding current_window_start window_offset instant_from_time rem add64 sub64 wrap64 ◌+ℤ◌ ◌-ℤ◌
same_window = refl

ten_failures : Failed memory_limits guest (current_window_start (at 200)) [] 10 (counted 10)
ten_failures =
    subst (λ w. Failed memory_limits guest w [] 10 (counted 10)) same_window
      (fails_up_to 10 (ground arith))

ten_failures_refuse_example :
    require_pre_auth_admission memory_limits (counted 10) (guest ∷ []) (at 200) ≢ none
ten_failures_refuse_example =
    ten_failures_refuse memory_limits [] (counted 10) guest 10 (guest ∷ []) (at 200) no_counter
      ten_failures (ground arith) (ground arith) (inl refl)

admission_iff_example :
    (require_pre_auth_admission memory_limits (counted 3) (guest ∷ []) (at 200) ≡ none)
    ↔ All
        (λ who.
          Passes
            (memory_limits.get_rate_limit (counted 3) who (current_window_start (at 200)))
            (at 200))
        (guest ∷ [])
admission_iff_example = admission_iff memory_limits (counted 3) (guest ∷ []) (at 200)
