-- ===== src/Examples/Retrying.antt =====
-- internal/app/service/retry.go at concrete inputs.
use cert_me.Prelude.{Bool, Option, false, if◌then◌else◌, ltb, none, refl, some, suc, ℕ, ◌↔◌, ◌≡◌}
use cert_me.App.{Fault, is_store_fault, store_fault, version_conflict}
use cert_me.App.Retry.{Succeeds, retryable_preparation, run_with_retry, run_with_retry_iff, settle}

-- The first two attempts lose a version race.
abbrev racing : ℕ → ℕ × Option Fault
racing n = (suc n, if ltb n 2 then some (store_fault version_conflict) else none)

abbrev never : ℕ → Bool
never n = false

third_wins : run_with_retry never racing 0 ≡ (3, none)
unfolding run_with_retry settle retryable_preparation is_store_fault
third_wins = refl

run_with_retry_iff_example :
    (run_with_retry never racing 0 ≡ (3, none)) ↔ Succeeds never racing 3 0 3
run_with_retry_iff_example = run_with_retry_iff never racing 0 3
