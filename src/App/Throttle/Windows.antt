-- ===== src/App/Throttle/Windows.antt =====
-- internal/app/service/preauth.go: `currentWindowStart` as a floor division.
use cert_me.Prelude.{arith, ℕ, ◌%◌, ◌*◌, ◌/◌, ◌<◌, ◌^◌, ◌≡◌}
use cert_me.App.Throttle.{current_window_start, instant_from_time, window_offset}
use cert_me.Calendar.{rem}
use cert_me.Prelude.Int.{add64, pos, sub64, wrap64, ◌+ℤ◌, ◌-ℤ◌}

offset_exact : (n : ℕ) → window_offset (pos n) ≡ pos (n % 900_000_000)
unfolding window_offset rem add64 wrap64 ◌+ℤ◌
offset_exact n = ground arith

-- From 1970 on, the window of a time starts at the greatest multiple of fifteen minutes that is not
-- after it: two times share a window exactly if they lie between the same multiples.
pub current_window_start_lem :
    (n : ℕ)
    → n < 2 ^ 63
    → current_window_start (record { micros = pos n })
      ≡ record { micros = pos (n / 900_000_000 * 900_000_000) }
unfolding current_window_start instant_from_time sub64 wrap64 ◌-ℤ◌
current_window_start_lem n small = rw (offset_exact n) (ground arith)
