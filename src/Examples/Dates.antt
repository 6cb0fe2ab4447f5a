-- ===== src/Examples/Dates.antt =====
-- The calendar arithmetic of internal/domain/series.go at concrete days.
use cert_me.Prelude.{arith, ◌≡◌}
use cert_me.Calendar.{add_calendar_months, floor_mod, go_date, read_date}
use cert_me.Calendar.Adding.{add_calendar_months_lem}
use cert_me.Calendar.Civil.{IsDay}
use cert_me.Prelude.Int.{pos, ◌+ℤ◌}

leap_january : IsDay (pos 2024) 1 31
leap_january = (ground arith, ground arith, ground arith, ground arith)

add_calendar_months_lem_example :
    read_date (add_calendar_months (go_date (pos 2024) 1 31) (pos 1))
    ≡ record { year = pos 2024; month = 2; day = 29 }
unfolding floor_mod ◌+ℤ◌
add_calendar_months_lem_example =
    add_calendar_months_lem (pos 2024) 1 31 1 leap_january (ground arith) (ground arith)
      (ground arith)
