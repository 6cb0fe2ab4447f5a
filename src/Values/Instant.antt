-- ===== src/Values/Instant.antt =====
-- internal/domain/values.go: instants, durations and validity windows. An instant is a count of
-- microseconds since the Unix epoch in an `int64`; 0 also stands for "not set".
pub mod Coverage
use cert_me.Prelude.{Bool, if◌then◌else◌, not, ℕ, ◌&&◌, ◌*◌}
use cert_me.Errors.{Result, invalid_value, ok, reject_if, wrapped, ◌>>=◌, ◌>>◌}
use cert_me.Prelude.Int.{add64, eq_ℤ, ltb_ℤ, negsuc, pos, sub64, ℤ}

pub record Instant : Type 0 where
  pub micros : ℤ

pub record Duration : Type 0 where
  pub micros : ℤ

-- `Instant{}`
abbrev pub unset : Instant
unset = record { micros = pos 0 }

abbrev pub instant_from_unix_micro : ℤ → Instant
instant_from_unix_micro micros = record { micros = micros }

unfoldable pub is_zero : Instant → Bool
is_zero i = eq_ℤ i.micros (pos 0)

unfoldable pub before : Instant → Instant → Bool
before i other = ltb_ℤ i.micros other.micros

unfoldable pub after : Instant → Instant → Bool
after i other = ltb_ℤ other.micros i.micros

unfoldable pub equal : Instant → Instant → Bool
equal i other = eq_ℤ i.micros other.micros

-- `Instant.Add`
unfoldable pub add : Instant → Duration → Instant
add i d = record { micros = add64 i.micros d.micros }

-- `Instant.Sub`
unfoldable pub sub : Instant → Instant → Duration
sub i other = record { micros = sub64 i.micros other.micros }

-- `IsExpiredAt`: the project-wide rule `now >= expiresAt`.
unfoldable pub is_expired_at : Instant → Instant → Bool
unfolding before
is_expired_at i now = not (before now i)

abbrev pub duration_from_micros : ℤ → Duration
duration_from_micros micros = record { micros = micros }

-- `NewDuration` of a `time.Duration` that is given in hours or minutes.
abbrev pub hours : ℕ → Duration
hours n = record { micros = pos (n * 3_600_000_000) }

abbrev pub minutes : ℕ → Duration
minutes n = record { micros = pos (n * 60_000_000) }

unfoldable pub is_positive : Duration → Bool
is_positive d = ltb_ℤ (pos 0) d.micros

-- `Duration.Compare`
unfoldable pub compare_durations : Duration → Duration → ℤ
compare_durations d other =
    if ltb_ℤ d.micros other.micros
    then negsuc 0
    else if ltb_ℤ other.micros d.micros
    then pos 1
    else pos 0

pub record ValidityWindow : Type 0 where
  pub not_before : Instant
  pub not_after : Instant

-- `ValidityWindow{}`
abbrev pub no_window : ValidityWindow
no_window = record { not_before = unset; not_after = unset }

unfoldable pub new_validity_window : Instant → Instant → Result ValidityWindow
unfolding after
new_validity_window not_before not_after = do
  reject_if (not (after not_after not_before)) (wrapped invalid_value)
  ok (record { not_before = not_before; not_after = not_after })

-- `ValidityWindow.Duration`
unfoldable pub duration : ValidityWindow → Duration
unfolding sub
duration w = sub w.not_after w.not_before

unfoldable pub contains_at : ValidityWindow → Instant → Bool
unfolding before
contains_at w now = not (before now w.not_before) && before now w.not_after

unfoldable pub covers : ValidityWindow → ValidityWindow → Bool
unfolding before after
covers w inner =
    not (before inner.not_before w.not_before) && not (after inner.not_after w.not_after)

unfoldable pub is_zero_window : ValidityWindow → Bool
unfolding is_zero
is_zero_window w = is_zero w.not_before && is_zero w.not_after
