-- ===== src/Values/Instant/Coverage.antt =====
-- internal/domain/values.go: `Covers` and `ContainsAt` of a validity window.
use cert_me.Prelude.{arith, false, true, ◌↔◌, ◌≡◌}
use cert_me.Errors.{ok}
use cert_me.Prelude.Int.{eq_of_parts, pos, ◌-ℤ◌, ◌<ℤ◌, -ℤ_parts}
use cert_me.Values.Instant.{
  Instant, ValidityWindow, before, contains_at, covers, is_expired_at, new_validity_window,
}

ruleset window_tests = (arith, eq_of_parts)

not_before_iff : (a b : Instant) → (before a b ≡ true) ↔ (a.micros <ℤ b.micros)
unfolding before
not_before_iff a b = ground arith

-- A window that is not empty is covered exactly by the windows that contain all its instants.
pub covers_iff :
    (w inner : ValidityWindow)
    → inner.not_before.micros <ℤ inner.not_after.micros
    → (covers w inner ≡ true)
      ↔ ((now : Instant) → contains_at inner now ≡ true → contains_at w now ≡ true)
unfolding covers contains_at
covers_iff w inner filled = (
  λ h now inside. ground arith,
  λ h. ground (arith, h inner.not_before, h last, -ℤ_parts inner.not_after.micros (pos 1)),
)
  where
    last : Instant
    last = record { micros = inner.not_after.micros -ℤ pos 1 }

-- An instant inside a window that `NewValidityWindow` built is not past its end.
pub contains_at_not_expired :
    (a b now : Instant) {w : ValidityWindow}
    → new_validity_window a b ≡ ok w
    → contains_at w now ≡ true
    → (is_expired_at b now ≡ false) × (before now a ≡ false)
unfolding new_validity_window contains_at is_expired_at
contains_at_not_expired a b now h inside = ground arith
