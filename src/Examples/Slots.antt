-- ===== src/Examples/Slots.antt =====
-- internal/cryptowork/gate.go at concrete inputs.
use cert_me.Prelude.{[], false, inl, inr, refl, some, true, ◌∷◌, ◌≡◌}
use cert_me.CryptoWork.{
  Gate, WorkContext, acquire, busy, is_released, mark_released, release, slot_free, try_acquire,
}
use cert_me.CryptoWork.Slots.{Balanced, gave_back, idle, slots-Balanced, tried, waited}
use cert_me.Prelude.Star.{done, more}

abbrev live : WorkContext
live = record { given = true; done_before = false; done_after = false }

abbrev one_running : Gate
one_running = record { taken = 1; released = false ∷ [] }

abbrev two_running : Gate
two_running = record { taken = 2; released = false ∷ false ∷ [] }

abbrev first_back : Gate
first_back = record { taken = 1; released = true ∷ false ∷ [] }

first_admitted : one_running ≡ (try_acquire idle live).0
unfolding try_acquire
first_admitted = refl

second_admitted : acquire one_running live slot_free ≡ some (two_running, inr 1)
unfolding acquire
second_admitted = refl

third_refused : (try_acquire two_running live).1 ≡ inl busy
unfolding try_acquire
third_refused = refl

first_released : first_back ≡ release 0 two_running
unfolding release is_released mark_released
first_released = refl

slots-Balanced_example : Balanced first_back
slots-Balanced_example = slots-Balanced first_back (
    more (tried live first_admitted) (
      more (waited live slot_free (inr 1) second_admitted)
        (more (gave_back 0 first_released) done)))
