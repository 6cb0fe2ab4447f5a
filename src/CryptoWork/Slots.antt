-- ===== src/CryptoWork/Slots.antt =====
-- internal/cryptowork/gate.go: the slots along any interleaving of calls.
use cert_me.Prelude.{
  Bool, Bool-cases, List, [], arith, false, if◌then◌else◌, inl, inr, refl, some, subst, suc, sym,
  true, zero, ℕ, ◌++◌, ◌∷◌, ◌≡◌, ◌≤◌,
}
use cert_me.CryptoWork.{
  Gate, Ticket, Wake, WorkContext, acquire, admit, canceled_wait, is_released, mark_released,
  release, slot_free, timed_out, try_acquire,
}
use cert_me.Prelude.Star.{Star, Star-keeps}

-- The operations that run: admitted and not released.
abbrev pub running : List Bool → ℕ
running [] = 0
running (b ∷ bs) = if b then running bs else suc (running bs)

-- One call that comes back.
pub data Step (g : Gate) (h : Gate) : Type 0 where
  tried : (ctx : WorkContext) → h ≡ (try_acquire g ctx).0 → Step g h
  waited :
      (ctx : WorkContext) (wake : Wake) (ticket : Ticket)
      → acquire g ctx wake ≡ some (h, ticket)
      → Step g h
  gave_back : (i : ℕ) → h ≡ release i g → Step g h

-- The channel holds one value for each running operation, and never more than its capacity.
pub record Balanced (g : Gate) : Type 0 where
  pub held : g.taken ≡ running g.released
  pub bounded : g.taken ≤ 2

running-append : (bs : List Bool) → running (bs ++ (false ∷ [])) ≡ suc (running bs)
running-append [] = refl
running-append (b ∷ bs) = let rest = running-append bs in ground arith

running-mark_released :
    (i : ℕ) (bs : List Bool)
    → is_released i bs ≡ false
    → running bs ≡ suc (running (mark_released i bs))
unfolding is_released mark_released
running-mark_released i [] h = ground arith
running-mark_released zero (b ∷ bs) h = ground arith
running-mark_released (suc i) (b ∷ bs) h = let rest = running-mark_released i bs h in ground arith

same-Balanced : (g h : Gate) → h ≡ g → Balanced g → Balanced h
same-Balanced g h e b = subst Balanced (sym e) b

try_acquire-Balanced : (g : Gate) (ctx : WorkContext) → Balanced g → Balanced (try_acquire g ctx).0
unfolding try_acquire admit
try_acquire-Balanced g ctx b = record {
  held = ground (arith, running-append g.released, b.held);
  bounded = ground (arith, b.bounded);
}

acquire-Balanced :
    (g h : Gate) (ctx : WorkContext) (wake : Wake) (ticket : Ticket)
    → acquire g ctx wake ≡ some (h, ticket)
    → Balanced g
    → Balanced h
unfolding acquire admit
acquire-Balanced g h ctx slot_free ticket e b = record {
  held = ground (arith, running-append g.released, b.held);
  bounded = ground (arith, b.bounded);
}
acquire-Balanced g h ctx canceled_wait ticket e b = record {
  held = ground (arith, b.held);
  bounded = ground (arith, b.bounded);
}
acquire-Balanced g h ctx timed_out ticket e b = record {
  held = ground (arith, b.held);
  bounded = ground (arith, b.bounded);
}

release-Balanced : (i : ℕ) (g : Gate) → Balanced g → Balanced (release i g)
unfolding release
release-Balanced i g b = elim (Bool-cases (is_released i g.released)) [
  | inl done_before ↦ same-Balanced g (release i g) (ground arith) b
  | inr first ↦
      let one_less = running-mark_released i g.released first in
      record { held = ground (arith, b.held); bounded = ground (arith, b.bounded) }
]

step-Balanced : (g h : Gate) → Step g h → Balanced g → Balanced h
step-Balanced g h (tried ctx e) b = same-Balanced _ h e (try_acquire-Balanced g ctx b)
step-Balanced g h (waited ctx wake ticket e) b = acquire-Balanced g h ctx wake ticket e b
step-Balanced g h (gave_back i e) b = same-Balanced _ h e (release-Balanced i g b)

-- The process at its start.
abbrev pub idle : Gate
idle = record { taken = 0; released = [] }

-- However calls of `Acquire`, `TryAcquire` and release functions interleave from the start, the
-- channel holds one value for each operation that was admitted and not released, and at most two.
pub slots-Balanced : (h : Gate) → Star Step idle h → Balanced h
slots-Balanced h run =
    Star-keeps Balanced step-Balanced run (record { held = refl; bounded = ground arith })

marked : (i : ℕ) (bs : List Bool) → is_released i (mark_released i bs) ≡ true
unfolding is_released mark_released
marked i [] = ground arith
marked zero (b ∷ bs) = refl
marked (suc i) (b ∷ bs) = marked i bs

-- A release function that is called again changes nothing.
pub release_twice : (i : ℕ) (g : Gate) → release i (release i g) ≡ release i g
unfolding release
release_twice i g = let again = marked i g.released in ground arith
