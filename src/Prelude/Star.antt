-- ===== src/Prelude/Star.antt =====
-- Finite runs of a step relation, and invariants along them.
use cert_me.Prelude.{◌⊎◌}

pub data Star {ℓ} {A : Type ℓ} (R : A → A → Type ℓ) : A → A → Type ℓ where
  done : {a : A} → Star R a a
  more : {a b c : A} → R a b → Star R b c → Star R a c

-- What every step keeps, every run keeps.
pub Star-keeps {ℓ κ} :
    {A : Type ℓ} {R : A → A → Type ℓ} (P : A → Type κ)
    → ((a b : A) → R a b → P a → P b)
    → {a b : A} → Star R a b
    → P a
    → P b
Star-keeps P keep done p = p
Star-keeps P keep (more {a} {b} st rest) p = Star-keeps P keep rest (keep a b st p)

-- Some step of the run is as `P` says.
abbrev pub Occurs {ℓ} :
    {A : Type ℓ} {R : A → A → Type ℓ}
    → ((a b : A) → R a b → Type 0)
    → {a b : A} → Star R a b
    → Type 0
Occurs P done = ⊥
Occurs P (more {a} {b} st rest) = P a b st ⊎ Occurs P rest
