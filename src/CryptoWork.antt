-- ===== src/CryptoWork.antt =====
-- internal/cryptowork/gate.go: the limit on expensive cryptographic operations that run at once.
pub mod Slots
use cert_me.Prelude.{
  Bool, List, Option, [], false, if◌then◌else◌, inl, inr, length, ltb, none, not, some, suc, true,
  zero, ℕ, ◌++◌, ◌+◌, ◌-◌, ◌∷◌, ◌⊎◌,
}

-- `maxConcurrent`, the capacity of the channel `slots`.
abbrev pub max_concurrent : ℕ
max_concurrent = 2

-- The process: how many values the channel holds, and for each admitted operation whether the
-- `sync.Once` of its release function has run.
pub record Gate : Type 0 where
  pub taken : ℕ
  pub released : List Bool

-- What a call sees of its context: whether it was given, and `ctx.Err()` at its two tests.
pub record WorkContext : Type 0 where
  pub given : Bool
  pub done_before : Bool
  pub done_after : Bool

pub data WorkError : Type 0 where
  context_required context_done busy : WorkError

-- The number of the operation, which its release function knows, or an error.
abbrev pub Ticket : Type 0
Ticket = WorkError ⊎ ℕ

-- The body of `case slots <- struct{}{}`.
unfoldable pub admit : Gate → WorkContext → Gate × Ticket
admit g ctx = if ctx.done_after then (record g { taken = g.taken + 1 - 1 }, inl context_done) else (
  record { taken = g.taken + 1; released = g.released ++ (false ∷ []) },
  inr (length g.released),
)

unfoldable pub try_acquire : Gate → WorkContext → Gate × Ticket
unfolding admit
try_acquire g ctx =
    if not ctx.given
    then (g, inl context_required)
    else if ctx.done_before
    then (g, inl context_done)
    else if ltb g.taken max_concurrent
    then admit g ctx
    else (g, inl busy)

-- The case of the `select` in `Acquire` that goes ahead.
pub data Wake : Type 0 where
  slot_free canceled_wait timed_out : Wake

-- `Acquire`, by the case that its `select` takes; a send goes ahead only with room in the channel, and
-- the call is not back otherwise (`none`).
unfoldable pub acquire : Gate → WorkContext → Wake → Option (Gate × Ticket)
unfolding admit
acquire g ctx wake =
    if not ctx.given
    then some (g, inl context_required)
    else if ctx.done_before
    then some (g, inl context_done)
    else elim wake [
      | slot_free ↦ if ltb g.taken max_concurrent then some (admit g ctx) else none
      | canceled_wait ↦ some (g, inl context_done)
      | timed_out ↦ some (g, inl busy)
    ]

-- The release function of operation `i` has run already, or there is no such operation.
unfoldable pub is_released : ℕ → List Bool → Bool
is_released i [] = true
is_released zero (b ∷ bs) = b
is_released (suc i) (b ∷ bs) = is_released i bs

unfoldable pub mark_released : ℕ → List Bool → List Bool
mark_released i [] = []
mark_released zero (b ∷ bs) = true ∷ bs
mark_released (suc i) (b ∷ bs) = b ∷ mark_released i bs

-- The release function of operation `i`: `once.Do(func() { <-slots })`.
unfoldable pub release : ℕ → Gate → Gate
release i g =
    if is_released i g.released
    then g
    else record { taken = g.taken - 1; released = mark_released i g.released }
