-- ===== src/App/Retry.antt =====
-- internal/app/service/retry.go: redoing a whole preparation after a version conflict. A closure is a
-- function on a state, and `ctx.Err()` a test of the state before an attempt.
use cert_me.Prelude.{
  Bool, Bool-cases, Option, arith, false, if◌then◌else◌, inl, inr, none, refl, some, suc, true,
  zero, ℕ, ◌<◌, ◌||◌, ◌↔◌, ◌≡◌, ◌⊎◌,
}
use cert_me.App.{
  Fault, commit_unknown, conflict_kind, duplicate, is_store_fault, no_fault, other_fault,
  unavailable_kind, version_conflict, wrap_app_error,
}

abbrev pub max_preparation_attempts : ℕ
max_preparation_attempts = 3

unfoldable pub retryable_preparation : Fault → Bool
retryable_preparation e =
    if is_store_fault commit_unknown e || is_store_fault duplicate e
    then false
    else is_store_fault version_conflict e

-- What follows one attempt; `again` is the loop with the attempts that are left.
unfoldable pub settle {ℓ} :
    {S : Type ℓ} → S × Option Fault → (Fault → S → S × Option Fault) → S × Option Fault
settle (t, none) again = (t, none)
settle (t, some e) again =
    let redone = again e t in if retryable_preparation e then redone else (t, some e)

module _ {S : Type 0} (canceled : S → Bool) (attempt : S → S × Option Fault) where
  -- The loop with `left` attempts to go and `last_err` as it stands.
  unfoldable pub retry_loop : ℕ → Fault → S → S × Option Fault
  retry_loop zero last_err s = (s, some (wrap_app_error conflict_kind "store_contention" last_err))
  retry_loop (suc left) last_err s =
      let tried = settle (attempt s) (λ e t. retry_loop left e t) in
      if canceled s
      then (s, some (wrap_app_error unavailable_kind "request_canceled" other_fault))
      else tried

  unfoldable pub run_with_retry : S → S × Option Fault
  unfolding retry_loop
  run_with_retry s = retry_loop max_preparation_attempts no_fault s

  -- `n` attempts in a row from `s` to `t`, each of which lost a version race.
  pub data Lost (t : S) : ℕ → S → Type 0 where
    untried : Lost t 0 t
    lost :
        {n : ℕ} {s u : S}
        → canceled s ≡ false
        → (e : Fault) → retryable_preparation e ≡ true
        → attempt s ≡ (u, some e)
        → Lost t n u
        → Lost t (suc n) s

  -- The last of at most `left` attempts succeeds, after version races alone.
  abbrev pub Succeeds : ℕ → S → S → Type 0
  Succeeds left s t =
      (n : ℕ) × (u : S) × (n < left) × Lost u n s × (canceled u ≡ false) × (attempt u ≡ (t, none))

  settled :
      (r : S × Option Fault) (again : Fault → S → S × Option Fault) (t : S)
      → settle r again ≡ (t, none)
      → (r ≡ (t, none))
        ⊎ ((e : Fault) × (u : S) × (r ≡ (u, some e))
            × (retryable_preparation e ≡ true)
            × (again e u ≡ (t, none)))
  unfolding settle
  settled (u, none) again t h = inl h
  settled (u, some e) again t h = inr (e, u, refl, ground arith, ground arith)

  loop-Succeeds :
      (left : ℕ) (last_err : Fault) (s t : S)
      → retry_loop left last_err s ≡ (t, none)
      → Succeeds left s t
  unfolding retry_loop
  loop-Succeeds zero last_err s t h = ground arith
  loop-Succeeds (suc left) last_err s t h = elim (Bool-cases (canceled s)) [
    | inl halted ↦ ground arith
    | inr going ↦ elim (settled (attempt s) (λ e u. retry_loop left e u) t (ground arith)) [
      | inl won ↦ (0, s, ground arith, untried, going, won)
      | inr (e, u, raced, again, rest) ↦
          let (n, v, below, races, live, won) = loop-Succeeds left e u t rest in
          (suc n, v, ground arith, lost going e again raced races, live, won)
    ]
  ]

  Succeeds-loop :
      (left : ℕ) (last_err : Fault) (s t : S)
      → Succeeds left s t
      → retry_loop left last_err s ≡ (t, none)
  unfolding retry_loop settle
  Succeeds-loop zero last_err s t (n, u, below, races, live, won) = ground arith
  Succeeds-loop (suc left) last_err s t (zero, u, below, untried, live, won) = rw (live, won) refl
  Succeeds-loop (suc left) last_err s t
        (suc n, v, below, lost going e again raced races, live, won) =
      rw (going, raced, again) (Succeeds-loop left e _ t (n, v, ground arith, races, live, won))

  -- `RunWithRetry` returns no error exactly when one of the first three attempts succeeds, every
  -- attempt before it having lost a version race and nothing having canceled the request before any of
  -- them; it then leaves the state that this attempt left.
  pub run_with_retry_iff : (s t : S) → (run_with_retry s ≡ (t, none)) ↔ Succeeds 3 s t
  unfolding run_with_retry
  run_with_retry_iff s t = (loop-Succeeds 3 no_fault s t, Succeeds-loop 3 no_fault s t)
