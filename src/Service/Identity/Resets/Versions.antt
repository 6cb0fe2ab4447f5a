-- ===== src/Service/Identity/Resets/Versions.antt =====
-- internal/app/service/identity.go over the store in memory: the versions of the accounts along the
-- calls that change accounts.
use cert_me.Prelude.{
  Bool, Bool-cases, List, ap, arith, if◌then◌else◌, inl, inr, refl, some, sym, ◌∙◌, ◌≡◌,
}
use cert_me.App.Throttle.{RateLimits, ThrottleSubject}
use cert_me.Identity.{Account, PasswordHash}
use cert_me.Identity.Resetting.{HasRoom}
use cert_me.Prelude.Int.{+ℤ_parts, add64_lem, apart, pos, ◌+ℤ◌, ◌<ℤ◌, ◌≤ℤ◌}
use cert_me.Prelude.Star.{Star, Star-keeps}
use cert_me.Prelude.Text.{Text, text_eq, text_eq_iff}
use cert_me.Service.Identity.Resets.{
  BeginResetCalls, CompleteResetCalls, ResetLinkView, begin_reset_tx, completed,
}
use cert_me.Service.Identity.Resets.Closing.{ResetDone, complete_reset_tx_lem}
use cert_me.Service.Identity.Resets.Complete.{complete_reset_tx}
use cert_me.Service.Identity.Resets.Effects.{ResetBegun, WellKeyed, begin_reset_tx_lem}
use cert_me.Store.{gave}
use cert_me.Store.Memory.{
  MemoryState, memory_accounts, memory_audit, memory_installation, request_keyed,
}
use cert_me.Store.Table.{find, find-put, pair_keyed, put, text_keyed}
use cert_me.Values.Hex.{TokenHash}
use cert_me.Values.Ids.{Version, next}

-- Every version of an account can be counted up.
abbrev pub VersionsFit : MemoryState → Type 0
VersionsFit s = (id : Text) (a : Account) → find id s.accounts ≡ some a → HasRoom a.version

-- A change of the store that committed: a `BeginReset` or a `CompleteReset` of any account, or any
-- change that leaves the rows of the accounts, such as a login.
pub data AccountStep (limits : RateLimits MemoryState) (s : MemoryState) (t : MemoryState)
    : Type 0 where
  reset_began :
      (account_id client_ip : Text) (calls : BeginResetCalls) (raw : Text) (hash : TokenHash)
      (link : ResetLinkView)
      → VersionsFit s
      → begin_reset_tx memory_accounts memory_audit memory_installation account_id client_ip calls
          raw hash s
        ≡ gave (link, t)
      → AccountStep limits s t
  reset_ended :
      (subjects : List ThrottleSubject) (client_ip : Text) (calls : CompleteResetCalls)
      (known : Bool) (new_hash : PasswordHash) (hash : TokenHash)
      → VersionsFit s
      → complete_reset_tx memory_accounts memory_audit limits subjects client_ip calls known
          new_hash hash s
        ≡ gave (completed, t)
      → AccountStep limits s t
  accounts_left : t.accounts ≡ s.accounts → AccountStep limits s t

-- Every account is still there, with a version that is not below the one before.
abbrev pub Grows : MemoryState → MemoryState → Type 0
Grows s t =
    (id : Text) (a : Account)
    → find id s.accounts ≡ some a
    → (b : Account) × (find id t.accounts ≡ some b) × (a.version ≤ℤ b.version)

pub next-lt : (v : Version) → HasRoom v → v <ℤ next v
unfolding next
next-lt v room =
    rw (add64_lem v (pos 1) (ground (arith, +ℤ_parts v (pos 1), apart (v +ℤ pos 1))))
      (omega (arith, +ℤ_parts v (pos 1)))

row_after :
    (a b : Account) (s t : MemoryState) (id : Text)
    → t.accounts ≡ put a.id b s.accounts
    → find id t.accounts ≡ (if text_eq a.id id then some b else find id s.accounts)
row_after a b s t id rows = rw rows (find-put a.id id b s.accounts)

put_keyed :
    (a b : Account) (s t : MemoryState)
    → b.id ≡ a.id
    → t.accounts ≡ put a.id b s.accounts
    → WellKeyed s
    → WellKeyed t
put_keyed a b s t same rows keyed id c held = elim (Bool-cases (text_eq a.id id)) [
  | inl own ↦ ground (arith, row_after a b s t id rows, text_eq_iff a.id id)
  | inr other ↦ keyed id c (ground (arith, row_after a b s t id rows))
]

put-Grows :
    (a b : Account) (s t : MemoryState)
    → find a.id s.accounts ≡ some a
    → t.accounts ≡ put a.id b s.accounts
    → a.version ≤ℤ b.version
    → Grows s t
put-Grows a b s t was rows up id c held = elim (Bool-cases (text_eq a.id id)) [
  | inl own ↦
      let same : a.id ≡ id = (text_eq_iff a.id id).0 own in
      let is_a : some a ≡ some c = sym was ∙ ap (λ k. find k s.accounts) same ∙ held in
      (b, ground (arith, row_after a b s t id rows), ground arith)
  | inr other ↦ (c, ground (arith, row_after a b s t id rows), ground arith)
]

pub begun-Grows :
    (account_id : Text) (a : Account) (s t : MemoryState)
    → WellKeyed s
    → VersionsFit s
    → find account_id s.accounts ≡ some a
    → ResetBegun a s t
    → WellKeyed t × Grows s t
begun-Grows account_id a s t keyed fit found left =
    let own : find a.id s.accounts ≡ some a =
      ap (λ k. find k s.accounts) (keyed account_id a found) ∙ found in
    let up = next-lt a.version (fit account_id a found) in
    (put_keyed a _ s t refl left.accounts keyed, put-Grows a _ s t own left.accounts (ground arith))

done-Grows :
    (account_id : Text) (new_hash : PasswordHash) (a : Account) (s t : MemoryState)
    → WellKeyed s
    → VersionsFit s
    → ResetDone account_id new_hash a s t
    → WellKeyed t × Grows s t
done-Grows account_id new_hash a s t keyed fit left =
    let own : find a.id s.accounts ≡ some a =
      ap (λ k. find k s.accounts) (keyed account_id a left.held) ∙ left.held in
    let up = next-lt a.version (fit account_id a left.held) in
    (put_keyed a _ s t refl left.accounts keyed, put-Grows a _ s t own left.accounts (ground arith))

step-Grows :
    (limits : RateLimits MemoryState) (s t : MemoryState)
    → AccountStep limits s t
    → WellKeyed s
    → WellKeyed t × Grows s t
step-Grows limits s t (reset_began account_id client_ip calls raw hash link fit h) keyed =
    let (a, found, left) = begin_reset_tx_lem account_id client_ip calls raw hash link s t h in
    begun-Grows account_id a s t keyed fit found left
step-Grows limits s t (reset_ended subjects client_ip calls known new_hash hash fit h) keyed =
    let (token, read_token, (a, left)) =
      complete_reset_tx_lem limits subjects client_ip calls known new_hash hash s t h in
    done-Grows token.account_id new_hash a s t keyed fit left
step-Grows limits s t (accounts_left same) keyed = (
  λ id a held. keyed id a (ap (find id) (sym same) ∙ held),
  λ id a held. (a, ap (find id) same ∙ held, ground arith),
)

Grows-trans : (s t u : MemoryState) → Grows s t → Grows t u → Grows s u
Grows-trans s t u first second id a held =
    let (b, held_b, up) = first id a held in
    let (c, held_c, further) = second id b held_b in (c, held_c, omega arith)

-- Along these changes an account stays, and its version never goes back.
pub run-Grows :
    (limits : RateLimits MemoryState) (s t : MemoryState)
    → Star (AccountStep limits) s t
    → WellKeyed s
    → WellKeyed t × Grows s t
run-Grows limits s t steps keyed =
    Star-keeps (λ x. WellKeyed x × Grows s x)
      (λ a b st p.
        let (keyed_b, grown) = step-Grows limits a b st p.0 in
        (keyed_b, Grows-trans s a b p.1 grown))
      steps (keyed, λ id a held. (a, held, ground arith))
