-- ===== src/Store.antt =====
-- The stores of internal/app/port as a transaction sees them, and `Write` and `Read` of
-- internal/app/porttest/state.go. A repository call is a function on the state that gives a value and
-- the next state, or an error, `ErrNotFound` among them.
pub mod Table
pub mod Accounts
pub mod Pki
pub mod Memory
pub mod Frame
use cert_me.Prelude.{
  Bool, Option, String, arith, false, if◌then◌else◌, inl, inr, none, refl, some, true, ◌↔◌, ◌≡◌,
  ◌⊎◌,
}
use cert_me.App.{Fault, domain_fault, from_domain_error, is_store_fault, not_found, store_error}
use cert_me.Errors.{Result, err, ok}

-- A Go result `(A, error)` of a store or a service.
pub data Reply {ℓ} (A : Type ℓ) : Type ℓ where
  gave : A → Reply A
  refused : Fault → Reply A

-- A call inside of a transaction.
abbrev pub Tx : Type 0 → Type 0 → Type 0
Tx S A = S → Reply (A × S)

abbrev pub give : {S A : Type 0} → A → Tx S A
give a s = gave (a, s)

abbrev pub refuse : {S A : Type 0} → Fault → Tx S A
refuse e s = refused e

-- `x, err := m; if err != nil { return err }`, and the same without `x`.
infixl 5 ◌>>=◌ ◌>>◌
abbrev pub ◌>>=◌ : {S A B : Type 0} → Tx S A → (A → Tx S B) → Tx S B
◌>>=◌ m f s = elim (m s) [ gave (a, t) ↦ f a t | refused e ↦ refused e ]

abbrev pub ◌>>◌ : {S B : Type 0} → Tx S (Unit {0}) → Tx S B → Tx S B
m >> k = m >>= λ _. k

-- `if test { return err }`
abbrev pub refuse_if : {S : Type 0} → Bool → Fault → Tx S (Unit {0})
refuse_if true e s = refused e
refuse_if false e s = gave (tt, s)

-- `if err != nil { return FromDomainError(err) }` on a call of the domain.
abbrev pub from_domain : {S A : Type 0} → Result A → Tx S A
from_domain (ok a) s = gave (a, s)
from_domain (err e) s = refused (from_domain_error (domain_fault e))

-- What a port outside of the store gave.
abbrev pub given : {S A : Type 0} → Reply A → Tx S A
given (gave a) s = gave (a, s)
given (refused e) s = refused e

-- `if test { if err := m; err != nil { return err } }`
abbrev pub when : {S : Type 0} → Bool → Tx S (Unit {0}) → Tx S (Unit {0})
when true m s = m s
when false m s = gave (tt, s)

-- `if err != nil { return storeError(err, code) }`
unfoldable pub or_store_error : {S A : Type 0} → Tx S A → String → Tx S A
or_store_error m code s = elim (m s) [ gave r ↦ gave r | refused e ↦ refused (store_error e code) ]

-- `if errors.Is(err, ErrNotFound) { return absent } else if err != nil { return storeError(err, code) }`
unfoldable pub or_absent : {S A : Type 0} → Tx S A → Fault → String → Tx S A
or_absent m absent code s = elim (m s) [
  | gave r ↦ gave r
  | refused e ↦ refused (if is_store_fault not_found e then absent else store_error e code)
]

-- The same where the error for a row that is not there wraps what the store gave.
unfoldable pub or_absent_wrapped : {S A : Type 0} → Tx S A → (Fault → Fault) → String → Tx S A
or_absent_wrapped m absent code s = elim (m s) [
  | gave r ↦ gave r
  | refused e ↦ refused (if is_store_fault not_found e then absent e else store_error e code)
]

-- The same where the caller goes on without a value if the row is not there.
unfoldable pub if_present : {S A : Type 0} → Tx S A → String → Tx S (Option A)
if_present m code s = elim (m s) [
  | gave (a, t) ↦ gave (some a, t)
  | refused e ↦ if is_store_fault not_found e then gave (none, s) else refused (store_error e code)
]

-- `Store.Write`: the working copy is published only if the callback succeeds.
unfoldable pub write : {S A : Type 0} → Tx S A → S → Reply A × S
write m s = elim (m s) [ gave (a, t) ↦ (gave a, t) | refused e ↦ (refused e, s) ]

-- `Store.Read`: the working copy is never published.
unfoldable pub read : {S A : Type 0} → Tx S A → S → Reply A
read m s = elim (m s) [ gave (a, t) ↦ gave a | refused e ↦ refused e ]

pub Reply-cases {ℓ} :
    {A : Type ℓ} (m : Reply A) → ((a : A) × (m ≡ gave a)) ⊎ ((e : Fault) × (m ≡ refused e))
Reply-cases (gave a) = inl (a, refl)
Reply-cases (refused e) = inr (e, refl)

reply_gave :
    {S A B : Type 0} (r : Reply (A × S)) (f : A → Tx S B) (u : S) (b : B)
    → ◌≡◌ {A = Reply (B × S)} (elim r [ gave (a, t) ↦ f a t | refused e ↦ refused e ]) (gave (b, u))
    → (a : A) × (t : S) × (r ≡ gave (a, t)) × (f a t ≡ gave (b, u))
reply_gave (gave (a, t)) f u b h = (a, t, refl, h)
reply_gave (refused e) f u b h = cc

-- Inversion of a successful step.
pub >>=-gave :
    {S A B : Type 0} (m : Tx S A) (f : A → Tx S B) (s u : S) (b : B)
    → (m >>= f) s ≡ gave (b, u)
    → (a : A) × (t : S) × (m s ≡ gave (a, t)) × (f a t ≡ gave (b, u))
>>=-gave m f s u b h = reply_gave (m s) f u b h

pub give_lem : {S A : Type 0} (a b : A) (s t : S) → give a s ≡ gave (b, t) → (a ≡ b) × (s ≡ t)
give_lem a b s t h = (ground arith, ground arith)

pub or_store_error_lem :
    {S A : Type 0} (m : Tx S A) (code : String) (s t : S) (a : A)
    → or_store_error m code s ≡ gave (a, t)
    → m s ≡ gave (a, t)
unfolding or_store_error
or_store_error_lem m code s t a h = elim (Reply-cases (m s)) [
  | inl ((b, u), given_row) ↦ ground arith
  | inr (e, bad) ↦ ground arith
]

pub or_absent_lem :
    {S A : Type 0} (m : Tx S A) (absent : Fault) (code : String) (s t : S) (a : A)
    → or_absent m absent code s ≡ gave (a, t)
    → m s ≡ gave (a, t)
unfolding or_absent
or_absent_lem m absent code s t a h = elim (Reply-cases (m s)) [
  | inl ((b, u), given_row) ↦ ground arith
  | inr (e, bad) ↦ ground arith
]

pub or_absent_wrapped_lem :
    {S A : Type 0} (m : Tx S A) (absent : Fault → Fault) (code : String) (s t : S) (a : A)
    → or_absent_wrapped m absent code s ≡ gave (a, t)
    → m s ≡ gave (a, t)
unfolding or_absent_wrapped
or_absent_wrapped_lem m absent code s t a h = elim (Reply-cases (m s)) [
  | inl ((b, u), given_row) ↦ ground arith
  | inr (e, bad) ↦ ground arith
]

pub if_present_lem :
    {S A : Type 0} (m : Tx S A) (code : String) (s t : S) (a : A)
    → if_present m code s ≡ gave (some a, t)
    → m s ≡ gave (a, t)
unfolding if_present
if_present_lem m code s t a h = elim (Reply-cases (m s)) [
  | inl ((b, u), given_row) ↦ ground arith
  | inr (e, bad) ↦ ground arith
]

pub if_present_absent :
    {S A : Type 0} (m : Tx S A) (code : String) (s t : S)
    → if_present m code s ≡ gave (none, t)
    → t ≡ s
unfolding if_present
if_present_absent m code s t h = elim (Reply-cases (m s)) [
  | inl ((b, u), given_row) ↦ ground arith
  | inr (e, bad) ↦ ground arith
]

pub from_domain_lem :
    {S A : Type 0} (r : Result A) (s t : S) (a : A)
    → from_domain r s ≡ gave (a, t)
    → (r ≡ ok a) × (t ≡ s)
from_domain_lem (ok x) s t a h = (ground arith, ground arith)
from_domain_lem (err e) s t a h = (ground arith, ground arith)

pub refuse_if_lem :
    {S : Type 0} (test : Bool) (e : Fault) (s t : S) (u : Unit {0})
    → refuse_if test e s ≡ gave (u, t)
    → (test ≡ false) × (t ≡ s)
refuse_if_lem true e s t u h = (ground arith, ground arith)
refuse_if_lem false e s t u h = (refl, ground arith)

-- What `Write` reports and what it leaves: on an error, the state before.
pub write_iff :
    {S A : Type 0} (m : Tx S A) (s t : S) (a : A) → (write m s ≡ (gave a, t)) ↔ (m s ≡ gave (a, t))
unfolding write
write_iff m s t a = ground arith

pub write_refused :
    {S A : Type 0} (m : Tx S A) (s t : S) (e : Fault) → write m s ≡ (refused e, t) → t ≡ s
unfolding write
write_refused m s t e h = elim (Reply-cases (m s)) [
  | inl ((a, u), given_row) ↦ ground arith
  | inr (other, bad) ↦ ground arith
]
