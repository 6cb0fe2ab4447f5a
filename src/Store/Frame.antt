-- ===== src/Store/Frame.antt =====
-- Which quantities of a state the calls of a transaction never raise: `Keeps` of a chain follows from
-- `Keeps` of its calls.
use cert_me.Prelude.{Bool, String, arith, false, none, some, true, ℕ, ◌≡◌, ◌≤◌}
use cert_me.App.{Fault}
use cert_me.Errors.{Result, err, ok}
use cert_me.Store.{
  >>=-gave, Tx, from_domain, gave, give, if_present, if_present_absent, if_present_lem, or_absent,
  or_absent_lem, or_absent_wrapped, or_absent_wrapped_lem, or_store_error, or_store_error_lem,
  refuse, refuse_if, ◌>>=◌, ◌>>◌,
}

abbrev pub Keeps : {S A : Type 0} → (S → ℕ) → Tx S A → Type 0
Keeps {S} {A} size m = (s t : S) (a : A) → m s ≡ gave (a, t) → size t ≤ size s

module _ {S : Type 0} (size : S → ℕ) where
  pub bind-Keeps :
      {A B : Type 0} (m : Tx S A) (f : A → Tx S B)
      → Keeps size m
      → ((a : A) → Keeps size (f a))
      → Keeps size (m >>= f)
  bind-Keeps m f first rest s u b h =
      let (a, t, one, two) = >>=-gave m f s u b h in
      omega (arith, first s t a one, rest a t u b two)

  pub step-Keeps :
      {B : Type 0} (m : Tx S (Unit {0})) (k : Tx S B)
      → Keeps size m
      → Keeps size k
      → Keeps size (m >> k)
  step-Keeps m k first rest = bind-Keeps m (λ _. k) first (λ _. rest)

  pub give-Keeps : {A : Type 0} (a : A) → Keeps size (give a)
  give-Keeps a s t b h = ground arith

  pub refuse-Keeps : {A : Type 0} (e : Fault) → Keeps size (refuse {A = A} e)
  refuse-Keeps e s t a h = ground arith

  pub refuse_if-Keeps : (test : Bool) (e : Fault) → Keeps size (refuse_if test e)
  refuse_if-Keeps true e s t a h = ground arith
  refuse_if-Keeps false e s t a h = ground arith

  pub from_domain-Keeps : {A : Type 0} (r : Result A) → Keeps size (from_domain r)
  from_domain-Keeps (ok x) s t a h = ground arith
  from_domain-Keeps (err e) s t a h = ground arith

  pub or_store_error-Keeps :
      {A : Type 0} (m : Tx S A) (code : String) → Keeps size m → Keeps size (or_store_error m code)
  or_store_error-Keeps m code inner s t a h = inner s t a (or_store_error_lem m code s t a h)

  pub or_absent-Keeps :
      {A : Type 0} (m : Tx S A) (absent : Fault) (code : String)
      → Keeps size m
      → Keeps size (or_absent m absent code)
  or_absent-Keeps m absent code inner s t a h = inner s t a (or_absent_lem m absent code s t a h)

  pub or_absent_wrapped-Keeps :
      {A : Type 0} (m : Tx S A) (absent : Fault → Fault) (code : String)
      → Keeps size m
      → Keeps size (or_absent_wrapped m absent code)
  or_absent_wrapped-Keeps m absent code inner s t a h =
      inner s t a (or_absent_wrapped_lem m absent code s t a h)

  pub if_present-Keeps :
      {A : Type 0} (m : Tx S A) (code : String) → Keeps size m → Keeps size (if_present m code)
  if_present-Keeps m code inner s t (some a) h = inner s t a (if_present_lem m code s t a h)
  if_present-Keeps m code inner s t none h = ground (arith, if_present_absent m code s t h)
