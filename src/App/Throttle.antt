-- ===== src/App/Throttle.antt =====
-- internal/app/service/preauth.go: the limit on failed attempts before a session exists, over the
-- counters of internal/app/port/accounts.go. A function that reads the clock takes the time that the
-- clock gave.
pub mod Memory
pub mod Limits
pub mod Counting
pub mod Windows
use cert_me.Prelude.{
  List, Option, [], if◌then◌else◌, inl, inr, none, not, refl, some, suc, zero, ℕ, ◌%◌, ◌&&◌, ◌+◌,
  ◌/◌, ◌==◌, ◌∷◌, ◌≡◌, ◌≢◌, ◌⊎◌,
}
use cert_me.App.{Fault, auth_kind, new_app_error, store_error, with_public_field}
use cert_me.Calendar.{rem, zero_time_micros}
use cert_me.Prelude.Int.{add64, eq_ℤ, leb_ℤ, negsuc, pos, sub64, ℤ}
use cert_me.Prelude.Star.{more}
use cert_me.Prelude.Text.{Text}
use cert_me.Values.Hex.{Fingerprint}
use cert_me.Values.Instant.{Duration, Instant, add, before, is_zero, minutes, unset}

-- The `rateLimitKind…` constants.
pub data LimitKind : Type 0 where
  login_account login_ip reset_account reset_ip : LimitKind

-- `preAuthSubject`
pub record ThrottleSubject : Type 0 where
  pub limit_kind : LimitKind
  pub hash : Fingerprint

pub record RateLimitRecord : Type 0 where
  pub subject : ThrottleSubject
  pub window_start : Instant
  pub failure_count : ℤ
  pub blocked_until : Instant

-- What `GetRateLimit` gives back: a row, `ErrNotFound`, or another error.
pub data Lookup : Type 0 where
  row : RateLimitRecord → Lookup
  missing : Lookup
  unreadable : Fault → Lookup

pub Lookup-cases :
    (l : Lookup)
    → (l ≡ missing) ⊎ ((r : RateLimitRecord) × (l ≡ row r)) ⊎ ((e : Fault) × (l ≡ unreadable e))
Lookup-cases missing = inl refl
Lookup-cases (row r) = inr (inl (r, refl))
Lookup-cases (unreadable e) = inr (inr (e, refl))

pub Saved-cases {ℓ} :
    {A : Type ℓ} (m : A ⊎ Fault) → ((t : A) × (m ≡ inl t)) ⊎ ((e : Fault) × (m ≡ inr e))
Saved-cases (inl t) = inl (t, refl)
Saved-cases (inr e) = inr (e, refl)

-- The two methods of `AccountRepository` on counters, over the states of a store: a row that was
-- saved is read back under its key, and other keys are left alone.
pub record RateLimits (S : Type 0) : Type 0 where
  pub get_rate_limit : S → ThrottleSubject → Instant → Lookup
  pub save_rate_limit : S → RateLimitRecord → S ⊎ Fault
  pub saved :
      (s t : S) (r : RateLimitRecord)
      → save_rate_limit s r ≡ inl t
      → get_rate_limit t r.subject r.window_start ≡ row r
  pub kept :
      (s t : S) (r : RateLimitRecord) (who : ThrottleSubject) (w : Instant)
      → save_rate_limit s r ≡ inl t
      → (r.subject ≢ who) ⊎ (r.window_start ≢ w)
      → get_rate_limit t who w ≡ get_rate_limit s who w

-- `PreAuthFailureWindow`
abbrev pub failure_window : Duration
failure_window = minutes 15

-- `PreAuthFailureThreshold`
abbrev pub failure_threshold : ℤ
failure_threshold = pos 10

-- The microseconds of the window, and `((micros % width) + width) % width`.
abbrev pub window_width : ℕ
window_width = 900_000_000

unfoldable pub window_offset : ℤ → ℤ
unfolding rem add64
window_offset micros = rem (add64 (rem micros window_width) (pos window_width)) window_width

-- `NewInstant(time.UnixMicro(micros))`
unfoldable pub instant_from_time : ℤ → Instant
instant_from_time micros =
    if eq_ℤ micros zero_time_micros then unset else record { micros = micros }

-- `currentWindowStart`
unfoldable pub current_window_start : Instant → Instant
current_window_start now = instant_from_time (sub64 now.micros (window_offset now.micros))

-- The decimal digits of a number before those in `acc`; `fuel` bounds their count.
unfoldable pub decimal_digits : ℕ → ℕ → Text → Text
decimal_digits zero n acc = acc
decimal_digits (suc fuel) n acc =
    let more = decimal_digits fuel (n / 10) ((b'0' + n % 10) ∷ acc) in if n == 0 then acc else more

-- `strconv.FormatInt(n, 10)`: an `int64` has at most 19 digits.
unfoldable pub format_int : ℤ → Text
unfolding decimal_digits
format_int (pos n) = if n == 0 then b'0' ∷ [] else decimal_digits 20 n []
format_int (negsuc n) = b'-' ∷ decimal_digits 20 (n + 1) []

-- `rateLimitedError`
unfoldable pub rate_limited_error : Instant → Fault
unfolding new_app_error with_public_field format_int
rate_limited_error until =
    with_public_field "retry_after_unix_micro" (format_int until.micros)
      (new_app_error auth_kind "rate_limited")

-- The row that `recordPreAuthFailure` saves for a subject.
unfoldable pub count_failure : ThrottleSubject → Instant → ℤ → Instant → RateLimitRecord
count_failure who window_start count blocked_until = record {
  subject = who;
  window_start = window_start;
  failure_count = add64 count (pos 1);
  blocked_until =
      if leb_ℤ failure_threshold (add64 count (pos 1))
      then add window_start failure_window
      else blocked_until;
}

-- One round of the loop of `requirePreAuthAdmission`, before the rounds that follow.
unfoldable pub admit_lookup : Lookup → Instant → Option Fault → Option Fault
admit_lookup missing now rest = rest
admit_lookup (unreadable e) now rest = some (store_error e "rate_limit_read_failed")
admit_lookup (row r) now rest =
    if not (is_zero r.blocked_until) && before now r.blocked_until
    then some (rate_limited_error r.blocked_until)
    else if leb_ℤ failure_threshold r.failure_count
    then some (rate_limited_error (add (current_window_start now) failure_window))
    else rest

module _ {S : Type 0} (limits : RateLimits S) where
  unfoldable pub require_pre_auth_admission : S → List ThrottleSubject → Instant → Option Fault
  require_pre_auth_admission s [] now = none
  require_pre_auth_admission s (who ∷ subjects) now =
      admit_lookup (limits.get_rate_limit s who (current_window_start now)) now
        (require_pre_auth_admission s subjects now)

  -- `SaveRateLimit` with the error that the caller makes of its own.
  unfoldable pub save_counter : S → RateLimitRecord → S ⊎ Fault
  save_counter s r = elim (limits.save_rate_limit s r) [
    | inl t ↦ inl t
    | inr e ↦ inr (store_error e "rate_limit_write_failed")
  ]

  -- One round of the loop of `recordPreAuthFailure`.
  unfoldable pub save_failure : S → ThrottleSubject → Instant → S ⊎ Fault
  save_failure s who window_start = elim (limits.get_rate_limit s who window_start) [
    | missing ↦ save_counter s (count_failure who window_start (pos 0) unset)
    | unreadable e ↦ inr (store_error e "rate_limit_read_failed")
    | row r ↦ save_counter s (count_failure who window_start r.failure_count r.blocked_until)
  ]

  unfoldable pub record_pre_auth_failure : S → List ThrottleSubject → Instant → S ⊎ Fault
  record_pre_auth_failure s [] now = inl s
  record_pre_auth_failure s (who ∷ subjects) now =
      elim (save_failure s who (current_window_start now)) [
        | inl t ↦ record_pre_auth_failure t subjects now
        | inr e ↦ inr e
      ]
