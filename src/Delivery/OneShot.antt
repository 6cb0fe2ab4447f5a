-- ===== src/Delivery/OneShot.antt =====
-- internal/domain/delivery.go: the calls on a `Delivery` as a step relation.
use cert_me.Prelude.{arith, false, if◌then◌else◌, true, ◌↔◌, ◌≡◌}
use cert_me.Delivery.{
  Delivery, DeliveryState, can_receive, complete_delivery, delivery_is_terminal, expire_delivery,
  fail_delivery, failed, is_failed_or_expired, is_pending, lapsed, pending, receive,
  server_completed, transferring,
}
use cert_me.Errors.{err, expired, invalid_transition, ok, policy_error}
use cert_me.Prelude.Star.{Star, Star-keeps}
use cert_me.Prelude.Text.{Text, is_empty}
use cert_me.Values.Ids.{next}
use cert_me.Values.Instant.{Instant, is_expired_at}

pub data Step (d : Delivery) (e : Delivery) : Type 0 where
  taken : (now : Instant) → receive d now ≡ ok e → Step d e
  finished : (now : Instant) → complete_delivery d now ≡ ok e → Step d e
  broken : (code : Text) (now : Instant) → fail_delivery d code now ≡ ok e → Step d e
  ran_out : (now : Instant) → expire_delivery d now ≡ ok e → Step d e

-- `CanConsume` succeeds exactly for a pending delivery before its deadline, and names the failure
-- otherwise.
pub can_receive_lem :
    (d : Delivery) (now : Instant)
    → can_receive d now ≡ (
        if is_pending d.state
        then (if is_expired_at d.expires_at now
            then err (policy_error expired "delivery_expired")
            else ok tt)
        else err (policy_error invalid_transition "delivery_not_pending"))
unfolding can_receive
can_receive_lem d now = ground arith

step_not_pending : {d e : Delivery} → Step d e → is_pending e.state ≡ false
unfolding receive complete_delivery fail_delivery expire_delivery
step_not_pending (taken now h) = ground arith
step_not_pending (finished now h) = ground arith
step_not_pending (broken code now h) = ground arith
step_not_pending (ran_out now h) = ground arith

-- After a private key was handed out, no sequence of transitions allows it again.
pub receive_once :
    (d e f : Delivery) (now later : Instant)
    → receive d now ≡ ok e
    → Star Step e f
    → receive f later ≡ err (policy_error invalid_transition "delivery_not_pending")
unfolding receive
receive_once d e f now later h steps =
    let gone : is_pending f.state ≡ false =
      Star-keeps (λ x. is_pending x.state ≡ false) (λ x y st _. step_not_pending st) steps
        (step_not_pending {d = d} {e = e} (taken now h)) in
    ground (arith, gone)

-- What each state can reach in one transition.
pub data Edge : DeliveryState → DeliveryState → Type 0 where
  hand_out : Edge pending transferring
  deliver : Edge transferring server_completed
  miss : Edge pending lapsed
  lose : {s : DeliveryState} → is_failed_or_expired s ≡ false → Edge s failed

ruleset edges = (hand_out, deliver, miss, lose)

pub Step-Edge : {d e : Delivery} → Step d e → Edge d.state e.state × (e.version ≡ next d.version)
unfolding receive complete_delivery fail_delivery expire_delivery
Step-Edge (taken now h) = grind (arith, edges)
Step-Edge (finished now h) = grind (arith, edges)
Step-Edge (broken code now h) = grind (arith, edges)
Step-Edge (ran_out now h) = grind (arith, edges)

left_terminal :
    (d e : Delivery)
    → delivery_is_terminal d.state ≡ true
    → Step d e
    → (d.state ≡ server_completed)
      × ((code : Text) × (now : Instant) × (is_empty code ≡ false)
          × (e ≡ record d {
            state = failed;
            failure_code = code;
            finished_at = now;
            version = next d.version;
          }))
unfolding delivery_is_terminal receive complete_delivery fail_delivery expire_delivery
left_terminal d e terminal (taken now h) = ground arith
left_terminal d e terminal (finished now h) = ground arith
left_terminal d e terminal (broken code now h) =
    (ground arith, (code, now, ground arith, ground arith))
left_terminal d e terminal (ran_out now h) = ground arith

fail_completed :
    (d e : Delivery)
    → (d.state ≡ server_completed)
      × ((code : Text) × (now : Instant) × (is_empty code ≡ false)
          × (e ≡ record d {
            state = failed;
            failure_code = code;
            finished_at = now;
            version = next d.version;
          }))
    → Step d e
unfolding fail_delivery
fail_completed d e (at_end, (code, now, coded, same)) = broken code now (ground arith)

-- A delivery in a state that `IsTerminal` calls terminal moves on in exactly one way: `Fail`, with a
-- code that is not empty, takes a `server_completed` one to `failed`, with that code and time and the
-- next version.
pub terminal_steps_iff :
    (d e : Delivery)
    → delivery_is_terminal d.state ≡ true
    → Step d e ↔ (
        (d.state ≡ server_completed)
        × ((code : Text) × (now : Instant) × (is_empty code ≡ false)
            × (e ≡ record d {
              state = failed;
              failure_code = code;
              finished_at = now;
              version = next d.version;
            })))
terminal_steps_iff d e terminal = (left_terminal d e terminal, fail_completed d e)

-- Of the terminal states only `server_completed` is left again; a delivery that failed or expired
-- refuses every transition.
pub failed_for_good :
    (d : Delivery) → is_failed_or_expired d.state ≡ true → (e : Delivery) → Step d e → ⊥
unfolding receive complete_delivery fail_delivery expire_delivery
failed_for_good d f e (taken now h) = ground arith
failed_for_good d f e (finished now h) = ground arith
failed_for_good d f e (broken code now h) = ground arith
failed_for_good d f e (ran_out now h) = ground arith
