-- ===== src/Guard/Invariant.antt =====
-- What holds of the guard of src/core/src/transmit_guard.cpp between two calls.
use cw_buddy.Base.{
  ◌≡◌, ◌⊎◌, Bool, true, false, List, [], ◌∷◌, ℕ, some, arith, inl, inr, Option-cases, is_empty,
  if◌then◌else◌,
}
use cw_buddy.Text.{Text}
use cw_buddy.Callsign.{CallsignPolicy, normalize}
use cw_buddy.Callsign.Normal.{normalize-IsNormal}
use cw_buddy.Guard.{
  TransmitState, armed, awaiting_confirmation, confirmed, transmitting, tuning, state_eq, Guard,
  new_guard, arm, disarm, trip_fault, request_qso, confirm, stage_message, confirm_message,
  begin_transmission, begin_tune, may_key, observe_key_state, finish_transmission, finish_tune,
  end_qso, emergency_release, reset_fault, Call, arms, disarms, tunes, finishes, finishes_tune,
  ends, releases, trips, resets, requests, confirms, stages, confirms_message, begins, observes,
  step, after,
}

-- Has a station been named?
abbrev pub is_named : TransmitState → Bool
is_named awaiting_confirmation = true
is_named confirmed = true
is_named transmitting = true
is_named _ = false

-- The state that the guard is in, or will be in after a tune.
abbrev pub settled : Guard → TransmitState
settled g = if state_eq g.state tuning then g.tune_return_state else g.state

pub record Inv (g : Guard) : Type 0 where
  pub key_needs_transmission : g.key_down ≡ true → may_key g.state ≡ true
  pub tune_returns : (g.tune_return_state ≡ armed) ⊎ (g.tune_return_state ≡ confirmed)
  pub named : is_named (settled g) ≡ true → normalize g.pending_callsign ≡ some g.pending_callsign
  pub unnamed : is_named (settled g) ≡ false → g.pending_callsign ≡ []
  pub message_needs_name :
      is_empty g.pending_message ≡ false → (settled g ≡ confirmed) ⊎ (settled g ≡ transmitting)
  pub confirmed_message : g.message_confirmed ≡ true → is_empty g.pending_message ≡ false
  pub transmits_confirmed : g.state ≡ transmitting → g.message_confirmed ≡ true

new_guard-Inv : Inv new_guard
unfolding new_guard
new_guard-Inv = ground arith

request_qso-Inv :
    (policy : CallsignPolicy) (c : Text) (g : Guard) → Inv g → Inv (request_qso policy c g).0
unfolding request_qso
request_qso-Inv policy c g v = elim (Option-cases (normalize c)) [
  | inl e ↦ ground arith
  | inr (n, e) ↦ let normal = (normalize-IsNormal c n e).fixed in ground arith
]

confirm-Inv : (policy : CallsignPolicy) (c : Text) (g : Guard) → Inv g → Inv (confirm policy c g).0
unfolding confirm
confirm-Inv policy c g v = ground arith

stage_message-Inv : (m : Text) (g : Guard) → Inv g → Inv (stage_message m g).0
unfolding stage_message
stage_message-Inv m g v = ground arith

confirm_message-Inv : (m : Text) (g : Guard) → Inv g → Inv (confirm_message m g).0
unfolding confirm_message
confirm_message-Inv m g v = ground arith

begin_transmission-Inv :
    (policy : CallsignPolicy) (g : Guard) → Inv g → Inv (begin_transmission policy g).0
unfolding begin_transmission
begin_transmission-Inv policy g v = ground arith

trip_fault-Inv : (g : Guard) → Inv g → Inv (trip_fault g)
unfolding trip_fault
trip_fault-Inv g v = ground arith

observe_key_state-Inv : (k : Bool) (t : ℕ) (g : Guard) → Inv g → Inv (observe_key_state k t g).0
unfolding observe_key_state
observe_key_state-Inv k t g v = ground (arith, trip_fault-Inv g v)

-- Every call, with any policy, keeps the invariant.
pub step-Inv : (c : Call) (g : Guard) → Inv g → Inv (step c g)
unfolding step arm disarm begin_tune finish_transmission finish_tune end_qso emergency_release
    reset_fault
step-Inv arms g v = ground arith
step-Inv disarms g v = ground arith
step-Inv tunes g v = ground arith
step-Inv finishes g v = ground arith
step-Inv finishes_tune g v = ground arith
step-Inv ends g v = ground arith
step-Inv releases g v = trip_fault-Inv g v
step-Inv trips g v = trip_fault-Inv g v
step-Inv resets g v = ground arith
step-Inv (requests policy c) g v = request_qso-Inv policy c g v
step-Inv (confirms policy c) g v = confirm-Inv policy c g v
step-Inv (stages m) g v = stage_message-Inv m g v
step-Inv (confirms_message m) g v = confirm_message-Inv m g v
step-Inv (begins policy) g v = begin_transmission-Inv policy g v
step-Inv (observes k t) g v = observe_key_state-Inv k t g v

-- After any history of calls, whatever the callsign policy was at each: the pending callsign is in
-- normal form from the request of a station on, in a tune too, and otherwise empty; a message is
-- staged only for a confirmed station; a confirmed message is not empty; a transmission has a
-- confirmed message; the key is seen down only in a transmission or a tune; and a tune returns to
-- the armed or the confirmed state.
pub after-Inv : (cs : List Call) → Inv (after cs)
unfolding after
after-Inv [] = new_guard-Inv
after-Inv (c ∷ cs) = step-Inv c (after cs) (after-Inv cs)
