-- ===== src/Guard.antt =====
-- src/core/src/transmit_guard.cpp and its header: the gate that every transmission passes. Each
-- method takes the guard and returns it anew, with its Boolean result where it has one. The guard
-- refers to the callsign policy, which others may change between two calls: it is an argument of
-- each call.
pub mod Message
pub mod Invariant
pub mod Openings
pub mod Gates
pub mod Watchdog
use cw_buddy.Base.{
  ◌≡◌, Bool, true, false, ◌&&◌, ◌||◌, not, List, [], ◌∷◌, ◌++◌, ℕ, zero, suc, ◌+◌, ◌-◌, Option,
  none, some, ltb, leb, ◌==◌, if◌then◌else◌, length, is_empty,
}
use cw_buddy.Text.{Text, text_eq}
use cw_buddy.Callsign.{CallsignPolicy, normalize, is_ignored}
use Message.{normalize_message}

pub data TransmitState : Type 0 where
  disarmed armed awaiting_confirmation confirmed transmitting tuning fault : TransmitState

abbrev pub state_eq : TransmitState → TransmitState → Bool
state_eq disarmed disarmed = true
state_eq armed armed = true
state_eq awaiting_confirmation awaiting_confirmation = true
state_eq confirmed confirmed = true
state_eq transmitting transmitting = true
state_eq tuning tuning = true
state_eq fault fault = true
state_eq _ _ = false

pub record Guard : Type 0 where
  pub pending_callsign : Text
  pub pending_message : Text
  pub message_confirmed : Bool
  pub state : TransmitState
  pub key_down : Bool
  pub key_down_since_ns : ℕ
  pub tune_return_state : TransmitState

unfoldable pub new_guard : Guard
new_guard = record {
  pending_callsign = [];
  pending_message = [];
  message_confirmed = false;
  state = disarmed;
  key_down = false;
  key_down_since_ns = 0;
  tune_return_state = armed;
}

unfoldable pub arm : Guard → Guard × Bool
arm g = if state_eq g.state disarmed then (record g { state = armed }, true) else (g, false)

-- What `disarm` and `trip_fault` clear.
abbrev pub cleared : TransmitState → Guard → Guard
cleared state g = record g {
  pending_callsign = [];
  pending_message = [];
  message_confirmed = false;
  key_down = false;
  key_down_since_ns = 0;
  state = state;
}

unfoldable pub disarm : Guard → Guard
disarm g = cleared disarmed g

unfoldable pub trip_fault : Guard → Guard
trip_fault g = cleared fault g

unfoldable pub request_qso : CallsignPolicy → Text → Guard → Guard × Bool
request_qso policy callsign g = elim (normalize callsign) [
  | none ↦ (g, false)
  | some n ↦
      if not (state_eq g.state armed) || is_ignored policy n
      then (g, false)
      else (record g { pending_callsign = n; state = awaiting_confirmation }, true)
]

unfoldable pub confirm : CallsignPolicy → Text → Guard → Guard × Bool
confirm policy callsign g = elim (normalize callsign) [
  | none ↦ (g, false)
  | some n ↦
      if not (state_eq g.state awaiting_confirmation) || not (text_eq n g.pending_callsign)
      then (g, false)
      else if is_ignored policy g.pending_callsign
      then (record g { pending_callsign = []; state = armed }, false)
      else (record g { state = confirmed }, true)
]

unfoldable pub stage_message : Text → Guard → Guard × Bool
stage_message message g =
    if not (state_eq g.state confirmed) || is_empty (normalize_message message)
    then (g, false)
    else (record g { pending_message = normalize_message message; message_confirmed = false }, true)

unfoldable pub confirm_message : Text → Guard → Guard × Bool
confirm_message message g =
    if not (state_eq g.state confirmed) || is_empty g.pending_message
    then (g, false)
    else let same =
        not (is_empty (normalize_message message))
        && text_eq (normalize_message message) g.pending_message in
      (record g { message_confirmed = same }, same)

unfoldable pub begin_transmission : CallsignPolicy → Guard → Guard × Bool
begin_transmission policy g =
    if not (state_eq g.state confirmed) || (is_empty g.pending_message || not g.message_confirmed)
    then (g, false)
    else if is_ignored policy g.pending_callsign
    then (
      record g {
        pending_callsign = [];
        pending_message = [];
        message_confirmed = false;
        state = armed;
      },
      false,
    )
    else (record g { key_down = false; key_down_since_ns = 0; state = transmitting }, true)

unfoldable pub begin_tune : Guard → Guard × Bool
begin_tune g =
    if not (state_eq g.state armed) && not (state_eq g.state confirmed) then (g, false) else (
      record g {
        tune_return_state = g.state;
        key_down = false;
        key_down_since_ns = 0;
        state = tuning;
      },
      true,
    )

abbrev pub maximum_continuous_key_down_ns : ℕ
maximum_continuous_key_down_ns = 3000000000

abbrev pub maximum_tune_key_down_ns : ℕ
maximum_tune_key_down_ns = 15000000000

abbrev pub deadline : TransmitState → ℕ
deadline tuning = maximum_tune_key_down_ns
deadline _ = maximum_continuous_key_down_ns

abbrev pub may_key : TransmitState → Bool
may_key state = state_eq state transmitting || state_eq state tuning

unfoldable pub observe_key_state : Bool → ℕ → Guard → Guard × Bool
observe_key_state key_down timestamp g =
    if not (may_key g.state)
    then (if key_down then trip_fault g else g, not key_down)
    else if not key_down
    then (record g { key_down = false; key_down_since_ns = 0 }, true)
    else if not g.key_down
    then (record g { key_down = true; key_down_since_ns = timestamp }, true)
    else if ltb timestamp g.key_down_since_ns
        || ltb (deadline g.state) (timestamp - g.key_down_since_ns)
    then (trip_fault g, false)
    else (g, true)

unfoldable pub finish_transmission : Guard → Guard × Bool
finish_transmission g = if not (state_eq g.state transmitting) then (g, false) else (
  record g {
    key_down = false;
    key_down_since_ns = 0;
    pending_message = [];
    message_confirmed = false;
    state = confirmed;
  },
  true,
)

unfoldable pub finish_tune : Guard → Guard × Bool
finish_tune g =
    if not (state_eq g.state tuning)
    then (g, false)
    else (record g { key_down = false; key_down_since_ns = 0; state = g.tune_return_state }, true)

unfoldable pub end_qso : Guard → Guard × Bool
end_qso g = if not (state_eq g.state confirmed) then (g, false) else (
  record g {
    pending_callsign = [];
    pending_message = [];
    message_confirmed = false;
    state = armed;
  },
  true,
)

unfoldable pub emergency_release : Guard → Guard
emergency_release g = trip_fault g

unfoldable pub reset_fault : Guard → Guard × Bool
reset_fault g =
    if not (state_eq g.state fault) then (g, false) else (record g { state = disarmed }, true)

-- A call of one method, with the policy that it finds.
pub data Call : Type 0 where
  arms disarms tunes finishes finishes_tune ends releases trips resets : Call
  requests confirms : CallsignPolicy → Text → Call
  stages confirms_message : Text → Call
  begins : CallsignPolicy → Call
  observes : Bool → ℕ → Call

unfoldable pub step : Call → Guard → Guard
step arms g = (arm g).0
step disarms g = disarm g
step tunes g = (begin_tune g).0
step finishes g = (finish_transmission g).0
step finishes_tune g = (finish_tune g).0
step ends g = (end_qso g).0
step releases g = emergency_release g
step trips g = trip_fault g
step resets g = (reset_fault g).0
step (requests policy c) g = (request_qso policy c g).0
step (confirms policy c) g = (confirm policy c g).0
step (stages m) g = (stage_message m g).0
step (confirms_message m) g = (confirm_message m g).0
step (begins policy) g = (begin_transmission policy g).0
step (observes key t) g = (observe_key_state key t g).0

-- To unfold this is to unfold all methods.
unfoldable pub every_method : Call → Guard → Guard
unfolding step arm disarm begin_tune finish_transmission finish_tune end_qso emergency_release
    reset_fault trip_fault observe_key_state request_qso confirm stage_message confirm_message
    begin_transmission
every_method = step

-- A history of calls, the newest first.
unfoldable pub after : List Call → Guard
after [] = new_guard
after (c ∷ cs) = step c (after cs)
