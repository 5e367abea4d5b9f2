-- ===== src/Examples/Guarding.antt =====
-- A contact with one station through src/core/src/transmit_guard.cpp.
use cw_buddy.Base.{◌≡◌, refl, true, false, List, [], ◌∷◌, ◌↔◌, All}
use cw_buddy.Text.{codes, text_eq, split_at}
use cw_buddy.Morse.{is_transmittable_prosign, find_prosign, prosign_table, prosign_elements}
use cw_buddy.Callsign
use cw_buddy.Callsign.{no_ignored, is_ignored}
use cw_buddy.Guard.{
  confirmed, transmitting, fault, disarmed, Guard, new_guard, arm, request_qso, confirm,
  stage_message, confirm_message, begin_transmission, observe_key_state, Call, arms, requests,
  confirms, stages, confirms_message, begins, resets, trips, trip_fault, step, after,
}
use cw_buddy.Guard.Message
use cw_buddy.Guard.Message.{normalize_message}
use cw_buddy.Guard.Invariant.{Inv, after-Inv}
use cw_buddy.Guard.Openings.{Opened}
use cw_buddy.Guard.Gates.{all_gates, transmitting_needs_gates}
use cw_buddy.Guard.Watchdog.{observe_down, InTime, watchdog_deadline, fault_latched}

-- The newest call first.
abbrev contact : List Call
contact =
    begins no_ignored
    ∷ confirms_message (codes "TU  <KN>")
    ∷ stages (codes "tu <kn>")
    ∷ confirms no_ignored (codes "k1abc")
    ∷ requests no_ignored (codes "K1ABC")
    ∷ arms
    ∷ []

contact_transmits : (after contact).state ≡ transmitting
unfolding after step new_guard arm request_qso confirm stage_message confirm_message
    begin_transmission normalize_message Message.push_token Message.scan_prosign Message.scan_here
    Message.scan_step Message.scan Callsign.normalize Callsign.drop_blank Callsign.trim
    Callsign.scan_step Callsign.scan Callsign.normalize_trimmed Callsign.accept Callsign.member
    is_ignored is_transmittable_prosign find_prosign prosign_table prosign_elements split_at text_eq
contact_transmits = refl

transmitting_needs_gates_example :
    Opened (all_gates (after contact).pending_callsign (after contact).pending_message) contact
transmitting_needs_gates_example = transmitting_needs_gates contact contact_transmits

after-Inv_example : Inv (after contact)
after-Inv_example = after-Inv contact

-- A guard on the air, with the key up.
abbrev on_air : Guard
on_air = record {
  pending_callsign = codes "K1ABC";
  pending_message = codes "TU";
  message_confirmed = true;
  state = transmitting;
  key_down = false;
  key_down_since_ns = 0;
  tune_return_state = confirmed;
}

watchdog_deadline_example :
    ((observe_down (1000 ∷ 3000001000 ∷ []) (observe_key_state true 1000 on_air).0).1 ≡ true)
    ↔ All (InTime 1000 transmitting) (1000 ∷ 3000001000 ∷ [])
watchdog_deadline_example = watchdog_deadline 1000 (1000 ∷ 3000001000 ∷ []) on_air refl refl

faulted : (after (trips ∷ arms ∷ [])).state ≡ fault
unfolding after step arm trip_fault new_guard
faulted = refl

fault_latched_example :
    ((after (resets ∷ trips ∷ arms ∷ [])).state ≡ disarmed)
    × ((after (resets ∷ trips ∷ arms ∷ [])).key_down ≡ false)
    × ((after (resets ∷ trips ∷ arms ∷ [])).pending_callsign ≡ [])
    × ((after (resets ∷ trips ∷ arms ∷ [])).pending_message ≡ [])
    × ((after (resets ∷ trips ∷ arms ∷ [])).message_confirmed ≡ false)
fault_latched_example = fault_latched resets (trips ∷ arms ∷ []) faulted
