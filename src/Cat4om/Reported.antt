-- ===== src/Cat4om/Reported.antt =====
-- The radio state that src/core/src/cat4om_protocol.cpp reports, against the checks of
-- src/core/src/radio_control.cpp.
use cw_buddy.Frequency.{VfoFrequencyPlan}
use cw_buddy.Base.{
  ◌≡◌, refl, Bool, true, false, ◌&&◌, Option, none, some, ◌↔◌, ◌∙◌, if◌then◌else◌, arith, inl, inr,
  Bool-cases, leb,
}
use cw_buddy.Text.{Text, codes, text_eq}
use cw_buddy.Radio.{
  RadioCapability, known, is_known, RadioMode, frequency_state_is_valid, mode_state_is_valid,
  vfo_state_is_valid, radio_state_is_valid, radio_has_capability, radio_capability_bit,
  radio_vfo_identifier_is_valid, set_rx_frequency, set_tx_frequency, set_rx_mode, set_tx_mode,
  select_rx_vfo, select_tx_vfo, set_split, no_capability,
}
use cw_buddy.Radio.Modes.{radio_mode_from_token}
use cw_buddy.Radio.Commands.{
  validate_radio_command_lem, RadioCommand, sets_rx_frequency, sets_tx_frequency, sets_rx_mode,
  sets_tx_mode, selects_rx_vfo, selects_tx_vfo, sets_split, validate_radio_command, valid,
  required_capability, validate_value,
}
use cw_buddy.Cat4om.{
  Cat4OmVfoState, Cat4OmRadioState, find_vfo, cat4om_has_command, frequency_state, mode_state,
  mode_of, vfo_state, capability_bits, cat4om_radio_state, cat4om_frequency_plan, plan_of,
}

frequency_state-valid :
    (o : Option Cat4OmVfoState) → frequency_state_is_valid (frequency_state o) ≡ true
unfolding frequency_state
frequency_state-valid none = refl
frequency_state-valid (some v) = ground arith

mode_of-valid : (m : RadioMode) → mode_state_is_valid (mode_of m) ≡ true
mode_of-valid m = ground arith

mode_state-valid : (o : Option Cat4OmVfoState) → mode_state_is_valid (mode_state o) ≡ true
unfolding mode_state
mode_state-valid none = refl
mode_state-valid (some v) = mode_of-valid (radio_mode_from_token v.mode)

vfo_state-valid : (t : Text) → vfo_state_is_valid (vfo_state t) ≡ true
unfolding vfo_state
vfo_state-valid t = elim (Bool-cases (radio_vfo_identifier_is_valid t)) [
  | inl e ↦ rw e (rw e refl)
  | inr e ↦ rw e (unfold radio_vfo_identifier_is_valid in refl)
]

capability_bits-known : (f m v s : Bool) → leb 128 (capability_bits f m v s) ≡ false
unfolding capability_bits
capability_bits-known f m v s = ground arith

abbrev pub has_reported : Bool → Bool → Bool → Bool → RadioCapability → Bool
has_reported f m v s c =
    radio_has_capability (record { observation = known; bits = capability_bits f m v s }) c

-- Which of the four offers a capability comes from.
abbrev pub offered : Bool → Bool → Bool → Bool → RadioCapability → Bool
offered f m v s no_capability = false
offered f m v s set_rx_frequency = f
offered f m v s set_tx_frequency = f
offered f m v s set_rx_mode = m
offered f m v s set_tx_mode = m
offered f m v s select_rx_vfo = v
offered f m v s select_tx_vfo = v
offered f m v s set_split = s

split_bits : (f m v s : Bool) (c : RadioCapability) → has_reported f m v s c ≡ offered f m v s c
unfolding capability_bits radio_has_capability radio_capability_bit
split_bits f m v s c = ground arith

-- What a server reports is always a well formed radio state.
pub cat4om_radio_state-valid :
    (state : Cat4OmRadioState) (writable : Bool)
    → radio_state_is_valid (cat4om_radio_state state writable) ≡ true
unfolding cat4om_radio_state radio_state_is_valid
cat4om_radio_state-valid state writable =
    elim (Bool-cases (text_eq state.connection_status (codes "connected"))) [
      | inr e ↦ rw e (unfold radio_vfo_identifier_is_valid in refl)
      | inl e ↦ rw e (
          ground (
            arith,
            frequency_state-valid (find_vfo state.vfos state.active_vfo),
            frequency_state-valid (find_vfo state.vfos state.tx_vfo),
            mode_state-valid (find_vfo state.vfos state.active_vfo),
            mode_state-valid (find_vfo state.vfos state.tx_vfo),
            vfo_state-valid state.active_vfo,
            vfo_state-valid state.tx_vfo,
            capability_bits-known (writable && cat4om_has_command state (codes "SetFrequency"))
                (writable && cat4om_has_command state (codes "SetMode"))
                (writable && cat4om_has_command state (codes "SetVfo"))
                (writable && cat4om_has_command state (codes "SetSplit")),
          ))
    ]

-- The name under which a server offers a command.
abbrev pub command_name : RadioCommand → Text
command_name (sets_rx_frequency hz) = codes "SetFrequency"
command_name (sets_tx_frequency hz) = codes "SetFrequency"
command_name (sets_rx_mode mode) = codes "SetMode"
command_name (sets_tx_mode mode) = codes "SetMode"
command_name (selects_rx_vfo identifier) = codes "SetVfo"
command_name (selects_tx_vfo identifier) = codes "SetVfo"
command_name (sets_split on) = codes "SetSplit"

offers : (Text → Bool) → RadioCapability → Bool
offers b =
    has_reported (b (codes "SetFrequency")) (b (codes "SetMode")) (b (codes "SetVfo"))
      (b (codes "SetSplit"))

offered_as_named :
    (b : Text → Bool) (command : RadioCommand)
    → offered
        (b (codes "SetFrequency"))
        (b (codes "SetMode"))
        (b (codes "SetVfo"))
        (b (codes "SetSplit"))
        (required_capability command)
      ≡ b (command_name command)
unfolding required_capability
offered_as_named b (sets_rx_frequency hz) = refl
offered_as_named b (sets_tx_frequency hz) = refl
offered_as_named b (sets_rx_mode mode) = refl
offered_as_named b (sets_tx_mode mode) = refl
offered_as_named b (selects_rx_vfo identifier) = refl
offered_as_named b (selects_tx_vfo identifier) = refl
offered_as_named b (sets_split on) = refl

offered_capability :
    (b : Text → Bool) (command : RadioCommand)
    → offers b (required_capability command) ≡ b (command_name command)
unfolding offers
offered_capability b command =
    split_bits (b (codes "SetFrequency")) (b (codes "SetMode")) (b (codes "SetVfo"))
      (b (codes "SetSplit")) (required_capability command)
    ∙ offered_as_named b command

reported_capability :
    (state : Cat4OmRadioState) (writable : Bool) (command : RadioCommand)
    → radio_has_capability
        (cat4om_radio_state state writable).capabilities
        (required_capability command)
      ≡ (text_eq state.connection_status (codes "connected")
          && (writable && cat4om_has_command state (command_name command)))
unfolding cat4om_radio_state
reported_capability state writable command =
    elim (Bool-cases (text_eq state.connection_status (codes "connected"))) [
      | inr e ↦ rw e (unfold radio_has_capability in refl)
      | inl e ↦ rw e (
          unfold offers in
          offered_capability (λ name. writable && cat4om_has_command state name) command)
    ]

reported_availability :
    (state : Cat4OmRadioState) (writable : Bool)
    → is_known (cat4om_radio_state state writable).availability
      ≡ text_eq state.connection_status (codes "connected")
unfolding cat4om_radio_state
reported_availability state writable = ground arith

-- A command passes the checks of the state that a server reports exactly if its value is good, the
-- radio is connected, the lease is writable, and the server offers the command under its name, in
-- upper or lower case letters.
pub reported_commands :
    (state : Cat4OmRadioState) (writable : Bool) (command : RadioCommand)
    → (validate_radio_command (cat4om_radio_state state writable) command ≡ valid) ↔ (
        (validate_value command ≡ valid)
        × (text_eq state.connection_status (codes "connected") ≡ true)
        × (writable ≡ true)
        × (cat4om_has_command state (command_name command) ≡ true))
reported_commands state writable command = ground (
  arith,
  validate_radio_command_lem (cat4om_radio_state state writable) command
      (cat4om_radio_state-valid state writable),
  reported_capability state writable command,
  reported_availability state writable,
)

frequency_state-if :
    (b : Bool) (x y : Option Cat4OmVfoState)
    → (if b then frequency_state x else frequency_state y) ≡ frequency_state (if b then x else y)
frequency_state-if true x y = refl
frequency_state-if false x y = refl

plan-states :
    (rx tx : Option Cat4OmVfoState) (split : Bool) (p : VfoFrequencyPlan)
    → plan_of rx tx split ≡ some p
    → (frequency_state rx ≡ record { observation = known; hz = p.rx_dial_hz })
      × (frequency_state tx ≡ record { observation = known; hz = p.tx_dial_hz })
unfolding plan_of frequency_state
plan-states none tx split p h = absurd (cc h)
plan-states (some rx) none split p h = absurd (cc h)
plan-states (some rx) (some tx) split p h = ground (arith, h)

-- The frequency plan and the radio state that come from one report of a connected radio agree: the
-- state knows the plan's receive frequency, and it knows the plan's transmit frequency, which is
-- that of the transmit VFO in split operation and that of the active VFO otherwise.
pub plan_agrees :
    (state : Cat4OmRadioState) (writable : Bool) (p : VfoFrequencyPlan)
    → text_eq state.connection_status (codes "connected") ≡ true
    → cat4om_frequency_plan state ≡ some p
    → let r = cat4om_radio_state state writable in
      (r.rx_frequency ≡ record { observation = known; hz = p.rx_dial_hz })
      × ((if state.split then r.tx_frequency else r.rx_frequency)
          ≡ record { observation = known; hz = p.tx_dial_hz })
unfolding cat4om_radio_state cat4om_frequency_plan
plan_agrees state writable p c h =
    let rx = find_vfo state.vfos state.active_vfo in
    let tx = find_vfo state.vfos state.tx_vfo in
    let q = plan-states rx (if state.split then tx else rx) state.split p h in
    rw c (q.0, frequency_state-if state.split tx rx ∙ q.1)
