-- ===== src/Radio.antt =====
-- src/core/include/cwassistant/core/radio_control.hpp and src/core/src/radio_control.cpp: what is
-- known of a radio, and which commands it may be given.
pub mod Modes
pub mod Commands
use cw_buddy.Base.{
  Bool, true, false, ◌&&◌, ◌||◌, not, ℕ, ◌/◌, ◌%◌, ◌==◌, ltb, leb, if◌then◌else◌, is_empty, length,
  all_of,
}
use cw_buddy.Text.{Text}

pub data RadioObservation : Type 0 where
  unavailable unknown known : RadioObservation

pub data RadioMode : Type 0 where
  unknown_mode cw cw_reverse lower_sideband upper_sideband am fm digital_lower digital_upper rtty
        rtty_reverse :
      RadioMode

pub data RadioSplit : Type 0 where
  unknown_split disabled enabled : RadioSplit

pub data RadioCapability : Type 0 where
  no_capability set_rx_frequency set_tx_frequency set_rx_mode set_tx_mode select_rx_vfo
        select_tx_vfo set_split :
      RadioCapability

unfoldable pub radio_capability_bit : RadioCapability → ℕ
radio_capability_bit no_capability = 0
radio_capability_bit set_rx_frequency = 1
radio_capability_bit set_tx_frequency = 2
radio_capability_bit set_rx_mode = 4
radio_capability_bit set_tx_mode = 8
radio_capability_bit select_rx_vfo = 16
radio_capability_bit select_tx_vfo = 32
radio_capability_bit set_split = 64

abbrev pub observation_eq : RadioObservation → RadioObservation → Bool
observation_eq unavailable unavailable = true
observation_eq unknown unknown = true
observation_eq known known = true
observation_eq o p = false

abbrev pub is_known : RadioObservation → Bool
is_known o = observation_eq o known

abbrev pub is_unknown_mode : RadioMode → Bool
is_unknown_mode unknown_mode = true
is_unknown_mode m = false

abbrev pub is_unknown_split : RadioSplit → Bool
is_unknown_split unknown_split = true
is_unknown_split s = false

pub record RadioFrequencyState : Type 0 where
  pub observation : RadioObservation
  pub hz : ℕ

pub record RadioModeState : Type 0 where
  pub observation : RadioObservation
  pub mode : RadioMode

pub record RadioVfoState : Type 0 where
  pub observation : RadioObservation
  pub identifier : Text

pub record RadioSplitState : Type 0 where
  pub observation : RadioObservation
  pub split : RadioSplit

pub record RadioCapabilities : Type 0 where
  pub observation : RadioObservation
  pub bits : ℕ

pub record RadioState : Type 0 where
  pub availability : RadioObservation
  pub rx_frequency : RadioFrequencyState
  pub tx_frequency : RadioFrequencyState
  pub rx_mode : RadioModeState
  pub tx_mode : RadioModeState
  pub rx_vfo : RadioVfoState
  pub tx_vfo : RadioVfoState
  pub split : RadioSplitState
  pub capabilities : RadioCapabilities

abbrev pub is_graphic : ℕ → Bool
is_graphic c = leb 33 c && leb c 126

unfoldable pub radio_vfo_identifier_is_valid : Text → Bool
radio_vfo_identifier_is_valid identifier =
    not (is_empty identifier) && (leb (length identifier) 32 && all_of is_graphic identifier)

abbrev pub bool_eq : Bool → Bool → Bool
bool_eq true b = b
bool_eq false b = not b

abbrev pub observation_is_valid : RadioObservation → Bool → Bool
observation_is_valid observation value_is_known = bool_eq (is_known observation) value_is_known

abbrev pub frequency_state_is_valid : RadioFrequencyState → Bool
frequency_state_is_valid s = observation_is_valid s.observation (not (s.hz == 0))

abbrev pub mode_state_is_valid : RadioModeState → Bool
mode_state_is_valid s = observation_is_valid s.observation (not (is_unknown_mode s.mode))

abbrev pub vfo_state_is_valid : RadioVfoState → Bool
vfo_state_is_valid s =
    observation_is_valid s.observation (radio_vfo_identifier_is_valid s.identifier)

abbrev pub split_state_is_valid : RadioSplitState → Bool
split_state_is_valid s = observation_is_valid s.observation (not (is_unknown_split s.split))

-- `bits & ~kKnownCapabilities` is not 0 for a number from 128 on.
unfoldable pub radio_state_is_valid : RadioState → Bool
radio_state_is_valid s =
    if not (frequency_state_is_valid s.rx_frequency)
      || (not (frequency_state_is_valid s.tx_frequency)
          || (not (mode_state_is_valid s.rx_mode)
              || (not (mode_state_is_valid s.tx_mode)
                  || (not (vfo_state_is_valid s.rx_vfo)
                      || (not (vfo_state_is_valid s.tx_vfo)
                          || not (split_state_is_valid s.split))))))
    then false
    else if (not (is_known s.capabilities.observation) && not (s.capabilities.bits == 0))
        || leb 128 s.capabilities.bits
    then false
    else not (observation_eq s.availability unavailable)
      || (not (is_known s.rx_frequency.observation)
          && (not (is_known s.tx_frequency.observation)
              && (not (is_known s.rx_mode.observation)
                  && (not (is_known s.tx_mode.observation)
                      && (not (is_known s.rx_vfo.observation)
                          && (not (is_known s.tx_vfo.observation)
                              && not (is_known s.split.observation)))))))

-- `bits & bit` is not 0, for the bit of one capability.
abbrev pub has_bit : ℕ → ℕ → Bool
has_bit bits bit = not (bit == 0) && (bits / bit) % 2 == 1

unfoldable pub radio_has_capability : RadioCapabilities → RadioCapability → Bool
radio_has_capability capabilities capability =
    is_known capabilities.observation && has_bit capabilities.bits (radio_capability_bit capability)
