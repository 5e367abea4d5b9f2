-- ===== src/Radio/Commands.antt =====
-- The commands of src/core/include/cwassistant/core/radio_control.hpp and their checks in
-- src/core/src/radio_control.cpp.
use cw_buddy.Base.{◌≡◌, Bool, true, false, ◌||◌, not, ℕ, ◌==◌, if◌then◌else◌, arith, ◌↔◌, ◌<◌, ◌⊎◌}
use cw_buddy.Text.{Text}
use cw_buddy.Radio.{
  unavailable, observation_eq, is_known, RadioMode, is_unknown_mode, RadioSplit, enabled, disabled,
  unknown_split, RadioCapability, set_rx_frequency, set_tx_frequency, set_rx_mode, set_tx_mode,
  select_rx_vfo, select_tx_vfo, set_split, RadioState, radio_state_is_valid, radio_has_capability,
  radio_vfo_identifier_is_valid,
}

pub data RadioCommand : Type 0 where
  sets_rx_frequency sets_tx_frequency : ℕ → RadioCommand
  sets_rx_mode sets_tx_mode : RadioMode → RadioCommand
  selects_rx_vfo selects_tx_vfo : Text → RadioCommand
  sets_split : Bool → RadioCommand

pub data RadioCommandValidation : Type 0 where
  valid invalid_state radio_unavailable radio_state_unknown capabilities_unavailable
        capabilities_unknown unsupported invalid_frequency invalid_mode invalid_vfo_identifier :
      RadioCommandValidation

unfoldable pub required_capability : RadioCommand → RadioCapability
required_capability (sets_rx_frequency hz) = set_rx_frequency
required_capability (sets_tx_frequency hz) = set_tx_frequency
required_capability (sets_rx_mode mode) = set_rx_mode
required_capability (sets_tx_mode mode) = set_tx_mode
required_capability (selects_rx_vfo identifier) = select_rx_vfo
required_capability (selects_tx_vfo identifier) = select_tx_vfo
required_capability (sets_split on) = set_split

unfoldable pub validate_value : RadioCommand → RadioCommandValidation
validate_value (sets_rx_frequency hz) = if hz == 0 then invalid_frequency else valid
validate_value (sets_tx_frequency hz) = if hz == 0 then invalid_frequency else valid
validate_value (sets_rx_mode mode) = if is_unknown_mode mode then invalid_mode else valid
validate_value (sets_tx_mode mode) = if is_unknown_mode mode then invalid_mode else valid
validate_value (selects_rx_vfo identifier) =
    if radio_vfo_identifier_is_valid identifier then valid else invalid_vfo_identifier
validate_value (selects_tx_vfo identifier) =
    if radio_vfo_identifier_is_valid identifier then valid else invalid_vfo_identifier
validate_value (sets_split on) = valid

abbrev pub is_valid : RadioCommandValidation → Bool
is_valid valid = true
is_valid v = false

unfoldable pub validate_radio_command : RadioState → RadioCommand → RadioCommandValidation
validate_radio_command state command =
    if not (is_valid (validate_value command))
    then validate_value command
    else if not (radio_state_is_valid state)
    then invalid_state
    else if observation_eq state.availability unavailable
    then radio_unavailable
    else if not (is_known state.availability)
    then radio_state_unknown
    else if observation_eq state.capabilities.observation unavailable
    then capabilities_unavailable
    else if not (is_known state.capabilities.observation)
    then capabilities_unknown
    else if radio_has_capability state.capabilities (required_capability command)
    then valid
    else unsupported

abbrev pub is_enabled : RadioSplit → Bool
is_enabled enabled = true
is_enabled disabled = false
is_enabled unknown_split = false

unfoldable pub radio_tx_frequency_sync_is_available : RadioState → Bool
radio_tx_frequency_sync_is_available state =
    if not (radio_state_is_valid state)
      || (not (is_known state.availability)
          || (not (is_known state.rx_frequency.observation)
              || not (radio_has_capability state.capabilities set_tx_frequency)))
    then false
    else is_enabled state.split.split || radio_has_capability state.capabilities set_split

unfoldable pub radio_pointed_tx_frequency_is_available : RadioState → Bool
radio_pointed_tx_frequency_is_available state =
    if not (radio_state_is_valid state)
      || (not (is_known state.availability)
          || not (radio_has_capability state.capabilities set_tx_frequency))
    then false
    else is_enabled state.split.split || radio_has_capability state.capabilities set_split

-- On a well formed state a command passes the checks exactly if its value is good, the radio is
-- available and it has the capability that the command needs.
pub validate_radio_command_lem :
    (state : RadioState) (command : RadioCommand)
    → radio_state_is_valid state ≡ true
    → (validate_radio_command state command ≡ valid) ↔ (
        (validate_value command ≡ valid)
        × (is_known state.availability ≡ true)
        × (radio_has_capability state.capabilities (required_capability command) ≡ true))
unfolding validate_radio_command radio_has_capability
validate_radio_command_lem state command h = ground (arith, h)

-- When the transmit frequency may be pointed at a station, every frequency but 0 is an accepted
-- transmit frequency, and split operation is enabled or enabling it is an accepted command.
pub pointed_is_settable :
    (state : RadioState) (hz : ℕ)
    → 0 < hz
    → radio_pointed_tx_frequency_is_available state ≡ true
    → (validate_radio_command state (sets_tx_frequency hz) ≡ valid)
      × ((is_enabled state.split.split ≡ true)
          ⊎ (validate_radio_command state (sets_split true) ≡ valid))
unfolding radio_pointed_tx_frequency_is_available validate_radio_command required_capability
    validate_value radio_has_capability
pointed_is_settable state hz h k = ground (arith, h, k)

-- When the transmit frequency may follow the receive frequency, it may be pointed at a station too.
sync_is_pointed :
    (state : RadioState)
    → radio_tx_frequency_sync_is_available state ≡ true
    → radio_pointed_tx_frequency_is_available state ≡ true
unfolding radio_tx_frequency_sync_is_available radio_pointed_tx_frequency_is_available
sync_is_pointed state h = ground (arith, h)
