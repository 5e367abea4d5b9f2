-- ===== src/Cat4om.antt =====
-- src/core/include/cwassistant/core/cat4om_protocol.hpp and src/core/src/cat4om_protocol.cpp: the
-- state that a Cat4OM server reports, as a frequency plan and as the state of a radio.
pub mod Version
pub mod Reported
use cw_buddy.Base.{
  Bool, true, false, ◌&&◌, ◌||◌, not, List, [], ◌∷◌, Option, none, some, ℕ, ◌+◌, ◌==◌,
  if◌then◌else◌,
}
use cw_buddy.Frequency.{VfoFrequencyPlan}
use cw_buddy.Text.{Text, codes, text_eq, is_upper}
use cw_buddy.Radio.{
  RadioObservation, unavailable, unknown, known, RadioMode, unknown_mode, is_unknown_mode,
  RadioSplit, enabled, disabled, unknown_split, RadioFrequencyState, RadioModeState, RadioVfoState,
  RadioSplitState, RadioCapabilities, RadioState, radio_vfo_identifier_is_valid,
}
use cw_buddy.Radio.Modes.{radio_mode_from_token}

pub record Cat4OmVfoState : Type 0 where
  pub id : Text
  pub frequency_hz : ℕ
  pub mode : Text

pub record Cat4OmRadioState : Type 0 where
  pub radio_id : Text
  pub connection_status : Text
  pub active_vfo : Text
  pub tx_vfo : Text
  pub split : Bool
  pub vfos : List Cat4OmVfoState
  pub available_commands : List Text

abbrev pub to_lower : ℕ → ℕ
to_lower c = if is_upper c then c + 32 else c

unfoldable pub ascii_equal_case_insensitive : Text → Text → Bool
ascii_equal_case_insensitive [] [] = true
ascii_equal_case_insensitive [] (y ∷ ys) = false
ascii_equal_case_insensitive (x ∷ xs) [] = false
ascii_equal_case_insensitive (x ∷ xs) (y ∷ ys) =
    to_lower x == to_lower y && ascii_equal_case_insensitive xs ys

unfoldable pub find_vfo : List Cat4OmVfoState → Text → Option Cat4OmVfoState
find_vfo [] id = none
find_vfo (v ∷ vfos) id = if text_eq v.id id then some v else find_vfo vfos id

unfoldable pub any_command : List Text → Text → Bool
any_command [] command = false
any_command (candidate ∷ rest) command =
    ascii_equal_case_insensitive candidate command || any_command rest command

abbrev pub cat4om_has_command : Cat4OmRadioState → Text → Bool
cat4om_has_command state command = any_command state.available_commands command

-- The tests of the two VFOs that were looked up, of which one may be missing or have no frequency.
unfoldable pub plan_of :
    Option Cat4OmVfoState → Option Cat4OmVfoState → Bool → Option VfoFrequencyPlan
plan_of none tx split = none
plan_of (some rx) none split = none
plan_of (some rx) (some tx) split =
    if rx.frequency_hz == 0
    then none
    else if tx.frequency_hz == 0
    then none
    else some (record {
      rx_dial_hz = rx.frequency_hz;
      tx_dial_hz = tx.frequency_hz;
      split_enabled = split;
    })

unfoldable pub cat4om_frequency_plan : Cat4OmRadioState → Option VfoFrequencyPlan
cat4om_frequency_plan state =
    plan_of (find_vfo state.vfos state.active_vfo)
      (if state.split
        then find_vfo state.vfos state.tx_vfo
        else find_vfo state.vfos state.active_vfo)
      state.split

unfoldable pub frequency_state : Option Cat4OmVfoState → RadioFrequencyState
frequency_state none = record { observation = unknown; hz = 0 }
frequency_state (some v) =
    if not (v.frequency_hz == 0)
    then record { observation = known; hz = v.frequency_hz }
    else record { observation = unknown; hz = 0 }

abbrev pub mode_of : RadioMode → RadioModeState
mode_of m =
    if not (is_unknown_mode m)
    then record { observation = known; mode = m }
    else record { observation = unknown; mode = unknown_mode }

unfoldable pub mode_state : Option Cat4OmVfoState → RadioModeState
mode_state none = record { observation = unknown; mode = unknown_mode }
mode_state (some v) = mode_of (radio_mode_from_token v.mode)

unfoldable pub vfo_state : Text → RadioVfoState
vfo_state identifier =
    if radio_vfo_identifier_is_valid identifier
    then record { observation = known; identifier = identifier }
    else record { observation = unknown; identifier = [] }

-- The bits of both frequency, both mode and both VFO commands, and of the split command.
unfoldable pub capability_bits : Bool → Bool → Bool → Bool → ℕ
capability_bits frequency mode vfo split =
    ((if frequency then 3 else 0) + (if mode then 12 else 0))
    + ((if vfo then 48 else 0) + (if split then 64 else 0))

unfoldable pub cat4om_radio_state : Cat4OmRadioState → Bool → RadioState
cat4om_radio_state state writable =
    if not (text_eq state.connection_status (codes "connected"))
    then record {
      availability = unavailable;
      rx_frequency = record { observation = unavailable; hz = 0 };
      tx_frequency = record { observation = unavailable; hz = 0 };
      rx_mode = record { observation = unavailable; mode = unknown_mode };
      tx_mode = record { observation = unavailable; mode = unknown_mode };
      rx_vfo = record { observation = unavailable; identifier = [] };
      tx_vfo = record { observation = unavailable; identifier = [] };
      split = record { observation = unavailable; split = unknown_split };
      capabilities = record { observation = unavailable; bits = 0 };
    }
    else record {
      availability = known;
      rx_frequency = frequency_state (find_vfo state.vfos state.active_vfo);
      tx_frequency = frequency_state (find_vfo state.vfos state.tx_vfo);
      rx_mode = mode_state (find_vfo state.vfos state.active_vfo);
      tx_mode = mode_state (find_vfo state.vfos state.tx_vfo);
      rx_vfo = vfo_state state.active_vfo;
      tx_vfo = vfo_state state.tx_vfo;
      split = record { observation = known; split = if state.split then enabled else disabled };
      capabilities = record {
        observation = known;
        bits =
            capability_bits (writable && cat4om_has_command state (codes "SetFrequency"))
              (writable && cat4om_has_command state (codes "SetMode"))
              (writable && cat4om_has_command state (codes "SetVfo"))
              (writable && cat4om_has_command state (codes "SetSplit"));
      };
    }
