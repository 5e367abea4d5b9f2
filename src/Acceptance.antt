-- ===== src/Acceptance.antt =====
-- src/core/src/hardware_acceptance.cpp and its header: the ordered evidence that the operator gives
-- before a keying interface is opened and before it is used on the air.
pub mod Record
pub mod Steps
pub mod Evidence
pub mod Confirmed
pub mod Passed
use cw_buddy.Base.{◌≡◌, Bool, true, false, ◌&&◌, ◌||◌, not, List, [], ◌∷◌, ℕ, ◌==◌, if◌then◌else◌}
use cw_buddy.Text.{Text, text_eq}
use Record.{
  HardwareAcceptanceRecord, HardwareAcceptancePlatform, unknown_platform, platform_eq, no_record,
  valid_fingerprint, valid_record_prefix,
}

pub data HardwareAcceptanceStatus : Type 0 where
  configuration_required disconnected_line_required physical_loopback_required dummy_load_required
        accepted :
      HardwareAcceptanceStatus

pub data HardwareAcceptanceFailure : Type 0 where
  no_failure invalid_configuration_fingerprint invalid_timestamp wrong_step
        radio_must_be_disconnected inactive_lines_not_observed independent_release_unavailable
        loopback_transitions_not_observed loopback_did_not_return_inactive dummy_load_not_confirmed
        minimum_power_not_confirmed message_keying_not_observed cancellation_release_not_observed
        watchdog_release_not_observed emergency_release_not_observed stored_record_invalid
        stored_record_does_not_match_configuration :
      HardwareAcceptanceFailure

pub record DisconnectedLineEvidence : Type 0 where
  pub radio_disconnected : Bool
  pub ptt_inactive_observed : Bool
  pub key_inactive_observed : Bool
  pub independent_release_available : Bool

pub record PhysicalLoopbackEvidence : Type 0 where
  pub radio_disconnected : Bool
  pub ptt_transition_observed : Bool
  pub key_transition_observed : Bool
  pub both_lines_returned_inactive : Bool

pub record DummyLoadEvidence : Type 0 where
  pub dummy_load_connected : Bool
  pub minimum_power_selected : Bool
  pub message_keying_observed : Bool
  pub cancellation_release_observed : Bool
  pub watchdog_release_observed : Bool
  pub emergency_release_observed : Bool

pub record HardwareAcceptanceWorkflow : Type 0 where
  pub record_ : HardwareAcceptanceRecord
  pub last_failure : HardwareAcceptanceFailure

abbrev pub new_workflow : HardwareAcceptanceWorkflow
new_workflow = record { record_ = no_record; last_failure = no_failure }

abbrev pub fail :
    HardwareAcceptanceFailure → HardwareAcceptanceWorkflow → HardwareAcceptanceWorkflow
fail f w = record w { last_failure = f }

abbrev pub succeed :
    HardwareAcceptanceRecord → HardwareAcceptanceWorkflow → HardwareAcceptanceWorkflow
succeed r w = record { record_ = r; last_failure = no_failure }

unfoldable pub clear : HardwareAcceptanceWorkflow → HardwareAcceptanceWorkflow
clear w = record { record_ = no_record; last_failure = no_failure }

unfoldable pub clear_evidence : HardwareAcceptanceWorkflow → HardwareAcceptanceWorkflow
clear_evidence w = record w {
  record_ = record w.record_ {
    disconnected_line_utc_seconds = 0;
    physical_loopback_utc_seconds = 0;
    dummy_load_utc_seconds = 0;
  };
}

unfoldable pub status : HardwareAcceptanceWorkflow → HardwareAcceptanceStatus
status w =
    if not (valid_fingerprint w.record_.configuration_sha256)
      || platform_eq w.record_.platform unknown_platform
    then configuration_required
    else if w.record_.disconnected_line_utc_seconds == 0
    then disconnected_line_required
    else if w.record_.physical_loopback_utc_seconds == 0
    then physical_loopback_required
    else if w.record_.dummy_load_utc_seconds == 0
    then dummy_load_required
    else accepted

abbrev pub status_eq : HardwareAcceptanceStatus → HardwareAcceptanceStatus → Bool
status_eq configuration_required configuration_required = true
status_eq disconnected_line_required disconnected_line_required = true
status_eq physical_loopback_required physical_loopback_required = true
status_eq dummy_load_required dummy_load_required = true
status_eq accepted accepted = true
status_eq s t = false

unfoldable pub ready_for_safe_hardware_open : HardwareAcceptanceWorkflow → Bool
ready_for_safe_hardware_open w =
    status_eq (status w) dummy_load_required || status_eq (status w) accepted

unfoldable pub accepted_for_on_air_use : HardwareAcceptanceWorkflow → Bool
accepted_for_on_air_use w = status_eq (status w) accepted
