-- ===== src/Acceptance/Steps.antt =====
-- The operations of HardwareAcceptanceWorkflow in src/core/src/hardware_acceptance.cpp: each
-- returns the workflow that it leaves and what it returns.
use cw_buddy.Base.{Bool, true, false, ◌&&◌, ◌||◌, not, List, [], ◌∷◌, ℕ, ◌==◌, ltb, if◌then◌else◌}
use cw_buddy.Text.{Text, text_eq}
use cw_buddy.Acceptance.Record.{
  HardwareAcceptanceRecord, HardwareAcceptancePlatform, unknown_platform, platform_eq, no_record,
  valid_fingerprint, valid_record_prefix,
}
use cw_buddy.Acceptance.{
  HardwareAcceptanceWorkflow, DisconnectedLineEvidence, PhysicalLoopbackEvidence, DummyLoadEvidence,
  new_workflow, fail, succeed, clear, clear_evidence, status, status_eq, disconnected_line_required,
  physical_loopback_required, dummy_load_required, invalid_configuration_fingerprint,
  invalid_timestamp, wrong_step, radio_must_be_disconnected, inactive_lines_not_observed,
  independent_release_unavailable, loopback_transitions_not_observed,
  loopback_did_not_return_inactive, dummy_load_not_confirmed, minimum_power_not_confirmed,
  message_keying_not_observed, cancellation_release_not_observed, watchdog_release_not_observed,
  emergency_release_not_observed, stored_record_invalid, stored_record_does_not_match_configuration,
}

abbrev pub Outcome : Type 0
Outcome = HardwareAcceptanceWorkflow × Bool

unfoldable pub set_configuration :
    Text → HardwareAcceptancePlatform → HardwareAcceptanceWorkflow → Outcome
set_configuration configuration_sha256 platform w =
    if not (valid_fingerprint configuration_sha256) || platform_eq platform unknown_platform
    then (fail invalid_configuration_fingerprint (clear w), false)
    else if text_eq w.record_.configuration_sha256 configuration_sha256
        && platform_eq w.record_.platform platform
    then (succeed w.record_ w, true)
    else (
      succeed
          (record no_record { configuration_sha256 = configuration_sha256; platform = platform }) w,
      true,
    )

unfoldable pub confirm_disconnected_line :
    DisconnectedLineEvidence → ℕ → HardwareAcceptanceWorkflow → Outcome
confirm_disconnected_line evidence observed_utc_seconds w =
    if not (status_eq (status w) disconnected_line_required)
    then (fail wrong_step w, false)
    else if observed_utc_seconds == 0
    then (fail invalid_timestamp w, false)
    else if not evidence.radio_disconnected
    then (fail radio_must_be_disconnected w, false)
    else if not evidence.ptt_inactive_observed || not evidence.key_inactive_observed
    then (fail inactive_lines_not_observed w, false)
    else if not evidence.independent_release_available
    then (fail independent_release_unavailable w, false)
    else (
      succeed (record w.record_ { disconnected_line_utc_seconds = observed_utc_seconds }) w,
      true,
    )

unfoldable pub confirm_physical_loopback :
    PhysicalLoopbackEvidence → ℕ → HardwareAcceptanceWorkflow → Outcome
confirm_physical_loopback evidence observed_utc_seconds w =
    if not (status_eq (status w) physical_loopback_required)
    then (fail wrong_step w, false)
    else if ltb observed_utc_seconds w.record_.disconnected_line_utc_seconds
    then (fail invalid_timestamp w, false)
    else if not evidence.radio_disconnected
    then (fail radio_must_be_disconnected w, false)
    else if not evidence.ptt_transition_observed || not evidence.key_transition_observed
    then (fail loopback_transitions_not_observed w, false)
    else if not evidence.both_lines_returned_inactive
    then (fail loopback_did_not_return_inactive w, false)
    else (
      succeed (record w.record_ { physical_loopback_utc_seconds = observed_utc_seconds }) w,
      true,
    )

unfoldable pub confirm_dummy_load : DummyLoadEvidence → ℕ → HardwareAcceptanceWorkflow → Outcome
confirm_dummy_load evidence observed_utc_seconds w =
    if not (status_eq (status w) dummy_load_required)
    then (fail wrong_step w, false)
    else if ltb observed_utc_seconds w.record_.physical_loopback_utc_seconds
    then (fail invalid_timestamp w, false)
    else if not evidence.dummy_load_connected
    then (fail dummy_load_not_confirmed w, false)
    else if not evidence.minimum_power_selected
    then (fail minimum_power_not_confirmed w, false)
    else if not evidence.message_keying_observed
    then (fail message_keying_not_observed w, false)
    else if not evidence.cancellation_release_observed
    then (fail cancellation_release_not_observed w, false)
    else if not evidence.watchdog_release_observed
    then (fail watchdog_release_not_observed w, false)
    else if not evidence.emergency_release_observed
    then (fail emergency_release_not_observed w, false)
    else (succeed (record w.record_ { dummy_load_utc_seconds = observed_utc_seconds }) w, true)

unfoldable pub restore : HardwareAcceptanceRecord → HardwareAcceptanceWorkflow → Outcome
restore r w =
    if not (valid_record_prefix r)
    then (fail stored_record_invalid (clear_evidence w), false)
    else if not (text_eq r.configuration_sha256 w.record_.configuration_sha256)
        || not (platform_eq r.platform w.record_.platform)
    then (fail stored_record_does_not_match_configuration (clear_evidence w), false)
    else (succeed r w, true)

-- A call of one method.
pub data Call : Type 0 where
  configures : Text → HardwareAcceptancePlatform → Call
  clears : Call
  confirms_disconnected_line : DisconnectedLineEvidence → ℕ → Call
  confirms_physical_loopback : PhysicalLoopbackEvidence → ℕ → Call
  confirms_dummy_load : DummyLoadEvidence → ℕ → Call
  restores : HardwareAcceptanceRecord → Call

unfoldable pub step : Call → HardwareAcceptanceWorkflow → Outcome
step (configures sha platform) w = set_configuration sha platform w
step clears w = (clear w, true)
step (confirms_disconnected_line e t) w = confirm_disconnected_line e t w
step (confirms_physical_loopback e t) w = confirm_physical_loopback e t w
step (confirms_dummy_load e t) w = confirm_dummy_load e t w
step (restores r) w = restore r w

-- The workflow after a history of calls, the newest first.
unfoldable pub after : List Call → HardwareAcceptanceWorkflow
after [] = new_workflow
after (c ∷ h) = (step c (after h)).0
