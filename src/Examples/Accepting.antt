-- ===== src/Examples/Accepting.antt =====
-- A walk through src/core/src/hardware_acceptance.cpp.
use cw_buddy.Base.{◌≡◌, refl, true, List, [], ◌∷◌}
use cw_buddy.Text.{Text, codes, text_eq}
use cw_buddy.Acceptance.Record.{linux, valid_fingerprint}
use cw_buddy.Acceptance.{
  DisconnectedLineEvidence, PhysicalLoopbackEvidence, DummyLoadEvidence, status,
  accepted_for_on_air_use, ready_for_safe_hardware_open, dummy_load_required,
}
use cw_buddy.Acceptance.Steps.{
  Call, configures, confirms_disconnected_line, confirms_physical_loopback, confirms_dummy_load,
  set_configuration, confirm_disconnected_line, confirm_physical_loopback, confirm_dummy_load, step,
  after,
}
use cw_buddy.Acceptance.Evidence.{Inv, history-IsOrdered}
use cw_buddy.Acceptance.Confirmed.{IsStep, is_complete, confirmation-IsStep}
use cw_buddy.Acceptance.Passed.{dummy_load_gate, Passed, accepted_rests_on_evidence}

abbrev fingerprint : Text
fingerprint = codes "0123456789abcdef0123456789abcdef0123456789abcdef0123456789abcdef"

abbrev lines_seen : DisconnectedLineEvidence
lines_seen = record {
  radio_disconnected = true;
  ptt_inactive_observed = true;
  key_inactive_observed = true;
  independent_release_available = true;
}

abbrev loopback_seen : PhysicalLoopbackEvidence
loopback_seen = record {
  radio_disconnected = true;
  ptt_transition_observed = true;
  key_transition_observed = true;
  both_lines_returned_inactive = true;
}

abbrev load_seen : DummyLoadEvidence
load_seen = record {
  dummy_load_connected = true;
  minimum_power_selected = true;
  message_keying_observed = true;
  cancellation_release_observed = true;
  watchdog_release_observed = true;
  emergency_release_observed = true;
}

-- The newest call first.
abbrev bench : List Call
bench =
    confirms_physical_loopback loopback_seen 20
    ∷ confirms_disconnected_line lines_seen 10
    ∷ configures fingerprint linux
    ∷ []

abbrev walk : List Call
walk = confirms_dummy_load load_seen 30 ∷ bench

history-IsOrdered_example : Inv (after walk)
history-IsOrdered_example = history-IsOrdered walk

walk_accepted : accepted_for_on_air_use (after walk) ≡ true
unfolding accepted_for_on_air_use status after step set_configuration confirm_disconnected_line
    confirm_physical_loopback confirm_dummy_load valid_fingerprint text_eq
walk_accepted = refl

accepted_rests_on_evidence_example :
    Passed dummy_load_gate
      (after walk).record_.configuration_sha256
      (after walk).record_.platform
      walk
accepted_rests_on_evidence_example = accepted_rests_on_evidence dummy_load_gate walk walk_accepted

bench_ready : ready_for_safe_hardware_open (after bench) ≡ true
unfolding ready_for_safe_hardware_open status after step set_configuration confirm_disconnected_line
    confirm_physical_loopback confirm_dummy_load valid_fingerprint text_eq
bench_ready = refl

confirmation-IsStep_example :
    IsStep dummy_load_required
      (is_complete (confirms_dummy_load load_seen 30) (after bench).record_)
      (after bench)
      (step (confirms_dummy_load load_seen 30) (after bench))
confirmation-IsStep_example =
    confirmation-IsStep (confirms_dummy_load load_seen 30) dummy_load_required (after bench)
      (history-IsOrdered bench) refl
