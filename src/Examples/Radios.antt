-- ===== src/Examples/Radios.antt =====
-- Reports of a server through src/core/src/cat4om_protocol.cpp and src/core/src/radio_control.cpp.
use cw_buddy.Frequency.{VfoFrequencyPlan}
use cw_buddy.Base.{◌≡◌, refl, true, [], ◌∷◌, ℕ, ◌↔◌, some, if◌then◌else◌}
use cw_buddy.Text.{Text, codes, text_eq}
use cw_buddy.Radio.{
  radio_state_is_valid, radio_has_capability, radio_capability_bit, radio_vfo_identifier_is_valid,
  known,
}
use cw_buddy.Radio.Modes.{radio_mode_from_token, normalized_mode}
use cw_buddy.Radio.Commands.{
  sets_tx_frequency, validate_radio_command, validate_value, valid,
  radio_pointed_tx_frequency_is_available,
}
use cw_buddy.Cat4om.{
  Cat4OmVfoState, Cat4OmRadioState, find_vfo, any_command, ascii_equal_case_insensitive,
  cat4om_has_command, plan_of, cat4om_frequency_plan, frequency_state, mode_state, vfo_state,
  capability_bits, cat4om_radio_state,
}
use cw_buddy.Cat4om.Reported.{
  command_name, cat4om_radio_state-valid, reported_commands, plan_agrees,
}

abbrev vfo : Text → ℕ → Cat4OmVfoState
vfo id hz = record { id = id; frequency_hz = hz; mode = codes "cw" }

abbrev report : Cat4OmRadioState
report = record {
  radio_id = codes "rig-1";
  connection_status = codes "connected";
  active_vfo = codes "A";
  tx_vfo = codes "B";
  split = true;
  vfos = vfo (codes "A") 14020000 ∷ vfo (codes "B") 14025000 ∷ [];
  available_commands = codes "setfrequency" ∷ codes "SetSplit" ∷ [];
}

cat4om_radio_state-valid_example : radio_state_is_valid (cat4om_radio_state report true) ≡ true
cat4om_radio_state-valid_example = cat4om_radio_state-valid report true

reported_commands_example :
    (validate_radio_command (cat4om_radio_state report true) (sets_tx_frequency 7000000) ≡ valid)
    ↔ ((validate_value (sets_tx_frequency 7000000) ≡ valid)
        × (text_eq (codes "connected") (codes "connected") ≡ true)
        × (true ≡ true)
        × (cat4om_has_command report (command_name (sets_tx_frequency 7000000)) ≡ true))
reported_commands_example = reported_commands report true (sets_tx_frequency 7000000)

abbrev report_plan : VfoFrequencyPlan
report_plan = record { rx_dial_hz = 14020000; tx_dial_hz = 14025000; split_enabled = true }

report_has_plan : cat4om_frequency_plan report ≡ some report_plan
unfolding cat4om_frequency_plan find_vfo plan_of text_eq
report_has_plan = refl

report_connected : text_eq report.connection_status (codes "connected") ≡ true
unfolding text_eq
report_connected = refl

plan_agrees_example :
    let r = cat4om_radio_state report true in
    (r.rx_frequency ≡ record { observation = known; hz = 14020000 })
    × ((if true then r.tx_frequency else r.rx_frequency)
        ≡ record { observation = known; hz = 14025000 })
plan_agrees_example = plan_agrees report true report_plan report_connected report_has_plan

report_pointed : radio_pointed_tx_frequency_is_available (cat4om_radio_state report true) ≡ true
unfolding radio_pointed_tx_frequency_is_available cat4om_radio_state text_eq find_vfo
    frequency_state mode_state vfo_state capability_bits radio_state_is_valid radio_has_capability
    radio_capability_bit radio_vfo_identifier_is_valid any_command ascii_equal_case_insensitive
    radio_mode_from_token normalized_mode
report_pointed = refl
