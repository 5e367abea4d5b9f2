-- ===== src/Examples/Frequencies.antt =====
-- Frequencies of src/core/src/frequency_plan.cpp.
use cw_buddy.Base.{
  ◌≡◌, ◌↔◌, refl, some, true, ◌≤◌, ◌<◌, arith, pos, u64_max, get_elem?, ℕ, if◌then◌else◌,
}
use cw_buddy.Text.{codes}
use cw_buddy.Frequency.{
  VfoFrequencyPlan, TransverterOffsets, ResolvedFrequencies, add_signed_offset, resolved_of,
  resolve_frequencies, resolve_dial_frequency, step_from, step_rx_frequency, BandRange, adif_bands,
  adif_band_from_frequency,
}
use cw_buddy.Frequency.Offsets.{resolve_frequencies-resolve_dial_frequency}
use cw_buddy.Frequency.Bands.{adif_band_from_frequency_lem}
use cw_buddy.Frequency.Parse.{
  precision_loop, trim_front, trim, read_digit, read_character, read_loop, scaled, total_of,
  value_of, parse_with, parse_frequency_value, format_frequency_mhz,
}
use cw_buddy.Frequency.Parse.Exact.{IsNotation, parse_frequency_value_lem}
use cw_buddy.Frequency.Parse.RoundTrip.{parse_frequency_value-format_frequency_mhz}

abbrev split_plan : VfoFrequencyPlan
split_plan = record { rx_dial_hz = 14020000; tx_dial_hz = 14025000; split_enabled = true }

abbrev two_metres : TransverterOffsets
two_metres = record { rx_offset_hz = pos 130000000; tx_offset_hz = pos 130000000 }

abbrev two_metre_frequencies : ResolvedFrequencies
two_metre_frequencies = record {
  rx_dial_hz = 14020000;
  tx_dial_hz = 14025000;
  rx_rf_hz = 144020000;
  tx_rf_hz = 144025000;
  split_enabled = true;
}

resolve_two_metres : resolve_frequencies split_plan two_metres ≡ some two_metre_frequencies
unfolding resolve_frequencies resolved_of add_signed_offset
resolve_two_metres = refl

resolve_frequencies-resolve_dial_frequency_example :
    (two_metre_frequencies.rx_dial_hz ≡ split_plan.rx_dial_hz)
    × (two_metre_frequencies.tx_dial_hz
        ≡ (if split_plan.split_enabled then split_plan.tx_dial_hz else split_plan.rx_dial_hz))
    × (resolve_dial_frequency 144020000 (pos 130000000) ≡ some 14020000)
    × (resolve_dial_frequency 144025000 (pos 130000000) ≡ some 14025000)
resolve_frequencies-resolve_dial_frequency_example =
    resolve_frequencies-resolve_dial_frequency split_plan two_metres two_metre_frequencies
      (omega arith) (omega arith) resolve_two_metres

adif_band_from_frequency_lem_example : (adif_band_from_frequency 14025000 ≡ codes "20M") ↔ (
    (i : ℕ) × (b : BandRange) × (get_elem? adif_bands i ≡ some b)
    × (b.lower_hz ≤ 14025000)
    × (14025000 ≤ b.upper_hz)
    × (b.name ≡ codes "20M"))
adif_band_from_frequency_lem_example = adif_band_from_frequency_lem 14025000 (codes "20M") refl

step_up : step_rx_frequency 7000000 (some 7010000) 10 (pos 1) ≡ some 7010010
unfolding step_rx_frequency step_from
step_up = refl

parse_comma : parse_frequency_value (codes " 14,025 ") 1000000 ≡ some 14025000
unfolding precision_loop trim_front trim read_digit read_character read_loop scaled total_of
    value_of parse_with parse_frequency_value
parse_comma = refl

parse_frequency_value_lem_example :
    (parse_frequency_value (codes " 14,025 ") 1000000 ≡ some 14025000)
    ↔ ((0 < 14025000) × (14025000 ≤ u64_max) × IsNotation 6 (trim (codes " 14,025 ")) 14025000)
parse_frequency_value_lem_example =
    parse_frequency_value_lem (codes " 14,025 ") 6 14025000 (omega arith)

parse_frequency_value-format_frequency_mhz_example :
    parse_frequency_value (format_frequency_mhz 14025007) 1000000 ≡ some 14025007
parse_frequency_value-format_frequency_mhz_example =
    parse_frequency_value-format_frequency_mhz 14025007 (omega arith) (omega arith)
