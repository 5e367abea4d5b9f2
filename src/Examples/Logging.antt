-- ===== src/Examples/Logging.antt =====
-- Log records of src/core/src/adif.cpp.
use cw_buddy.Base.{◌≡◌, refl, some, none, true, false, arith, List, [], ◌∷◌, pos}
use cw_buddy.Text.{codes, text_eq}
use cw_buddy.Text.Decimal.{digits_of, to_string, zeros, padded}
use cw_buddy.Frequency.{
  VfoFrequencyPlan, TransverterOffsets, ResolvedFrequencies, add_signed_offset, resolved_of,
  resolve_frequencies, find_band, adif_band_from_frequency,
}
use cw_buddy.Frequency.Parse.{format_frequency_mhz}
use cw_buddy.Station.{
  StationEquipmentRule, names_band, find_equipment, rig_chain, describe_paths, both_equipment,
  resolve_station_equipment, describe_station_rig, describe_station_antenna,
}
use cw_buddy.Adif.{
  QsoRecord, to_adif, finish_satellite, populate_resolved, populate_qso_frequencies,
  populate_equipment, populate_qso_station_equipment,
}
use cw_buddy.Adif.Reader.{read_adif}
use cw_buddy.Adif.RoundTrip.{fields_of, with_value, read_adif-to_adif}

abbrev contact : QsoRecord
contact = record {
  callsign = codes "K1ABC";
  qso_date = codes "20260101";
  time_on = codes "1200";
  band = [];
  band_rx = [];
  mode = codes "CW";
  frequency_mhz = [];
  frequency_rx_mhz = [];
  propagation_mode = [];
  satellite_name = [];
  satellite_mode = [];
  rst_sent = codes "599";
  rst_received = codes "<5>";
  station_callsign = codes "W1AW";
  station_rig = [];
  station_antenna = [];
}

read_adif-to_adif_example : read_adif 17 (to_adif contact) ≡ some (with_value (fields_of contact))
read_adif-to_adif_example = read_adif-to_adif contact (ground arith)

-- Receiving on one band and transmitting on another.
abbrev split : VfoFrequencyPlan
split = record { rx_dial_hz = 14025000; tx_dial_hz = 7025000; split_enabled = true }

abbrev no_offsets : TransverterOffsets
no_offsets = record { rx_offset_hz = pos 0; tx_offset_hz = pos 0 }

abbrev split_frequencies : ResolvedFrequencies
split_frequencies = record {
  rx_dial_hz = 14025000;
  tx_dial_hz = 7025000;
  rx_rf_hz = 14025000;
  tx_rf_hz = 7025000;
  split_enabled = true;
}

abbrev rules : List StationEquipmentRule
rules =
    record {
      bands = codes "30M" ∷ codes "20M" ∷ [];
      equipment = record { radio = codes "FT-450D"; transverter = []; antenna = codes "Dipole" };
    }
    ∷ record {
      bands = codes "40M" ∷ [];
      equipment = record { radio = codes "K2"; transverter = codes "XV40"; antenna = codes "Loop" };
    }
    ∷ []

abbrev filled : QsoRecord
filled = record contact {
  band = codes "40M";
  band_rx = codes "20M";
  frequency_mhz = codes "7.025000";
  frequency_rx_mhz = codes "14.025000";
}

abbrev equipped : QsoRecord
equipped = record filled {
  station_rig = codes "TX: K2 + XV40; RX: FT-450D";
  station_antenna = codes "TX: Loop; RX: Dipole";
}

fill_contact : populate_qso_frequencies contact split no_offsets none ≡ (filled, true)
unfolding resolve_frequencies resolved_of add_signed_offset find_band adif_band_from_frequency
    digits_of to_string zeros padded format_frequency_mhz finish_satellite populate_resolved
    populate_qso_frequencies text_eq
fill_contact = refl

equip_contact : populate_qso_station_equipment filled split_frequencies rules ≡ (equipped, true)
unfolding find_band adif_band_from_frequency names_band find_equipment rig_chain describe_paths
    both_equipment resolve_station_equipment describe_station_rig describe_station_antenna
    populate_equipment populate_qso_station_equipment text_eq
equip_contact = refl

abbrev no_plan : VfoFrequencyPlan
no_plan = record { rx_dial_hz = 0; tx_dial_hz = 0; split_enabled = false }

no_frequencies : (populate_qso_frequencies contact no_plan no_offsets none).1 ≡ false
unfolding resolve_frequencies populate_resolved populate_qso_frequencies
no_frequencies = refl

no_equipment : (populate_qso_station_equipment contact split_frequencies []).1 ≡ false
unfolding find_band adif_band_from_frequency find_equipment both_equipment resolve_station_equipment
    populate_equipment populate_qso_station_equipment
no_equipment = refl
