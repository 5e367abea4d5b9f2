-- ===== src/Adif.antt =====
-- src/core/src/adif.cpp and its header: the log record of a contact, filled from frequencies and
-- station equipment, and its text in the ADIF format. A call that changes the record returns the
-- record and whether it was changed.
pub mod Reader
pub mod RoundTrip
pub mod Filled
pub mod Populated
use cw_buddy.Base.{
  Bool, true, false, ◌&&◌, ◌||◌, List, [], ◌∷◌, ◌++◌, Option, none, some, if◌then◌else◌, is_empty,
  length,
}
use cw_buddy.Text.{Text, codes, text_eq}
use cw_buddy.Text.Decimal.{to_string}
use cw_buddy.Frequency.{
  VfoFrequencyPlan, TransverterOffsets, ResolvedFrequencies, resolve_frequencies,
  adif_band_from_frequency,
}
use cw_buddy.Frequency.Parse.{format_frequency_mhz}
use cw_buddy.Station.{
  ResolvedStationEquipment, StationEquipmentRule, resolve_station_equipment, describe_station_rig,
  describe_station_antenna,
}

pub record QsoRecord : Type 0 where
  pub callsign : Text
  pub qso_date : Text
  pub time_on : Text
  pub band : Text
  pub band_rx : Text
  pub mode : Text
  pub frequency_mhz : Text
  pub frequency_rx_mhz : Text
  pub propagation_mode : Text
  pub satellite_name : Text
  pub satellite_mode : Text
  pub rst_sent : Text
  pub rst_received : Text
  pub station_callsign : Text
  pub station_rig : Text
  pub station_antenna : Text

pub record SatelliteQsoDetails : Type 0 where
  pub name : Text
  pub mode : Text

-- The text with the field behind it.
unfoldable pub append_field : Text → Text → Text → Text
append_field output name value =
    if is_empty value
    then output
    else output ++ b'<' ∷ name ++ b':' ∷ to_string (length value) ++ b'>' ∷ value ++ b' ' ∷ []

unfoldable pub to_adif : QsoRecord → Text
to_adif r =
    let o1 = append_field [] (codes "CALL") r.callsign in
    let o2 = append_field o1 (codes "QSO_DATE") r.qso_date in
    let o3 = append_field o2 (codes "TIME_ON") r.time_on in
    let o4 = append_field o3 (codes "BAND") r.band in
    let o5 = append_field o4 (codes "BAND_RX") r.band_rx in
    let o6 = append_field o5 (codes "MODE") r.mode in
    let o7 = append_field o6 (codes "FREQ") r.frequency_mhz in
    let o8 = append_field o7 (codes "FREQ_RX") r.frequency_rx_mhz in
    let o9 = append_field o8 (codes "PROP_MODE") r.propagation_mode in
    let o10 = append_field o9 (codes "SAT_NAME") r.satellite_name in
    let o11 = append_field o10 (codes "SAT_MODE") r.satellite_mode in
    let o12 = append_field o11 (codes "RST_SENT") r.rst_sent in
    let o13 = append_field o12 (codes "RST_RCVD") r.rst_received in
    let o14 = append_field o13 (codes "STATION_CALLSIGN") r.station_callsign in
    let o15 = append_field o14 (codes "MY_RIG") r.station_rig in
    let o16 = append_field o15 (codes "MY_ANTENNA") r.station_antenna in o16 ++ codes "<EOR>"

abbrev pub with_frequencies : ResolvedFrequencies → QsoRecord → QsoRecord
with_frequencies resolved r = record r {
  band = adif_band_from_frequency resolved.tx_rf_hz;
  band_rx = adif_band_from_frequency resolved.rx_rf_hz;
  frequency_mhz = format_frequency_mhz resolved.tx_rf_hz;
  frequency_rx_mhz = format_frequency_mhz resolved.rx_rf_hz;
}

abbrev pub without_satellite : QsoRecord → QsoRecord
without_satellite r = record r {
  propagation_mode = if text_eq r.propagation_mode (codes "SAT") then [] else r.propagation_mode;
  satellite_name = [];
  satellite_mode = [];
}

-- The fields of the satellite in the copy `updated`, and what becomes of the record.
unfoldable pub finish_satellite :
    QsoRecord → QsoRecord → Option SatelliteQsoDetails → QsoRecord × Bool
finish_satellite r updated none = (without_satellite updated, true)
finish_satellite r updated (some satellite) =
    if is_empty satellite.name || is_empty satellite.mode then (r, false) else (
      record updated {
        propagation_mode = codes "SAT";
        satellite_name = satellite.name;
        satellite_mode = satellite.mode;
      },
      true,
    )

unfoldable pub populate_resolved :
    QsoRecord → Option ResolvedFrequencies → Option SatelliteQsoDetails → QsoRecord × Bool
populate_resolved r none satellite = (r, false)
populate_resolved r (some resolved) satellite =
    if is_empty (adif_band_from_frequency resolved.tx_rf_hz)
      || is_empty (adif_band_from_frequency resolved.rx_rf_hz)
    then (r, false)
    else finish_satellite r (with_frequencies resolved r) satellite

unfoldable pub populate_qso_frequencies :
    QsoRecord
    → VfoFrequencyPlan
    → TransverterOffsets
    → Option SatelliteQsoDetails
    → QsoRecord × Bool
populate_qso_frequencies r plan offsets satellite =
    populate_resolved r (resolve_frequencies plan offsets) satellite

unfoldable pub populate_equipment : QsoRecord → Option ResolvedStationEquipment → QsoRecord × Bool
populate_equipment r none = (r, false)
populate_equipment r (some equipment) =
    if is_empty (describe_station_rig equipment) || is_empty (describe_station_antenna equipment)
    then (r, false)
    else (
      record r {
        station_rig = describe_station_rig equipment;
        station_antenna = describe_station_antenna equipment;
      },
      true,
    )

unfoldable pub populate_qso_station_equipment :
    QsoRecord → ResolvedFrequencies → List StationEquipmentRule → QsoRecord × Bool
populate_qso_station_equipment r frequencies rules =
    populate_equipment r (resolve_station_equipment frequencies rules)
