-- ===== src/Station.antt =====
-- src/core/src/station_equipment.cpp and its header: which radio and antenna serve a band.
pub mod Rules
pub mod Names
use cw_buddy.Base.{
  Bool, true, false, ◌&&◌, ◌||◌, List, [], ◌∷◌, ◌++◌, Option, none, some, if◌then◌else◌, is_empty,
}
use cw_buddy.Text.{Text, codes, text_eq}
use cw_buddy.Frequency.{ResolvedFrequencies, adif_band_from_frequency}

pub record StationEquipment : Type 0 where
  pub radio : Text
  pub transverter : Text
  pub antenna : Text

pub record StationEquipmentRule : Type 0 where
  pub bands : List Text
  pub equipment : StationEquipment

pub record ResolvedStationEquipment : Type 0 where
  pub rx : StationEquipment
  pub tx : StationEquipment

-- `std::ranges::find(bands, band) != bands.end()`.
unfoldable pub names_band : Text → List Text → Bool
names_band band [] = false
names_band band (b ∷ bands) = text_eq b band || names_band band bands

unfoldable pub find_equipment : Text → List StationEquipmentRule → Option StationEquipment
find_equipment band [] = none
find_equipment band (rule ∷ rules) =
    if names_band band rule.bands then some rule.equipment else find_equipment band rules

unfoldable pub rig_chain : StationEquipment → Text
rig_chain equipment =
    if is_empty equipment.radio
    then equipment.transverter
    else if is_empty equipment.transverter
    then equipment.radio
    else equipment.radio ++ codes " + " ++ equipment.transverter

unfoldable pub describe_paths : Text → Text → Bool → Text
describe_paths tx rx same_equipment =
    if same_equipment || text_eq tx rx then tx else codes "TX: " ++ tx ++ codes "; RX: " ++ rx

abbrev pub same_station_equipment : StationEquipment → StationEquipment → Bool
same_station_equipment a b =
    text_eq a.radio b.radio && (text_eq a.transverter b.transverter && text_eq a.antenna b.antenna)

-- The tests of the two pointers.
unfoldable pub both_equipment :
    Option StationEquipment → Option StationEquipment → Option ResolvedStationEquipment
both_equipment none rx = none
both_equipment (some tx) none = none
both_equipment (some tx) (some rx) = some (record { rx = rx; tx = tx })

unfoldable pub resolve_station_equipment :
    ResolvedFrequencies → List StationEquipmentRule → Option ResolvedStationEquipment
resolve_station_equipment frequencies rules =
    if is_empty (adif_band_from_frequency frequencies.tx_rf_hz)
      || is_empty (adif_band_from_frequency frequencies.rx_rf_hz)
    then none
    else both_equipment (find_equipment (adif_band_from_frequency frequencies.tx_rf_hz) rules)
        (find_equipment (adif_band_from_frequency frequencies.rx_rf_hz) rules)

unfoldable pub describe_station_rig : ResolvedStationEquipment → Text
describe_station_rig equipment =
    describe_paths (rig_chain equipment.tx) (rig_chain equipment.rx)
      (same_station_equipment equipment.tx equipment.rx)

unfoldable pub describe_station_antenna : ResolvedStationEquipment → Text
describe_station_antenna equipment =
    describe_paths equipment.tx.antenna equipment.rx.antenna
      (same_station_equipment equipment.tx equipment.rx)
