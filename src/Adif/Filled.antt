-- ===== src/Adif/Filled.antt =====
-- What each of the two calls of src/core/src/adif.cpp that fill a record changes, and that a call that
-- fails changes nothing.
use cw_buddy.Base.{
  ◌≡◌, refl, sym, ap, ◌∙◌, true, false, List, Option, none, some, ℕ, ◌≤◌, ◌<◌, is_empty, arith,
  Option-cases, inl, inr, u64_max, ℤ, pos, negsuc,
}
use cw_buddy.Frequency.{
  VfoFrequencyPlan, TransverterOffsets, ResolvedFrequencies, add_signed_offset, tx_dial,
  resolve_frequencies, adif_band_from_frequency,
}
use cw_buddy.Frequency.Offsets.{resolve_frequencies-some, resolved_of-some}
use cw_buddy.Frequency.Parse.{parse_frequency_value, format_frequency_mhz}
use cw_buddy.Frequency.Parse.RoundTrip.{parse_frequency_value-format_frequency_mhz}
use cw_buddy.Station.{StationEquipmentRule, ResolvedStationEquipment, resolve_station_equipment}
use cw_buddy.Adif.{
  QsoRecord, SatelliteQsoDetails, with_frequencies, finish_satellite, populate_resolved,
  populate_qso_frequencies, populate_equipment, populate_qso_station_equipment,
}

add_signed_offset_bounds :
    (frequency rf : ℕ) (offset : ℤ)
    → 0 < frequency
    → frequency ≤ u64_max
    → add_signed_offset frequency offset ≡ some rf
    → (0 < rf) × (rf ≤ u64_max)
unfolding add_signed_offset
add_signed_offset_bounds frequency rf (pos n) p m h = ground (arith, h)
add_signed_offset_bounds frequency rf (negsuc n) p m h = ground (arith, h)

-- An actual frequency is positive and fits into 64 bits.
resolved_bounds :
    (plan : VfoFrequencyPlan) (offsets : TransverterOffsets) (f : ResolvedFrequencies)
    → plan.rx_dial_hz ≤ u64_max
    → plan.tx_dial_hz ≤ u64_max
    → resolve_frequencies plan offsets ≡ some f
    → (0 < f.rx_rf_hz) × (f.rx_rf_hz ≤ u64_max) × (0 < f.tx_rf_hz) × (f.tx_rf_hz ≤ u64_max)
resolved_bounds plan offsets f m n h =
    let (p, q, e) = resolve_frequencies-some plan offsets f h in
    let (rx, tx, rx_dial, tx_is) = resolved_of-some plan _ _ f e in
    let bound : tx_dial plan ≤ u64_max = ground (arith, m, n) in
    let (a, b) = add_signed_offset_bounds plan.rx_dial_hz f.rx_rf_hz offsets.rx_offset_hz p m rx in
    let (c, d) =
      add_signed_offset_bounds (tx_dial plan) f.tx_rf_hz offsets.tx_offset_hz q bound tx in
    (a, b, c, d)

-- A record with the bands and frequencies, as texts in megahertz, of resolved frequencies.
pub record HasFrequencies (r : QsoRecord) (f : ResolvedFrequencies) : Type 0 where
  pub tx_band : r.band ≡ adif_band_from_frequency f.tx_rf_hz
  pub rx_band : r.band_rx ≡ adif_band_from_frequency f.rx_rf_hz
  pub tx_text : r.frequency_mhz ≡ format_frequency_mhz f.tx_rf_hz
  pub rx_text : r.frequency_rx_mhz ≡ format_frequency_mhz f.rx_rf_hz
  pub some_tx_band : is_empty r.band ≡ false
  pub some_rx_band : is_empty r.band_rx ≡ false

pub populate_resolved_lem :
    (r r' : QsoRecord) (f : ResolvedFrequencies) (satellite : Option SatelliteQsoDetails)
    → populate_resolved r (some f) satellite ≡ (r', true)
    → HasFrequencies r' f
unfolding populate_resolved finish_satellite
populate_resolved_lem r r' f none h = ground (arith, h)
populate_resolved_lem r r' f (some s) h = ground (arith, h)

-- A record is filled only where the frequencies resolve.
pub populated_resolved :
    (r r' : QsoRecord) (plan : VfoFrequencyPlan) (offsets : TransverterOffsets)
    (satellite : Option SatelliteQsoDetails)
    → populate_qso_frequencies r plan offsets satellite ≡ (r', true)
    → (f : ResolvedFrequencies) × (resolve_frequencies plan offsets ≡ some f)
      × (populate_resolved r (some f) satellite ≡ (r', true))
unfolding populate_qso_frequencies populate_resolved
populated_resolved r r' plan offsets satellite h =
    elim (Option-cases (resolve_frequencies plan offsets)) [
      | inl e ↦ absurd (cc (rw (e, populate_resolved) at h))
      | inr (f, e) ↦ (f, e, rw e at h)
    ]

-- A record that `populate_qso_frequencies` fills, from dial frequencies below 2 ^ 64, has the actual
-- frequencies of the plan: its bands are those of the transmitter's and the receiver's frequency,
-- neither is empty, and its two frequency fields, read as megahertz, are exactly these frequencies.
pub populate_qso_frequencies_lem :
    (r r' : QsoRecord) (plan : VfoFrequencyPlan) (offsets : TransverterOffsets)
    (satellite : Option SatelliteQsoDetails)
    → plan.rx_dial_hz ≤ u64_max
    → plan.tx_dial_hz ≤ u64_max
    → populate_qso_frequencies r plan offsets satellite ≡ (r', true)
    → (f : ResolvedFrequencies) × (resolve_frequencies plan offsets ≡ some f)
      × HasFrequencies r' f
      × (parse_frequency_value r'.frequency_mhz 1000000 ≡ some f.tx_rf_hz)
      × (parse_frequency_value r'.frequency_rx_mhz 1000000 ≡ some f.rx_rf_hz)
populate_qso_frequencies_lem r r' plan offsets satellite m n h =
    let (f, e, filled) = populated_resolved r r' plan offsets satellite h in
    let has = populate_resolved_lem r r' f satellite filled in
    let (a, b, c, d) = resolved_bounds plan offsets f m n e in
    (
      f,
      e,
      has,
      rw has.tx_text (parse_frequency_value-format_frequency_mhz f.tx_rf_hz c d),
      rw has.rx_text (parse_frequency_value-format_frequency_mhz f.rx_rf_hz a b),
    )

satellite_unchanged :
    (r updated : QsoRecord) (satellite : Option SatelliteQsoDetails)
    → (finish_satellite r updated satellite).1 ≡ false
    → (finish_satellite r updated satellite).0 ≡ r
unfolding finish_satellite
satellite_unchanged r updated none h = absurd (cc h)
satellite_unchanged r updated (some s) h = ground (arith, h)

resolved_unchanged :
    (r : QsoRecord) (f : Option ResolvedFrequencies) (satellite : Option SatelliteQsoDetails)
    → (populate_resolved r f satellite).1 ≡ false
    → (populate_resolved r f satellite).0 ≡ r
unfolding populate_resolved
resolved_unchanged r none satellite h = refl
resolved_unchanged r (some f) satellite h =
    ground (arith, h, satellite_unchanged r (with_frequencies f r) satellite)

equipment_unchanged :
    (r : QsoRecord) (e : Option ResolvedStationEquipment)
    → (populate_equipment r e).1 ≡ false
    → (populate_equipment r e).0 ≡ r
unfolding populate_equipment
equipment_unchanged r none h = refl
equipment_unchanged r (some e) h = ground (arith, h)

pub unfilled :
    (r r1 : QsoRecord) (plan : VfoFrequencyPlan) (offsets : TransverterOffsets)
    (satellite : Option SatelliteQsoDetails)
    → populate_qso_frequencies r plan offsets satellite ≡ (r1, false)
    → r1 ≡ r
unfolding populate_qso_frequencies
unfilled r r1 plan offsets satellite h =
    ap (λ p. p.0) (sym h)
    ∙ resolved_unchanged r (resolve_frequencies plan offsets) satellite (ap (λ p. p.1) h)

pub unequipped :
    (r r1 : QsoRecord) (f : ResolvedFrequencies) (rules : List StationEquipmentRule)
    → populate_qso_station_equipment r f rules ≡ (r1, false)
    → r1 ≡ r
unfolding populate_qso_station_equipment
unequipped r r1 f rules h =
    ap (λ p. p.0) (sym h)
    ∙ equipment_unchanged r (resolve_station_equipment f rules) (ap (λ p. p.1) h)
