-- ===== src/Adif/Populated.antt =====
-- What the calls write into a record, and that they change it fully or not at all.
use cw_buddy.Base.{◌≡◌, Bool, true, false, List, is_empty}
use cw_buddy.Frequency.{ResolvedFrequencies}
use cw_buddy.Station.{StationEquipmentRule, ResolvedStationEquipment}
use cw_buddy.Station.Names.{IsPaths, IsRig}
use cw_buddy.Station.Rules.{IsFirstRule}
use cw_buddy.Adif.{QsoRecord}
use cw_buddy.Adif.Filled.{HasFrequencies}

-- A record whose station fields name equipment, and which is otherwise another record.
pub record HasEquipment (r r' : QsoRecord) (e : ResolvedStationEquipment) : Type 0 where
  pub rig : IsRig e r'.station_rig
  pub antenna : IsPaths e.tx.antenna e.rx.antenna r'.station_antenna
  pub some_rig : is_empty r'.station_rig ≡ false
  pub some_antenna : is_empty r'.station_antenna ≡ false
  pub rest : r' ≡ record r { station_rig = r'.station_rig; station_antenna = r'.station_antenna }

-- A record with a plan's frequencies and, for the bands in it, the equipment of the first rules that
-- name them.
abbrev pub IsComplete :
    QsoRecord → QsoRecord → ResolvedFrequencies → List StationEquipmentRule → Type 0
IsComplete r1 r2 f rules =
    (e : ResolvedStationEquipment) × IsFirstRule r2.band rules e.tx
    × IsFirstRule r2.band_rx rules e.rx
    × HasFrequencies r2 f
    × HasEquipment r1 r2 e

-- The outcome of filling a record and then equipping it, by the results of the two calls.
abbrev pub IsOutcome :
    Bool
    → Bool
    → QsoRecord
    → QsoRecord
    → QsoRecord
    → ResolvedFrequencies
    → List StationEquipmentRule
    → Type 0
IsOutcome true true r r1 r2 f rules = IsComplete r1 r2 f rules
IsOutcome true false r r1 r2 f rules = HasFrequencies r1 f × (r2 ≡ r1)
IsOutcome false true r r1 r2 f rules =
    (r1 ≡ r) × ((e : ResolvedStationEquipment) × HasEquipment r1 r2 e)
IsOutcome false false r r1 r2 f rules = (r1 ≡ r) × (r2 ≡ r1)
