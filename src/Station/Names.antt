-- ===== src/Station/Names.antt =====
-- How src/core/src/station_equipment.cpp names the equipment of a station.
use cw_buddy.Base.{
  ◌≡◌, ◌≢◌, refl, Bool, true, false, [], ◌∷◌, ◌++◌, Bool-cases, inl, inr, is_empty, arith,
}
use cw_buddy.Text.{Text, codes, text_eq, text_eq_iff}
use cw_buddy.Station.{
  StationEquipment, ResolvedStationEquipment, rig_chain, describe_paths, same_station_equipment,
  describe_station_rig, describe_station_antenna,
}

-- The chain of a radio and a transverter, by the names that are there.
pub data IsChain : Text → Text → Text → Type 0 where
  no_radio : {transverter : Text} → IsChain [] transverter transverter
  no_transverter : {radio : Text} → IsChain radio [] radio
  joined :
      {radio transverter : Text}
      → is_empty radio ≡ false
      → is_empty transverter ≡ false
      → IsChain radio transverter (radio ++ codes " + " ++ transverter)

-- The text for what transmits and what receives: one name if they are the same.
pub data IsPaths : Text → Text → Text → Type 0 where
  one_path : {name : Text} → IsPaths name name name
  two_paths : {tx rx : Text} → tx ≢ rx → IsPaths tx rx (codes "TX: " ++ tx ++ codes "; RX: " ++ rx)

IsChain-of :
    (radio transverter antenna : Text)
    → IsChain radio transverter
        (rig_chain (record { radio = radio; transverter = transverter; antenna = antenna }))
unfolding rig_chain
IsChain-of [] transverter antenna = no_radio
IsChain-of (c ∷ radio) [] antenna = no_transverter
IsChain-of (c ∷ radio) (d ∷ transverter) antenna = joined refl refl

pub rig_chain-IsChain : (e : StationEquipment) → IsChain e.radio e.transverter (rig_chain e)
rig_chain-IsChain e = IsChain-of e.radio e.transverter e.antenna

IsPaths-of :
    (tx rx : Text) (same : Bool)
    → (same ≡ true → tx ≡ rx)
    → IsPaths tx rx (describe_paths tx rx same)
unfolding describe_paths
IsPaths-of tx rx true h = rw (h refl) one_path
IsPaths-of tx rx false h = elim (Bool-cases (text_eq tx rx)) [
  | inl e ↦ rw (e) (rw ((text_eq_iff tx rx).0 e) one_path)
  | inr e ↦ rw (e) (two_paths (λ same. cc (e, (text_eq_iff tx rx).1 same)))
]

-- Equal equipment has equal names.
same_names :
    (a b : StationEquipment)
    → same_station_equipment a b ≡ true
    → (a.radio ≡ b.radio) × (a.transverter ≡ b.transverter) × (a.antenna ≡ b.antenna)
same_names a b h = (
  (text_eq_iff a.radio b.radio).0 (ground (arith, h)),
  (text_eq_iff a.transverter b.transverter).0 (ground (arith, h)),
  (text_eq_iff a.antenna b.antenna).0 (ground (arith, h)),
)

same_chain :
    (a b : StationEquipment) → same_station_equipment a b ≡ true → rig_chain a ≡ rig_chain b
unfolding rig_chain
same_chain a b h =
    let (radio, transverter, antenna) = same_names a b h in rw (radio, transverter) refl

-- The text names the chains of a radio and a transverter that transmit and receive.
abbrev pub IsRig : ResolvedStationEquipment → Text → Type 0
IsRig e text =
    (tx : Text) × (rx : Text) × IsChain e.tx.radio e.tx.transverter tx
    × IsChain e.rx.radio e.rx.transverter rx
    × IsPaths tx rx text

pub describe_station_rig-IsRig : (e : ResolvedStationEquipment) → IsRig e (describe_station_rig e)
unfolding describe_station_rig
describe_station_rig-IsRig e = (
  rig_chain e.tx,
  rig_chain e.rx,
  rig_chain-IsChain e.tx,
  rig_chain-IsChain e.rx,
  IsPaths-of (rig_chain e.tx) (rig_chain e.rx) (same_station_equipment e.tx e.rx)
      (same_chain e.tx e.rx),
)

pub describe_station_antenna-IsPaths :
    (e : ResolvedStationEquipment) → IsPaths e.tx.antenna e.rx.antenna (describe_station_antenna e)
unfolding describe_station_antenna
describe_station_antenna-IsPaths e =
    IsPaths-of e.tx.antenna e.rx.antenna (same_station_equipment e.tx e.rx)
      (λ h. (same_names e.tx e.rx h).2)
