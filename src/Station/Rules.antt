-- ===== src/Station/Rules.antt =====
-- The rules are ordered: the first one that names the band wins.
use cw_buddy.Base.{
  ◌≡◌, refl, ap, ◌↔◌, true, false, List, [], ◌∷◌, ◌++◌, some, All, Bool-cases, inl, inr, arith,
}
use cw_buddy.Text.{Text}
use cw_buddy.Station.{StationEquipment, StationEquipmentRule, names_band, find_equipment}

abbrev pub IsFirstRule : Text → List StationEquipmentRule → StationEquipment → Type 0
IsFirstRule band rules equipment =
    (front : List StationEquipmentRule) × (rule : StationEquipmentRule) × (back : List
      StationEquipmentRule)
    × (rules ≡ front ++ rule ∷ back)
    × All (λ r. names_band band r.bands ≡ false) front
    × (names_band band rule.bands ≡ true)
    × (rule.equipment ≡ equipment)

find_equipment_sound :
    (band : Text) (rules : List StationEquipmentRule) (equipment : StationEquipment)
    → find_equipment band rules ≡ some equipment
    → IsFirstRule band rules equipment
unfolding find_equipment
find_equipment_sound band [] equipment h = absurd (cc h)
find_equipment_sound band (rule ∷ rules) equipment h =
    elim (Bool-cases (names_band band rule.bands)) [
      | inl e ↦ ([], rule, rules, refl, tt, e, ground (arith, e, h))
      | inr e ↦
          let (front, first, back, is, skipped, names, eq) =
            find_equipment_sound band rules equipment (rw e at h) in
          (rule ∷ front, first, back, ap (λ r. rule ∷ r) is, (e, skipped), names, eq)
    ]

find_equipment_complete :
    (band : Text) (front back : List StationEquipmentRule) (rule : StationEquipmentRule)
    → All (λ r. names_band band r.bands ≡ false) front
    → names_band band rule.bands ≡ true
    → find_equipment band (front ++ rule ∷ back) ≡ some rule.equipment
unfolding find_equipment
find_equipment_complete band [] back rule skipped names = rw names refl
find_equipment_complete band (r ∷ front) back rule (now, later) names =
    rw now (find_equipment_complete band front back rule later names)

-- The equipment found for a band is that of the first rule that names the band, and some is found
-- whenever a rule names it.
pub find_equipment_lem :
    (band : Text) (rules : List StationEquipmentRule) (equipment : StationEquipment)
    → (find_equipment band rules ≡ some equipment) ↔ IsFirstRule band rules equipment
find_equipment_lem band rules equipment = (
  find_equipment_sound band rules equipment,
  λ (front, rule, back, is, skipped, names, eq).
      rw (is, ← eq) (find_equipment_complete band front back rule skipped names),
)
