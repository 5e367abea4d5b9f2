-- ===== src/Spots/Matches.antt =====
-- src/core/src/cw_spot_registry.cpp: what the store says about stations, one match for each. The
-- sort of the standard library is an insertion sort. What the code asks of two frequencies is a
-- parameter: that the first is finite, and that they agree within the tolerance.
use cw_buddy.Base.{
  Bool, true, false, ◌&&◌, ◌||◌, not, List, [], ◌∷◌, ℕ, ◌+◌, Option, none, some, ltb, leb, ◌==◌,
  if◌then◌else◌,
}
use cw_buddy.Text.{Text, text_eq}
use cw_buddy.Callsign.{normalize}
use cw_buddy.Spots.{CwSpot, reverse_beacon, cluster, source_eq, is_current}

pub record CwSpotMatch (F : Type 0) : Type 0 where
  pub callsign : Text
  pub frequency_hz : F
  pub reverse_beacon : Bool
  pub cluster : Bool
  pub newest_observation_ns : ℕ
  pub observations : ℕ

-- `operator<` of texts.
unfoldable pub text_less : Text → Text → Bool
text_less xs [] = false
text_less [] (c ∷ t) = true
text_less (c ∷ t) (d ∷ u) = if c == d then text_less t u else ltb c d

module _ {F : Type 0} where
  abbrev pub new_match : CwSpot F → CwSpotMatch F
  new_match spot = record {
    callsign = spot.callsign;
    frequency_hz = spot.frequency_hz;
    reverse_beacon = source_eq spot.source reverse_beacon;
    cluster = source_eq spot.source cluster;
    newest_observation_ns = spot.observed_ns;
    observations = 1;
  }

  -- The match of a station, after one more report of it.
  unfoldable pub fold_in : CwSpot F → CwSpotMatch F → CwSpotMatch F
  fold_in spot m = record m {
    reverse_beacon = m.reverse_beacon || source_eq spot.source reverse_beacon;
    cluster = m.cluster || source_eq spot.source cluster;
    observations = m.observations + 1;
    newest_observation_ns =
        if leb m.newest_observation_ns spot.observed_ns
        then spot.observed_ns
        else m.newest_observation_ns;
    frequency_hz =
        if leb m.newest_observation_ns spot.observed_ns then spot.frequency_hz else m.frequency_hz;
  }

  -- The body of the loop: the match that the index leads to, or a new one.
  unfoldable pub absorb : CwSpot F → List (CwSpotMatch F) → List (CwSpotMatch F)
  absorb spot [] = new_match spot ∷ []
  absorb spot (m ∷ matches) =
      if text_eq m.callsign spot.callsign then fold_in spot m ∷ matches else m ∷ absorb spot matches

  unfoldable pub collect_loop :
      (CwSpot F → Bool) → List (CwSpot F) → List (CwSpotMatch F) → List (CwSpotMatch F)
  collect_loop accepted [] matches = matches
  collect_loop accepted (spot ∷ spots) matches =
      collect_loop accepted spots (if accepted spot then absorb spot matches else matches)

  -- The order of the sort: the newest first, then by callsign.
  unfoldable pub precedes : CwSpotMatch F → CwSpotMatch F → Bool
  precedes left right =
      if not (left.newest_observation_ns == right.newest_observation_ns)
      then ltb right.newest_observation_ns left.newest_observation_ns
      else text_less left.callsign right.callsign

  unfoldable pub insert_match : CwSpotMatch F → List (CwSpotMatch F) → List (CwSpotMatch F)
  insert_match m [] = m ∷ []
  insert_match m (x ∷ matches) =
      if precedes x m then x ∷ insert_match m matches else m ∷ x ∷ matches

  unfoldable pub sort_matches : List (CwSpotMatch F) → List (CwSpotMatch F)
  sort_matches [] = []
  sort_matches (m ∷ matches) = insert_match m (sort_matches matches)

  unfoldable pub collect_matches : (CwSpot F → Bool) → List (CwSpot F) → List (CwSpotMatch F)
  collect_matches accepted spots = sort_matches (collect_loop accepted spots [])

  unfoldable pub near_frequency :
      (F → Bool) → (F → F → Bool) → ℕ → F → ℕ → List (CwSpot F) → List (CwSpotMatch F)
  near_frequency is_finite agrees retention frequency now spots =
      if not (is_finite frequency)
      then []
      else collect_matches
          (λ spot. is_current now retention spot && agrees spot.frequency_hz frequency) spots

  abbrev pub front : List (CwSpotMatch F) → Option (CwSpotMatch F)
  front [] = none
  front (m ∷ matches) = some m

  unfoldable pub for_callsign : ℕ → Text → ℕ → List (CwSpot F) → Option (CwSpotMatch F)
  for_callsign retention callsign now spots = elim (normalize callsign) [
    | none ↦ none
    | some normalized ↦ front (
        collect_matches (λ spot. text_eq spot.callsign normalized && is_current now retention spot)
          spots)
  ]

  unfoldable pub all : ℕ → ℕ → List (CwSpot F) → List (CwSpotMatch F)
  all retention now spots = collect_matches (λ spot. is_current now retention spot) spots
