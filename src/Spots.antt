-- ===== src/Spots.antt =====
-- src/core/src/cw_spot_registry.cpp and its header: the bounded store of reports of stations. What
-- the code asks of a frequency, that it is finite and above 0, is the parameter `is_usable`.
pub mod Reports
pub mod Bounded
pub mod Newest
pub mod Added
pub mod Matches
pub mod Collected
pub mod Described
pub mod Stations
use cw_buddy.Base.{
  Bool, true, false, ◌&&◌, ◌||◌, not, List, [], ◌∷◌, ◌++◌, ℕ, suc, zero, ◌-◌, Option, none, some,
  ltb, leb, ◌==◌, if◌then◌else◌, length,
}
use cw_buddy.Text.{Text, text_eq}
use cw_buddy.Callsign.{normalize}

pub data CwSpotSource : Type 0 where
  reverse_beacon cluster : CwSpotSource

abbrev pub source_eq : CwSpotSource → CwSpotSource → Bool
source_eq reverse_beacon reverse_beacon = true
source_eq cluster cluster = true
source_eq s t = false

pub record CwSpot (F : Type 0) : Type 0 where
  pub callsign : Text
  pub frequency_hz : F
  pub observed_ns : ℕ
  pub spotter : Text
  pub source : CwSpotSource

-- The limits that the store depends on.
pub record Limits : Type 0 where
  pub maximum_spots : ℕ
  pub retention_ns : ℕ

abbrev pub default_limits : Limits
default_limits = record { maximum_spots = 4096; retention_ns = 900000000000 }

-- `substr(0, n)`.
abbrev pub prefix : ℕ → Text → Text
prefix zero t = []
prefix (suc n) [] = []
prefix (suc n) (c ∷ t) = c ∷ prefix n t

unfoldable pub bounded_spotter : Text → Text
bounded_spotter spotter = if leb (length spotter) 32 then spotter else prefix 32 spotter

module _ {F : Type 0} where
  unfoldable pub is_current : ℕ → ℕ → CwSpot F → Bool
  is_current now retention spot =
      if leb now spot.observed_ns then true else leb (now - spot.observed_ns) retention

  unfoldable pub expire : Limits → ℕ → List (CwSpot F) → List (CwSpot F)
  expire limits now [] = []
  expire limits now (s ∷ spots) =
      if not (is_current now limits.retention_ns s)
      then expire limits now spots
      else s ∷ expire limits now spots

  -- A report of the station by the source.
  abbrev pub is_from : CwSpotSource → Text → CwSpot F → Bool
  is_from source callsign s = source_eq s.source source && text_eq s.callsign callsign

  -- What `find_if` finds.
  unfoldable pub find_report : CwSpotSource → Text → List (CwSpot F) → Option (CwSpot F)
  find_report source callsign [] = none
  find_report source callsign (s ∷ spots) =
      if is_from source callsign s then some s else find_report source callsign spots

  -- The report that was found, after a newer one.
  abbrev pub refreshed : CwSpot F → CwSpot F → CwSpot F
  refreshed spot s =
      if leb s.observed_ns spot.observed_ns
      then record s {
        frequency_hz = spot.frequency_hz;
        observed_ns = spot.observed_ns;
        spotter = bounded_spotter spot.spotter;
      }
      else s

  unfoldable pub refresh : CwSpot F → Text → List (CwSpot F) → List (CwSpot F)
  refresh spot callsign [] = []
  refresh spot callsign (s ∷ spots) =
      if is_from spot.source callsign s
      then refreshed spot s ∷ spots
      else s ∷ refresh spot callsign spots

  -- The time of the report that `min_element` finds, from a first one on.
  unfoldable pub oldest_ns : ℕ → List (CwSpot F) → ℕ
  oldest_ns t [] = t
  oldest_ns t (s ∷ spots) = oldest_ns (if ltb s.observed_ns t then s.observed_ns else t) spots

  -- `erase` of the first report of that time.
  unfoldable pub erase_first : ℕ → List (CwSpot F) → List (CwSpot F)
  erase_first t [] = []
  erase_first t (s ∷ spots) = if s.observed_ns == t then spots else s ∷ erase_first t spots

  abbrev pub stored : CwSpot F → Text → CwSpot F
  stored spot callsign = record {
    callsign = callsign;
    frequency_hz = spot.frequency_hz;
    observed_ns = spot.observed_ns;
    spotter = bounded_spotter spot.spotter;
    source = spot.source;
  }

  -- The end of `add` for a report of a new station: at the cap, the oldest report makes room for a
  -- newer one.
  unfoldable pub append_new : Limits → CwSpot F → Text → List (CwSpot F) → List (CwSpot F) × Bool
  append_new limits spot callsign [] =
      if leb limits.maximum_spots 0 then ([], false) else (stored spot callsign ∷ [], true)
  append_new limits spot callsign (s ∷ spots) =
      if not (leb limits.maximum_spots (length (s ∷ spots)))
      then ((s ∷ spots) ++ (stored spot callsign ∷ []), true)
      else if leb spot.observed_ns (oldest_ns s.observed_ns spots)
      then (s ∷ spots, false)
      else (
        erase_first (oldest_ns s.observed_ns spots) (s ∷ spots) ++ (stored spot callsign ∷ []),
        true,
      )

  -- `add` from the search on.
  unfoldable pub insert : Limits → CwSpot F → Text → List (CwSpot F) → List (CwSpot F) × Bool
  insert limits spot callsign spots = elim (find_report spot.source callsign spots) [
    | some s ↦ (refresh spot callsign spots, true)
    | none ↦ append_new limits spot callsign spots
  ]

  -- Stamped too long ago, or too far ahead.
  abbrev pub is_out_of_time : Limits → ℕ → CwSpot F → Bool
  is_out_of_time limits now spot =
      (ltb spot.observed_ns now && ltb limits.retention_ns (now - spot.observed_ns))
      || (ltb now spot.observed_ns && ltb limits.retention_ns (spot.observed_ns - now))

  unfoldable pub add : (F → Bool) → Limits → CwSpot F → ℕ → List (CwSpot F) → List (CwSpot F) × Bool
  add is_usable limits spot now spots =
      if limits.maximum_spots == 0 then (spots, false) else elim (normalize spot.callsign) [
        | none ↦ (spots, false)
        | some callsign ↦
            if not (is_usable spot.frequency_hz) || is_out_of_time limits now spot
            then (spots, false)
            else insert limits spot callsign (expire limits now spots)
      ]

-- A call of a method that changes the store.
pub data Call (F : Type 0) : Type 0 where
  adds : CwSpot F → ℕ → Call F
  expires : ℕ → Call F
  clears : Call F

module _ {F : Type 0} (is_usable : F → Bool) (limits : Limits) where
  unfoldable pub step : Call F → List (CwSpot F) → List (CwSpot F)
  step (adds spot now) spots = (add is_usable limits spot now spots).0
  step (expires now) spots = expire limits now spots
  step clears spots = []

  unfoldable pub run : List (Call F) → List (CwSpot F) → List (CwSpot F)
  run [] spots = spots
  run (c ∷ cs) spots = run cs (step c spots)
