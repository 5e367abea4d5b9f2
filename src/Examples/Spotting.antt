-- ===== src/Examples/Spotting.antt =====
-- A store of at most two reports, as in src/core/src/cw_spot_registry.cpp, with frequencies in
-- whole hertz.
use cw_buddy.Base.{◌≡◌, refl, Bool, true, List, [], ◌∷◌, ℕ, some, ltb}
use cw_buddy.Text.{Text, codes, text_eq}
use cw_buddy.Callsign.{drop_blank, trim, scan_step, scan, normalize_trimmed, accept, normalize}
use cw_buddy.Spots.{
  CwSpot, Limits, cluster, reverse_beacon, is_current, expire, find_report, bounded_spotter,
  oldest_ns, erase_first, append_new, insert, add, Call, adds, expires, run,
}
use cw_buddy.Spots.Bounded.{Inv, spots-Inv}
use cw_buddy.Spots.Newest.{Knows}
use cw_buddy.Spots.Matches.{
  collect_matches, for_callsign, all, front, collect_loop, absorb, fold_in, sort_matches,
  insert_match, precedes,
}
use cw_buddy.Spots.Collected.{find_match, Distinct}
use cw_buddy.Spots.Described.{AllListed, Describes, reports_of}
use cw_buddy.Spots.Stations.{collect_matches_lem, for_callsign-all}
use cw_buddy.Spots.Added.{add-Knows}

abbrev usable : ℕ → Bool
usable hz = ltb 0 hz

abbrev limits : Limits
limits = record { maximum_spots = 2; retention_ns = 1000 }

abbrev spot : Text → ℕ → CwSpot ℕ
spot callsign observed = record {
  callsign = callsign;
  frequency_hz = 14020000;
  observed_ns = observed;
  spotter = codes "K9XYZ";
  source = cluster;
}

abbrev calls : List (Call ℕ)
calls =
    adds (spot (codes "k1abc") 100) 100
    ∷ adds (spot (codes "DL1AB") 200) 200
    ∷ adds (spot (codes "EA1XY") 300) 300
    ∷ expires 1250
    ∷ []

spots-Inv_example : Inv usable limits (run usable limits calls [])
spots-Inv_example = spots-Inv usable limits calls

normalize_spot : normalize (codes "ea1xy") ≡ some (codes "EA1XY")
unfolding normalize drop_blank trim scan_step scan normalize_trimmed accept
normalize_spot = refl

-- Two stored reports, one of which is at the end of its time.
abbrev two_spots : List (CwSpot ℕ)
two_spots = spot (codes "K1ABC") 100 ∷ spot (codes "DL1AB") 900 ∷ []

add_succeeds : (add usable limits (spot (codes "ea1xy") 800) 950 two_spots).1 ≡ true
unfolding add insert append_new expire is_current find_report oldest_ns erase_first bounded_spotter
    text_eq normalize drop_blank trim scan_step scan normalize_trimmed accept
add_succeeds = refl

add-Knows_example :
    Knows cluster (codes "EA1XY") 800 (add usable limits (spot (codes "ea1xy") 800) 950 two_spots).0
add-Knows_example =
    add-Knows usable limits (spot (codes "ea1xy") 800) 950 (codes "EA1XY") two_spots normalize_spot
      add_succeeds

normalize_station : normalize (codes "k1abc") ≡ some (codes "K1ABC")
unfolding normalize drop_blank trim scan_step scan normalize_trimmed accept
normalize_station = refl

-- Two stations, one of which was reported by both sources.
abbrev three_spots : List (CwSpot ℕ)
three_spots =
    spot (codes "K1ABC") 100
    ∷ spot (codes "DL1AB") 900
    ∷ record (spot (codes "K1ABC") 950) { source = reverse_beacon }
    ∷ []

-- The station that both sources reported is first in the list.
listed :
    front (all 1000 1000 three_spots)
    ≡ some (record {
      callsign = codes "K1ABC";
      frequency_hz = 14020000;
      reverse_beacon = true;
      cluster = true;
      newest_observation_ns = 950;
      observations = 2;
    })
unfolding all collect_matches collect_loop absorb fold_in sort_matches insert_match precedes
    is_current text_eq
listed = refl

collect_matches_lem_example :
    AllListed (collect_matches (is_current 1000 1000) three_spots)
    × Distinct (collect_matches (is_current 1000 1000) three_spots)
    × Describes
        (reports_of (is_current 1000 1000) (codes "K1ABC") three_spots)
        (find_match (codes "K1ABC") (collect_matches (is_current 1000 1000) three_spots))
collect_matches_lem_example = collect_matches_lem (is_current 1000 1000) three_spots (codes "K1ABC")

for_callsign-all_example :
    for_callsign 1000 (codes "k1abc") 1000 three_spots
    ≡ find_match (codes "K1ABC") (all 1000 1000 three_spots)
for_callsign-all_example =
    for_callsign-all 1000 (codes "k1abc") (codes "K1ABC") 1000 three_spots normalize_station
