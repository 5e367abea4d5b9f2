-- ===== src/Spots/Stations.antt =====
-- What src/core/src/cw_spot_registry.cpp answers about stations.
use cw_buddy.Base.{
  ◌≡◌, ◌∙◌, sym, refl, subst, Bool, true, false, ◌&&◌, List, [], ◌∷◌, ℕ, Option, none, some, arith,
}
use cw_buddy.Text.{Text, text_eq, text_eq_refl, text_eq_iff}
use cw_buddy.Callsign.{normalize}
use cw_buddy.Spots.{CwSpot, is_current}
use cw_buddy.Spots.Matches.{CwSpotMatch, collect_loop, collect_matches, front, for_callsign, all}
use cw_buddy.Spots.Described.{
  AllListed, Describes, reports_of, Ordered-AllListed, Describes-summary,
}
use cw_buddy.Spots.Collected.{
  find_match, reported, summary, find_match-collect_loop, Distinct, no_match, Distinct-collect_loop,
  find_match-sort_matches, Distinct-sort_matches, Ordered-sort_matches,
}

other_station :
    (name callsign other : Text)
    → text_eq name other ≡ true
    → text_eq name callsign ≡ true
    → text_eq other callsign ≡ true
other_station name callsign other h k =
    (text_eq_iff other callsign).1
      (sym ((text_eq_iff name other).0 h) ∙ (text_eq_iff name callsign).0 k)

module _ {F : Type 0} where
  find_match-collect_matches :
      (accepted : CwSpot F → Bool) (spots : List (CwSpot F)) (callsign : Text)
      → find_match callsign (collect_matches accepted spots) ≡ summary accepted callsign spots none
  unfolding collect_matches find_match
  find_match-collect_matches accepted spots callsign =
      find_match-sort_matches callsign (collect_loop accepted spots [])
        (Distinct-collect_loop accepted spots [] no_match)
      ∙ find_match-collect_loop accepted callsign spots []

  -- The matches collected from any reports are listed with the newest first, and those of one time
  -- by callsign, as in a dictionary. A callsign has one match if it has accepted reports, and none
  -- otherwise. The match counts them, says which sources they are by, and has the time of the newest
  -- ones and the frequency of the last of these.
  pub collect_matches_lem :
      (accepted : CwSpot F → Bool) (spots : List (CwSpot F)) (callsign : Text)
      → AllListed (collect_matches accepted spots)
        × Distinct (collect_matches accepted spots)
        × Describes
            (reports_of accepted callsign spots)
            (find_match callsign (collect_matches accepted spots))
  unfolding collect_matches
  collect_matches_lem accepted spots callsign =
      let distinct =
        Distinct-sort_matches (collect_loop accepted spots [])
          (Distinct-collect_loop accepted spots [] no_match) in
      (
        Ordered-AllListed _ (Ordered-sort_matches (collect_loop accepted spots [])) distinct,
        distinct,
        subst (Describes (reports_of accepted callsign spots))
            (sym (find_match-collect_matches accepted spots callsign))
            (Describes-summary accepted callsign spots [] none refl),
      )

  abbrev selected : Text → (CwSpot F → Bool) → CwSpot F → Bool
  selected callsign accepted spot = text_eq spot.callsign callsign && accepted spot

  summary-selected :
      (accepted : CwSpot F → Bool) (callsign : Text) (spots : List (CwSpot F))
      (known : Option (CwSpotMatch F))
      → summary (selected callsign accepted) callsign spots known
        ≡ summary accepted callsign spots known
  unfolding summary
  summary-selected accepted callsign [] known = refl
  summary-selected accepted callsign (spot ∷ spots) known = ground (
    arith,
    summary-selected accepted callsign spots known,
    summary-selected accepted callsign spots (some (reported spot known)),
  )

  summary_other :
      (accepted : CwSpot F → Bool) (callsign other : Text) (spots : List (CwSpot F))
      → text_eq other callsign ≡ false
      → summary (selected callsign accepted) other spots none ≡ none
  unfolding summary
  summary_other accepted callsign other [] h = refl
  summary_other accepted callsign other (spot ∷ spots) h = ground (
    arith,
    h,
    summary_other accepted callsign other spots h,
    other_station spot.callsign callsign other,
  )

  front-find_match :
      (callsign : Text) (matches : List (CwSpotMatch F))
      → ((other : Text) → text_eq other callsign ≡ false → find_match other matches ≡ none)
      → front matches ≡ find_match callsign matches
  unfolding find_match
  front-find_match callsign [] h = refl
  front-find_match callsign (m ∷ matches) h = ground (arith, h m.callsign, text_eq_refl m.callsign)

  -- A question about a callsign that is one, in any spelling, is answered with the match of its
  -- station in the list of all stations at that time, and with none if the list has none.
  pub for_callsign-all :
      (retention : ℕ) (callsign normalized : Text) (now : ℕ) (spots : List (CwSpot F))
      → normalize callsign ≡ some normalized
      → for_callsign retention callsign now spots ≡ find_match normalized (all retention now spots)
  unfolding all for_callsign
  for_callsign-all retention callsign n now spots h =
      rw (h, for_callsign)
        (front-find_match n (collect_matches (selected n (is_current now retention)) spots)
            (λ other d.
              find_match-collect_matches (selected n (is_current now retention)) spots other
              ∙ summary_other (is_current now retention) n other spots d)
          ∙ (find_match-collect_matches (selected n (is_current now retention)) spots n
              ∙ (summary-selected (is_current now retention) n spots none
                  ∙ sym (find_match-collect_matches (is_current now retention) spots n))))
