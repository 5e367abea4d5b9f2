-- ===== src/Spots/Reports.antt =====
-- The reports in the store of src/core/src/cw_spot_registry.cpp, and what each part of its methods
-- does to them.
use cw_buddy.Base.{
  ◌≡◌, refl, Bool, true, false, List, [], ◌∷◌, ◌++◌, ℕ, suc, zero, ◌≤◌, none, some, ltb,
  if◌then◌else◌, length, arith, ◌⊎◌, inl,
}
use cw_buddy.Text.{Text, text_eq_iff}
use cw_buddy.Callsign.{normalize}
use cw_buddy.Spots.{
  CwSpotSource, source_eq, CwSpot, Limits, prefix, bounded_spotter, expire, is_from, find_report,
  refreshed, refresh, oldest_ns, erase_first,
}

length-prefix : (n : ℕ) (t : Text) → length (prefix n t) ≤ n
length-prefix zero t = omega arith
length-prefix (suc n) [] = omega arith
length-prefix (suc n) (c ∷ t) = omega (arith, length-prefix n t)

pub length-bounded_spotter : (t : Text) → length (bounded_spotter t) ≤ 32
unfolding bounded_spotter
length-bounded_spotter t = ground (arith, length-prefix 32 t)

module _ {F : Type 0} (is_usable : F → Bool) where
  -- One report that may be stored.
  abbrev pub IsStored : CwSpot F → Type 0
  IsStored s =
      (normalize s.callsign ≡ some s.callsign)
      × (is_usable s.frequency_hz ≡ true)
      × (length s.spotter ≤ 32)

  -- Reports that may be stored, no two of one station by one source.
  abbrev pub AreStored : List (CwSpot F) → Type 0
  AreStored [] = Unit
  AreStored (s ∷ spots) =
      IsStored s × (find_report s.source s.callsign spots ≡ none) × AreStored spots

  expire-none :
      (limits : Limits) (now : ℕ) (source : CwSpotSource) (callsign : Text)
      (spots : List (CwSpot F))
      → find_report source callsign spots ≡ none
      → find_report source callsign (expire limits now spots) ≡ none
  unfolding expire find_report
  expire-none limits now source callsign [] h = refl
  expire-none limits now source callsign (s ∷ spots) h =
      ground (arith, expire-none limits now source callsign spots, h)

  pub expire-AreStored :
      (limits : Limits) (now : ℕ) (spots : List (CwSpot F))
      → AreStored spots
      → AreStored (expire limits now spots)
  unfolding expire
  expire-AreStored limits now [] a = tt
  expire-AreStored limits now (s ∷ spots) a = ground (
    arith,
    expire-AreStored limits now spots a.2,
    expire-none limits now s.source s.callsign spots a.1,
    a.0,
  )

  pub length-expire :
      (limits : Limits) (now : ℕ) (spots : List (CwSpot F))
      → length (expire limits now spots) ≤ length spots
  unfolding expire
  length-expire limits now [] = omega arith
  length-expire limits now (s ∷ spots) = ground (arith, length-expire limits now spots)

  pub erase_first-none :
      (t : ℕ) (source : CwSpotSource) (callsign : Text) (spots : List (CwSpot F))
      → find_report source callsign spots ≡ none
      → find_report source callsign (erase_first t spots) ≡ none
  unfolding erase_first find_report
  erase_first-none t source callsign [] h = refl
  erase_first-none t source callsign (s ∷ spots) h =
      ground (arith, erase_first-none t source callsign spots, h)

  pub erase_first-AreStored :
      (t : ℕ) (spots : List (CwSpot F)) → AreStored spots → AreStored (erase_first t spots)
  unfolding erase_first
  erase_first-AreStored t [] a = tt
  erase_first-AreStored t (s ∷ spots) a = ground (
    arith,
    erase_first-AreStored t spots a.2,
    erase_first-none t s.source s.callsign spots a.1,
    a.0,
    a.2,
  )

  append-none :
      (source : CwSpotSource) (callsign : Text) (n : CwSpot F) (spots : List (CwSpot F))
      → find_report source callsign spots ≡ none
      → is_from source callsign n ≡ false
      → find_report source callsign (spots ++ (n ∷ [])) ≡ none
  unfolding find_report
  append-none source callsign n [] h k = ground (arith, k)
  append-none source callsign n (s ∷ spots) h k =
      ground (arith, append-none source callsign n spots, h, k)

  source_eq_sym : (s t : CwSpotSource) → source_eq s t ≡ source_eq t s
  source_eq_sym s t = ground arith

  is_from-swap : (s n : CwSpot F) → is_from s.source s.callsign n ≡ is_from n.source n.callsign s
  is_from-swap s n = ground (
    arith,
    source_eq_sym s.source n.source,
    text_eq_iff s.callsign n.callsign,
    text_eq_iff n.callsign s.callsign,
  )

  not_from :
      (source : CwSpotSource) (callsign : Text) (s : CwSpot F) (spots : List (CwSpot F))
      → find_report source callsign (s ∷ spots) ≡ none
      → (is_from source callsign s ≡ false) × (find_report source callsign spots ≡ none)
  unfolding find_report
  not_from source callsign s spots h = ground (arith, h)

  pub append-AreStored :
      (n : CwSpot F) (spots : List (CwSpot F))
      → IsStored n
      → find_report n.source n.callsign spots ≡ none
      → AreStored spots
      → AreStored (spots ++ (n ∷ []))
  unfolding find_report
  append-AreStored n [] i h a = (i, refl, tt)
  append-AreStored n (s ∷ spots) i h a = (
    a.0,
    append-none s.source s.callsign n spots a.1
        (rw (is_from-swap s n) (not_from n.source n.callsign s spots h).0),
    append-AreStored n spots i (not_from n.source n.callsign s spots h).1 a.2,
  )

  refresh-none :
      (spot : CwSpot F) (c : Text) (source : CwSpotSource) (callsign : Text)
      (spots : List (CwSpot F))
      → find_report source callsign spots ≡ none
      → find_report source callsign (refresh spot c spots) ≡ none
  unfolding refresh find_report
  refresh-none spot c source callsign [] h = refl
  refresh-none spot c source callsign (s ∷ spots) h =
      ground (arith, refresh-none spot c source callsign spots, h)

  refreshed-IsStored :
      (spot s : CwSpot F)
      → is_usable spot.frequency_hz ≡ true
      → IsStored s
      → IsStored (refreshed spot s)
  refreshed-IsStored spot s u i = ground (arith, length-bounded_spotter spot.spotter, u, i)

  pub refresh-AreStored :
      (spot : CwSpot F) (c : Text) (spots : List (CwSpot F))
      → is_usable spot.frequency_hz ≡ true
      → AreStored spots
      → AreStored (refresh spot c spots)
  unfolding refresh
  refresh-AreStored spot c [] u a = tt
  refresh-AreStored spot c (s ∷ spots) u a = ground (
    arith,
    refresh-AreStored spot c spots u a.2,
    refresh-none spot c s.source s.callsign spots a.1,
    refreshed-IsStored spot s u a.0,
    a.1,
    a.2,
    a.0,
  )

  pub length-refresh :
      (spot : CwSpot F) (c : Text) (spots : List (CwSpot F))
      → length (refresh spot c spots) ≡ length spots
  unfolding refresh
  length-refresh spot c [] = refl
  length-refresh spot c (s ∷ spots) = ground (arith, length-refresh spot c spots)

  oldest_ns_found :
      (t : ℕ) (spots : List (CwSpot F))
      → (oldest_ns t spots ≡ t)
        ⊎ (suc (length (erase_first (oldest_ns t spots) spots)) ≡ length spots)
  unfolding oldest_ns erase_first
  oldest_ns_found t [] = inl refl
  oldest_ns_found t (s ∷ spots) =
      ground (arith, oldest_ns_found (if ltb s.observed_ns t then s.observed_ns else t) spots)

  pub length-erase_first :
      (s : CwSpot F) (spots : List (CwSpot F))
      → length (erase_first (oldest_ns s.observed_ns spots) (s ∷ spots)) ≡ length spots
  unfolding erase_first
  length-erase_first s spots = ground (arith, oldest_ns_found s.observed_ns spots)
