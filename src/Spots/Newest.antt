-- ===== src/Spots/Newest.antt =====
-- Which reports the store of src/core/src/cw_spot_registry.cpp keeps when `add` takes another one.
use cw_buddy.Base.{
  ◌≡◌, refl, true, false, List, [], ◌∷◌, ◌++◌, ℕ, ◌≤◌, ◌<◌, none, some, arith, ◌⊎◌, inl, inr,
  Bool-cases,
}
use cw_buddy.Text.{Text}
use cw_buddy.Spots.{
  CwSpotSource, CwSpot, Limits, is_current, expire, is_from, find_report, refreshed, refresh,
  erase_first,
}

module _ {F : Type 0} where
  -- The store has a report of the station by the source, of this time or newer.
  abbrev pub Knows : CwSpotSource → Text → ℕ → List (CwSpot F) → Type 0
  Knows source callsign t spots =
      (r : CwSpot F) × ((find_report source callsign spots ≡ some r) × (t ≤ r.observed_ns))

  pub Knows-expire :
      (limits : Limits) (now : ℕ) (source : CwSpotSource) (callsign : Text) (r : CwSpot F)
      (spots : List (CwSpot F))
      → is_current now limits.retention_ns r ≡ true
      → find_report source callsign spots ≡ some r
      → find_report source callsign (expire limits now spots) ≡ some r
  unfolding expire find_report
  Knows-expire limits now source callsign r [] k f = f
  Knows-expire limits now source callsign r (s ∷ spots) k f =
      ground (arith, Knows-expire limits now source callsign r spots k, f, k)

  pub Knows-erase_first :
      (t : ℕ) (source : CwSpotSource) (callsign : Text) (r : CwSpot F) (spots : List (CwSpot F))
      → t < r.observed_ns
      → find_report source callsign spots ≡ some r
      → find_report source callsign (erase_first t spots) ≡ some r
  unfolding erase_first find_report
  Knows-erase_first t source callsign r [] k f = f
  Knows-erase_first t source callsign r (s ∷ spots) k f =
      ground (arith, Knows-erase_first t source callsign r spots k, f, k)

  pub Knows-append :
      (source : CwSpotSource) (callsign : Text) (r n : CwSpot F) (spots : List (CwSpot F))
      → find_report source callsign spots ≡ some r
      → find_report source callsign (spots ++ (n ∷ [])) ≡ some r
  unfolding find_report
  Knows-append source callsign r n [] f = absurd (cc f)
  Knows-append source callsign r n (s ∷ spots) f =
      ground (arith, Knows-append source callsign r n spots, f)

  pub found_last :
      (source : CwSpotSource) (callsign : Text) (n : CwSpot F) (spots : List (CwSpot F))
      → is_from source callsign n ≡ true
      → find_report source callsign spots ≡ none
      → find_report source callsign (spots ++ (n ∷ [])) ≡ some n
  unfolding find_report
  found_last source callsign n [] k f = ground (arith, k)
  found_last source callsign n (s ∷ spots) k f =
      ground (arith, found_last source callsign n spots k, f)

  pub erase_first-none :
      (t : ℕ) (source : CwSpotSource) (callsign : Text) (spots : List (CwSpot F))
      → find_report source callsign spots ≡ none
      → find_report source callsign (erase_first t spots) ≡ none
  unfolding erase_first find_report
  erase_first-none t source callsign [] h = refl
  erase_first-none t source callsign (s ∷ spots) h =
      ground (arith, erase_first-none t source callsign spots, h)

  Knows-here :
      (source : CwSpotSource) (callsign : Text) (t : ℕ) (s : CwSpot F) (spots : List (CwSpot F))
      → is_from source callsign s ≡ true
      → t ≤ s.observed_ns
      → Knows source callsign t (s ∷ spots)
  unfolding find_report
  Knows-here source callsign t s spots k h = (s, (rw k refl, h))

  Knows-later :
      (source : CwSpotSource) (callsign : Text) (t : ℕ) (s : CwSpot F) (spots : List (CwSpot F))
      → is_from source callsign s ≡ false
      → Knows source callsign t spots
      → Knows source callsign t (s ∷ spots)
  unfolding find_report
  Knows-later source callsign t s spots k (r, f) = (r, (rw k f.0, f.1))

  found_cons :
      (source : CwSpotSource) (callsign : Text) (r s : CwSpot F) (spots : List (CwSpot F))
      → find_report source callsign (s ∷ spots) ≡ some r
      → ((is_from source callsign s ≡ true) × (s.observed_ns ≡ r.observed_ns))
        ⊎ ((is_from source callsign s ≡ false) × (find_report source callsign spots ≡ some r))
  unfolding find_report
  found_cons source callsign r s spots f = ground (arith, f)

  refreshed_from :
      (source : CwSpotSource) (callsign : Text) (spot s : CwSpot F)
      → (is_from source callsign (refreshed spot s) ≡ is_from source callsign s)
        × (s.observed_ns ≤ (refreshed spot s).observed_ns)
        × (spot.observed_ns ≤ (refreshed spot s).observed_ns)
  refreshed_from source callsign spot s = ground arith

  -- A refresh keeps what is known of every station.
  pub Knows-refresh :
      (spot : CwSpot F) (c : Text) (source : CwSpotSource) (callsign : Text) (r : CwSpot F)
      (spots : List (CwSpot F))
      → find_report source callsign spots ≡ some r
      → Knows source callsign r.observed_ns (refresh spot c spots)
  unfolding refresh
  Knows-refresh spot c source callsign r [] f = (r, (f, omega arith))
  Knows-refresh spot c source callsign r (s ∷ spots) f =
      let q = refreshed_from source callsign spot s in
      elim (Bool-cases (is_from spot.source c s)) [
        | inl e ↦ rw e (elim (found_cons source callsign r s spots f) [
          | inl (k, o) ↦
              Knows-here source callsign r.observed_ns (refreshed spot s) spots (rw q.0 k)
                (omega (arith, q.1, o))
          | inr (k, g) ↦
              Knows-later source callsign r.observed_ns (refreshed spot s) spots (rw q.0 k)
                (r, (g, omega arith))
        ])
        | inr e ↦ rw e (elim (found_cons source callsign r s spots f) [
          | inl (k, o) ↦
              Knows-here source callsign r.observed_ns s (refresh spot c spots) k (omega (arith, o))
          | inr (k, g) ↦
              Knows-later source callsign r.observed_ns s (refresh spot c spots) k
                (Knows-refresh spot c source callsign r spots g)
        ])
      ]

  -- A refresh takes the report.
  pub refresh-Knows :
      (spot : CwSpot F) (c : Text) (r : CwSpot F) (spots : List (CwSpot F))
      → find_report spot.source c spots ≡ some r
      → Knows spot.source c spot.observed_ns (refresh spot c spots)
  unfolding refresh
  refresh-Knows spot c r [] f = absurd (unfold find_report in cc f)
  refresh-Knows spot c r (s ∷ spots) f =
      let q = refreshed_from spot.source c spot s in
      elim (found_cons spot.source c r s spots f) [
        | inl (k, o) ↦
            rw k (Knows-here spot.source c spot.observed_ns (refreshed spot s) spots (rw q.0 k) q.2)
        | inr (k, g) ↦ rw k (
            Knows-later spot.source c spot.observed_ns s (refresh spot c spots) k
              (refresh-Knows spot c r spots g))
      ]
