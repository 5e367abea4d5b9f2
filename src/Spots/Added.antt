-- ===== src/Spots/Added.antt =====
-- What `add` of src/core/src/cw_spot_registry.cpp leaves in the store.
use cw_buddy.Base.{
  ◌≡◌, ap, sym, ◌∙◌, Bool, true, false, ◌&&◌, List, [], ◌∷◌, ℕ, ◌≤◌, none, some, arith, subst, ◌⊎◌,
  inl, inr, Option-cases,
}
use cw_buddy.Text.{Text, text_eq_refl}
use cw_buddy.Callsign.{normalize}
use cw_buddy.Spots.{
  CwSpotSource, source_eq, CwSpot, Limits, is_current, expire, is_from, find_report, oldest_ns,
  erase_first, stored, append_new, insert, add,
}
use cw_buddy.Spots.Newest.{
  Knows, Knows-expire, Knows-erase_first, Knows-append, found_last, erase_first-none, Knows-refresh,
  refresh-Knows,
}

module _ {F : Type 0} (is_usable : F → Bool) (limits : Limits) (spot : CwSpot F) (now : ℕ) where
  stored-is_from : (c : Text) → is_from spot.source c (stored spot c) ≡ true
  stored-is_from c = rw (text_eq_refl c) (same spot.source)
    where
      same : (s : CwSpotSource) → (source_eq s s && true) ≡ true
      same s = ground arith

  append_new-keeps :
      (c : Text) (source : CwSpotSource) (callsign : Text) (r : CwSpot F) (spots : List (CwSpot F))
      → spot.observed_ns ≤ r.observed_ns
      → find_report source callsign spots ≡ some r
      → find_report source callsign (append_new limits spot c spots).0 ≡ some r
  unfolding append_new
  append_new-keeps c source callsign r [] o f = absurd (unfold find_report in cc f)
  append_new-keeps c source callsign r (s ∷ spots) o f =
      let t = oldest_ns s.observed_ns spots in
      ground (
        arith,
        Knows-append source callsign r (stored spot c) (s ∷ spots) f,
        Knows-append source callsign r (stored spot c) (erase_first t (s ∷ spots)),
        Knows-erase_first t source callsign r (s ∷ spots),
        o,
        f,
      )

  append_new-takes :
      (c : Text) (spots : List (CwSpot F))
      → find_report spot.source c spots ≡ none
      → (append_new limits spot c spots).1 ≡ true
      → find_report spot.source c (append_new limits spot c spots).0 ≡ some (stored spot c)
  unfolding append_new
  append_new-takes c [] f h =
      ground (arith, found_last spot.source c (stored spot c) [] (stored-is_from c) f, h)
  append_new-takes c (s ∷ spots) f h =
      let t = oldest_ns s.observed_ns spots in
      ground (
        arith,
        found_last spot.source c (stored spot c) (s ∷ spots) (stored-is_from c) f,
        found_last spot.source c (stored spot c) (erase_first t (s ∷ spots)) (stored-is_from c)
            (erase_first-none t spot.source c (s ∷ spots) f),
        h,
      )

  insert-keeps :
      (c : Text) (source : CwSpotSource) (callsign : Text) (r : CwSpot F) (spots : List (CwSpot F))
      → spot.observed_ns ≤ r.observed_ns
      → find_report source callsign spots ≡ some r
      → Knows source callsign r.observed_ns (insert limits spot c spots).0
  unfolding insert
  insert-keeps c source callsign r spots o f =
      elim (Option-cases (find_report spot.source c spots)) [
        | inl e ↦ rw (insert, e) (r, (append_new-keeps c source callsign r spots o f, omega arith))
        | inr (s, e) ↦ rw (insert, e) (Knows-refresh spot c source callsign r spots f)
      ]

  insert-takes :
      (c : Text) (spots : List (CwSpot F))
      → (insert limits spot c spots).1 ≡ true
      → Knows spot.source c spot.observed_ns (insert limits spot c spots).0
  unfolding insert
  insert-takes c spots h = elim (Option-cases (find_report spot.source c spots)) [
    | inl e ↦
        rw (insert, e)
          (stored spot c, (append_new-takes c spots e (rw (insert, e) at h), omega arith))
    | inr (s, e) ↦ rw (insert, e) (refresh-Knows spot c s spots e)
  ]

  -- What `add` does when the callsign is good and the store has room for any.
  add_unfolded :
      (c : Text) (spots : List (CwSpot F))
      → normalize spot.callsign ≡ some c
      → (add is_usable limits spot now spots ≡ (spots, false))
        ⊎ (add is_usable limits spot now spots ≡ insert limits spot c (expire limits now spots))
  unfolding add
  add_unfolded c spots e = rw (add, e) (ground arith)

  add_refused :
      (spots : List (CwSpot F))
      → normalize spot.callsign ≡ none
      → add is_usable limits spot now spots ≡ (spots, false)
  unfolding add
  add_refused spots e = rw (add, e) (ground arith)

  -- A report that `add` accepts is known afterwards: the store has a report of its station by its
  -- source that is as new or newer.
  pub add-Knows :
      (c : Text) (spots : List (CwSpot F))
      → normalize spot.callsign ≡ some c
      → (add is_usable limits spot now spots).1 ≡ true
      → Knows spot.source c spot.observed_ns (add is_usable limits spot now spots).0
  add-Knows c spots e h = elim (add_unfolded c spots e) [
    | inl q ↦ absurd (cc (h, ap (λ x. x.1) q))
    | inr q ↦
        subst (λ x. Knows spot.source c spot.observed_ns x.0) (sym q)
          (insert-takes c (expire limits now spots) (sym (ap (λ x. x.1) q) ∙ h))
  ]

  -- Whatever `add` is given and whether it accepts it, what the store knows of any station by a
  -- report that is current, and no older than the one that is added, it knows as new or newer
  -- afterwards: only reports that have aged out or are older than the new one make room.
  pub add_keeps-Knows :
      (source : CwSpotSource) (callsign : Text) (r : CwSpot F) (spots : List (CwSpot F))
      → find_report source callsign spots ≡ some r
      → is_current now limits.retention_ns r ≡ true
      → spot.observed_ns ≤ r.observed_ns
      → Knows source callsign r.observed_ns (add is_usable limits spot now spots).0
  add_keeps-Knows source callsign r spots f k o = elim (Option-cases (normalize spot.callsign)) [
    | inl e ↦
        subst (λ x. Knows source callsign r.observed_ns x.0) (sym (add_refused spots e))
          (r, (f, omega arith))
    | inr (c, e) ↦ elim (add_unfolded c spots e) [
      | inl q ↦ subst (λ x. Knows source callsign r.observed_ns x.0) (sym q) (r, (f, omega arith))
      | inr q ↦
          subst (λ x. Knows source callsign r.observed_ns x.0) (sym q)
            (insert-keeps c source callsign r (expire limits now spots) o
              (Knows-expire limits now source callsign r spots k f))
    ]
  ]
