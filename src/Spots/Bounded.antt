-- ===== src/Spots/Bounded.antt =====
-- What holds of the store of src/core/src/cw_spot_registry.cpp after any sequence of calls, and
-- what a report that `add` takes leaves there.
use cw_buddy.Base.{
  ◌≡◌, Bool, true, List, [], ◌∷◌, ℕ, ◌≤◌, none, some, length, arith, inl, inr, Option-cases,
  length-append,
}
use cw_buddy.Text.{Text}
use cw_buddy.Callsign.{normalize}
use cw_buddy.Callsign.Normal.{normalize-IsNormal}
use cw_buddy.Spots.{
  CwSpot, Limits, expire, find_report, oldest_ns, erase_first, stored, append_new, insert, add,
  Call, adds, expires, clears, step, run,
}
use cw_buddy.Spots.Reports.{
  IsStored, AreStored, expire-AreStored, length-expire, erase_first-none, erase_first-AreStored,
  append-AreStored, refresh-AreStored, length-refresh, length-erase_first, length-bounded_spotter,
}

module _ {F : Type 0} (is_usable : F → Bool) (limits : Limits) where
  -- The store is within its limit, and holds only reports that may be stored.
  abbrev pub Inv : List (CwSpot F) → Type 0
  Inv spots = AreStored is_usable spots × (length spots ≤ limits.maximum_spots)

  stored-IsStored :
      (spot : CwSpot F) (c : Text)
      → normalize c ≡ some c
      → is_usable spot.frequency_hz ≡ true
      → IsStored is_usable (stored spot c)
  stored-IsStored spot c n u = (n, u, length-bounded_spotter spot.spotter)

  append_new-Inv :
      (spot : CwSpot F) (c : Text) (spots : List (CwSpot F))
      → normalize c ≡ some c
      → is_usable spot.frequency_hz ≡ true
      → find_report spot.source c spots ≡ none
      → Inv spots
      → Inv (append_new limits spot c spots).0
  unfolding append_new
  append_new-Inv spot c [] n u f i =
      ground
        (arith, append-AreStored is_usable (stored spot c) [] (stored-IsStored spot c n u) f tt, i)
  append_new-Inv spot c (s ∷ spots) n u f i =
      let t = oldest_ns s.observed_ns spots in
      ground (
        arith,
        append-AreStored is_usable (stored spot c) (s ∷ spots) (stored-IsStored spot c n u) f i.0,
        append-AreStored is_usable (stored spot c) (erase_first t (s ∷ spots))
            (stored-IsStored spot c n u) (erase_first-none is_usable t spot.source c (s ∷ spots) f)
            (erase_first-AreStored is_usable t (s ∷ spots) i.0),
        length-append (s ∷ spots) (stored spot c ∷ []),
        length-append (erase_first t (s ∷ spots)) (stored spot c ∷ []),
        length-erase_first is_usable s spots,
        i,
      )

  insert-Inv :
      (spot : CwSpot F) (c : Text) (spots : List (CwSpot F))
      → normalize c ≡ some c
      → is_usable spot.frequency_hz ≡ true
      → Inv spots
      → Inv (insert limits spot c spots).0
  unfolding insert
  insert-Inv spot c spots n u i = elim (Option-cases (find_report spot.source c spots)) [
    | inl e ↦ rw (insert, e) (append_new-Inv spot c spots n u e i)
    | inr (s, e) ↦
        rw (insert, e)
          (
            refresh-AreStored is_usable spot c spots u i.0,
            rw (length-refresh is_usable spot c spots) i.1,
          )
  ]

  expire-Inv : (now : ℕ) (spots : List (CwSpot F)) → Inv spots → Inv (expire limits now spots)
  expire-Inv now spots i = (
    expire-AreStored is_usable limits now spots i.0,
    omega (arith, length-expire is_usable limits now spots, i.1),
  )

  add-Inv :
      (spot : CwSpot F) (now : ℕ) (spots : List (CwSpot F))
      → Inv spots
      → Inv (add is_usable limits spot now spots).0
  unfolding add
  add-Inv spot now spots i = elim (Option-cases (normalize spot.callsign)) [
    | inl e ↦ rw (add, e) (ground (arith, i))
    | inr (c, e) ↦
        rw (add, e)
          (ground (
            arith,
            insert-Inv spot c (expire limits now spots)
                (normalize-IsNormal spot.callsign c e).fixed,
            expire-Inv now spots i,
            i,
          ))
  ]

  step-Inv :
      (c : Call F) (spots : List (CwSpot F)) → Inv spots → Inv (step is_usable limits c spots)
  unfolding step
  step-Inv (adds spot now) spots i = add-Inv spot now spots i
  step-Inv (expires now) spots i = expire-Inv now spots i
  step-Inv clears spots i = (tt, omega arith)

  run-Inv :
      (cs : List (Call F)) (spots : List (CwSpot F))
      → Inv spots
      → Inv (run is_usable limits cs spots)
  unfolding run
  run-Inv [] spots i = i
  run-Inv (c ∷ cs) spots i = run-Inv cs (step is_usable limits c spots) (step-Inv c spots i)

  -- After any sequence of calls on an empty store, with any limits: it holds at most the allowed
  -- number of reports, at most one of each station by each source, each with a callsign in normal
  -- form, a usable frequency and a spotter of at most 32 bytes.
  pub spots-Inv : (cs : List (Call F)) → Inv (run is_usable limits cs [])
  spots-Inv cs = run-Inv cs [] (tt, omega arith)
