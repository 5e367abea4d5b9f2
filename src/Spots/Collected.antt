-- ===== src/Spots/Collected.antt =====
-- The matches of src/core/src/cw_spot_registry.cpp, station by station.
use cw_buddy.Base.{
  ◌≡◌, ◌∙◌, sym, refl, Bool, true, false, ◌&&◌, List, [], ◌∷◌, Option, none, some, arith,
  if◌then◌else◌, Bool-cases, if_both, inl, inr,
}
use cw_buddy.Text.{Text, text_eq, text_eq_refl, text_eq_iff}
use cw_buddy.Spots.{CwSpot}
use cw_buddy.Spots.Matches.{
  CwSpotMatch, text_less, new_match, fold_in, absorb, collect_loop, precedes, insert_match,
  sort_matches,
}

text_eq_left : (a b c : Text) → text_eq a b ≡ true → text_eq a c ≡ text_eq b c
text_eq_left a b c h = rw ((text_eq_iff a b).0 h) refl

text_eq_both : (a b c : Text) → text_eq a c ≡ true → text_eq b c ≡ true → text_eq a b ≡ true
text_eq_both a b c h k = (text_eq_iff a b).1 ((text_eq_iff a c).0 h ∙ sym ((text_eq_iff b c).0 k))

text_less_asym : (xs ys : Text) → text_less xs ys ≡ true → text_less ys xs ≡ false
unfolding text_less
text_less_asym xs [] h = absurd (ground (arith, h))
text_less_asym [] (c ∷ t) h = refl
text_less_asym (c ∷ t) (d ∷ u) h = ground (arith, h, text_less_asym t u)

module _ {F : Type 0} where
  -- The match of a station.
  unfoldable pub find_match : Text → List (CwSpotMatch F) → Option (CwSpotMatch F)
  find_match callsign [] = none
  find_match callsign (m ∷ matches) =
      if text_eq m.callsign callsign then some m else find_match callsign matches

  -- What is known of a station after one more report of it.
  unfoldable pub reported : CwSpot F → Option (CwSpotMatch F) → CwSpotMatch F
  reported spot none = new_match spot
  reported spot (some m) = fold_in spot m

  -- The reports of one station alone, folded in the order of the store.
  unfoldable pub summary :
      (CwSpot F → Bool) → Text → List (CwSpot F) → Option (CwSpotMatch F) → Option (CwSpotMatch F)
  summary accepted callsign [] known = known
  summary accepted callsign (spot ∷ spots) known = summary accepted callsign spots (
      if accepted spot && text_eq spot.callsign callsign then some (reported spot known) else known)

  fold_in_callsign :
      (spot : CwSpot F) (m : CwSpotMatch F) (callsign : Text)
      → text_eq (fold_in spot m).callsign callsign ≡ text_eq m.callsign callsign
  unfolding fold_in
  fold_in_callsign spot m callsign = refl

  find_match-absorb :
      (spot : CwSpot F) (callsign : Text) (matches : List (CwSpotMatch F))
      → find_match callsign (absorb spot matches) ≡ (
          if text_eq spot.callsign callsign
          then some (reported spot (find_match callsign matches))
          else find_match callsign matches)
  unfolding absorb find_match reported
  find_match-absorb spot callsign [] = ground arith
  find_match-absorb spot callsign (m ∷ matches) = ground (
    arith,
    find_match-absorb spot callsign matches,
    text_eq_left m.callsign spot.callsign callsign,
    text_eq_both m.callsign spot.callsign callsign,
    fold_in_callsign spot m callsign,
  )

  pub find_match-collect_loop :
      (accepted : CwSpot F → Bool) (callsign : Text) (spots : List (CwSpot F))
      (matches : List (CwSpotMatch F))
      → find_match callsign (collect_loop accepted spots matches)
        ≡ summary accepted callsign spots (find_match callsign matches)
  unfolding collect_loop summary
  find_match-collect_loop accepted callsign [] matches = refl
  find_match-collect_loop accepted callsign (spot ∷ spots) matches =
      elim (Bool-cases (accepted spot)) [
        | inl a ↦ rw (a) (
            find_match-collect_loop accepted callsign spots (absorb spot matches)
            ∙ rw (find_match-absorb spot callsign matches) refl)
        | inr a ↦ rw (a) (find_match-collect_loop accepted callsign spots matches)
      ]

  -- One match for each station.
  pub data Distinct : List (CwSpotMatch F) → Type 0 where
    no_match : Distinct []
    one_more :
        {m : CwSpotMatch F} {matches : List (CwSpotMatch F)}
        → find_match m.callsign matches ≡ none
        → Distinct matches
        → Distinct (m ∷ matches)

  -- The callsign of the first match is no other's, one more report of a station that is not its.
  none-absorb :
      (spot : CwSpot F) (m : CwSpotMatch F) (matches : List (CwSpotMatch F))
      → text_eq m.callsign spot.callsign ≡ false
      → find_match m.callsign matches ≡ none
      → find_match m.callsign (absorb spot matches) ≡ none
  none-absorb spot m matches e f = ground (
    arith,
    e,
    f,
    find_match-absorb spot m.callsign matches,
    text_eq_both m.callsign spot.callsign m.callsign (text_eq_refl m.callsign),
  )

  Distinct-fold_in :
      (spot : CwSpot F) (m : CwSpotMatch F) (matches : List (CwSpotMatch F))
      → find_match m.callsign matches ≡ none
      → Distinct matches
      → Distinct (fold_in spot m ∷ matches)
  unfolding fold_in
  Distinct-fold_in spot m matches f d = one_more f d

  Distinct-absorb :
      (spot : CwSpot F) (matches : List (CwSpotMatch F))
      → Distinct matches
      → Distinct (absorb spot matches)
  unfolding absorb find_match
  Distinct-absorb spot [] d = one_more refl no_match
  Distinct-absorb spot (m ∷ matches) (one_more f d) =
      elim (Bool-cases (text_eq m.callsign spot.callsign))
        as (λ x. Distinct (absorb spot (m ∷ matches))) [
          | inl e ↦ rw (e) (Distinct-fold_in spot m matches f d)
          | inr e ↦
              rw (e) (one_more (none-absorb spot m matches e f) (Distinct-absorb spot matches d))
        ]

  pub Distinct-collect_loop :
      (accepted : CwSpot F → Bool) (spots : List (CwSpot F)) (matches : List (CwSpotMatch F))
      → Distinct matches
      → Distinct (collect_loop accepted spots matches)
  unfolding collect_loop
  Distinct-collect_loop accepted [] matches d = d
  Distinct-collect_loop accepted (spot ∷ spots) matches d =
      Distinct-collect_loop accepted spots (if accepted spot then absorb spot matches else matches)
        (if_both Distinct (accepted spot) (absorb spot matches) matches
          (Distinct-absorb spot matches d) d)

  find_match-insert_match :
      (callsign : Text) (m : CwSpotMatch F) (matches : List (CwSpotMatch F))
      → find_match m.callsign matches ≡ none
      → find_match callsign (insert_match m matches) ≡ find_match callsign (m ∷ matches)
  unfolding insert_match find_match
  find_match-insert_match callsign m [] f = refl
  find_match-insert_match callsign m (x ∷ matches) f = ground (
    arith,
    f,
    find_match-insert_match callsign m matches,
    text_eq_both x.callsign m.callsign callsign,
  )

  pub find_match-sort_matches :
      (callsign : Text) (matches : List (CwSpotMatch F))
      → Distinct matches
      → find_match callsign (sort_matches matches) ≡ find_match callsign matches
  unfolding sort_matches find_match
  find_match-sort_matches callsign [] d = refl
  find_match-sort_matches callsign (m ∷ matches) (one_more f d) =
      find_match-insert_match callsign m (sort_matches matches)
        (find_match-sort_matches m.callsign matches d ∙ f)
      ∙ rw (find_match-sort_matches callsign matches d) refl

  none-insert_match :
      (m x : CwSpotMatch F) (matches : List (CwSpotMatch F))
      → find_match m.callsign (x ∷ matches) ≡ none
      → find_match x.callsign matches ≡ none
      → find_match x.callsign (insert_match m matches) ≡ none
  unfolding find_match
  none-insert_match m x matches f g = ground (
    arith,
    f,
    g,
    find_match-insert_match x.callsign m matches,
    text_eq_both x.callsign m.callsign x.callsign (text_eq_refl x.callsign),
  )

  found_behind :
      (m x : CwSpotMatch F) (matches : List (CwSpotMatch F))
      → find_match m.callsign (x ∷ matches) ≡ none
      → find_match m.callsign matches ≡ none
  unfolding find_match
  found_behind m x matches f = ground (arith, f)

  Distinct-insert_match :
      (m : CwSpotMatch F) (matches : List (CwSpotMatch F))
      → find_match m.callsign matches ≡ none
      → Distinct matches
      → Distinct (insert_match m matches)
  unfolding insert_match
  Distinct-insert_match m [] f d = one_more f d
  Distinct-insert_match m (x ∷ matches) f (one_more g d) =
      if_both Distinct (precedes x m) (x ∷ insert_match m matches) (m ∷ x ∷ matches)
        (one_more (none-insert_match m x matches f g)
          (Distinct-insert_match m matches (found_behind m x matches f) d))
        (one_more f (one_more g d))

  pub Distinct-sort_matches :
      (matches : List (CwSpotMatch F)) → Distinct matches → Distinct (sort_matches matches)
  unfolding sort_matches
  Distinct-sort_matches [] d = d
  Distinct-sort_matches (m ∷ matches) (one_more f d) =
      Distinct-insert_match m (sort_matches matches)
        (find_match-sort_matches m.callsign matches d ∙ f) (Distinct-sort_matches matches d)

  -- Neighbours are in the order of the sort.
  pub data Ordered : List (CwSpotMatch F) → Type 0 where
    no_order : Ordered []
    alone : {m : CwSpotMatch F} → Ordered (m ∷ [])
    before :
        {m x : CwSpotMatch F} {matches : List (CwSpotMatch F)}
        → precedes x m ≡ false
        → Ordered (x ∷ matches)
        → Ordered (m ∷ x ∷ matches)

  precedes_asym : (x m : CwSpotMatch F) → precedes x m ≡ true → precedes m x ≡ false
  unfolding precedes
  precedes_asym x m h = ground (arith, h, text_less_asym x.callsign m.callsign)

  Ordered-behind :
      (m x : CwSpotMatch F) (matches : List (CwSpotMatch F))
      → precedes x m ≡ true
      → Ordered (x ∷ matches)
      → Ordered (x ∷ insert_match m matches)
  unfolding insert_match
  Ordered-behind m x [] h o = before (precedes_asym x m h) alone
  Ordered-behind m x (y ∷ matches) h (before k o) =
      elim (Bool-cases (precedes y m)) as (λ z. Ordered (x ∷ insert_match m (y ∷ matches))) [
        | inl e ↦ rw (e) (before k (Ordered-behind m y matches e o))
        | inr e ↦ rw (e) (before (precedes_asym x m h) (before e o))
      ]

  Ordered-insert_match :
      (m : CwSpotMatch F) (matches : List (CwSpotMatch F))
      → Ordered matches
      → Ordered (insert_match m matches)
  unfolding insert_match
  Ordered-insert_match m [] o = alone
  Ordered-insert_match m (x ∷ matches) o =
      elim (Bool-cases (precedes x m)) as (λ z. Ordered (insert_match m (x ∷ matches))) [
        | inl e ↦ rw (e) (Ordered-behind m x matches e o)
        | inr e ↦ rw (e) (before e o)
      ]

  pub Ordered-sort_matches : (matches : List (CwSpotMatch F)) → Ordered (sort_matches matches)
  unfolding sort_matches
  Ordered-sort_matches [] = no_order
  Ordered-sort_matches (m ∷ matches) =
      Ordered-insert_match m (sort_matches matches) (Ordered-sort_matches matches)
