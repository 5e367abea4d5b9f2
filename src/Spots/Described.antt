-- ===== src/Spots/Described.antt =====
-- What the matches of src/core/src/cw_spot_registry.cpp say of the reports of a station, and the
-- order of their list.
use cw_buddy.Base.{
  ◌≡◌, sym, refl, subst, Bool, false, ◌&&◌, ◌||◌, List, [], ◌∷◌, ◌++◌, ℕ, ◌≤◌, ◌<◌, ◌==◌, ==_iff,
  Option, none, some, leb, arith, Bool-cases, ◌⊎◌, inl, inr, All, All-append, length, length-append,
  append_assoc, append-nil, if◌then◌else◌,
}
use cw_buddy.Text.{Text, text_eq, text_eq_iff}
use cw_buddy.Spots.{CwSpotSource, CwSpot, reverse_beacon, cluster, source_eq}
use cw_buddy.Spots.Matches.{CwSpotMatch, text_less, fold_in, precedes}
use cw_buddy.Spots.Collected.{find_match, reported, summary, Distinct, one_more, Ordered, before}

-- The order of a dictionary.
pub data IsBefore : Text → Text → Type 0 where
  shorter : {c : ℕ} {t : Text} → IsBefore [] (c ∷ t)
  lower : {c d : ℕ} {t u : Text} → c < d → IsBefore (c ∷ t) (d ∷ u)
  further : {c : ℕ} {t u : Text} → IsBefore t u → IsBefore (c ∷ t) (c ∷ u)

not_less : (xs ys : Text) → text_less xs ys ≡ false → (ys ≡ xs) ⊎ IsBefore ys xs
unfolding text_less
not_less [] [] h = inl refl
not_less (c ∷ t) [] h = inr shorter
not_less [] (d ∷ u) h = absurd (cc h)
not_less (c ∷ t) (d ∷ u) h = elim (Bool-cases (c == d)) [
  | inr e ↦ inr (lower (ground (arith, h, e)))
  | inl e ↦ elim (not_less t u (ground (arith, h, e))) [
    | inl same ↦ inl (rw ((==_iff c d).0 e, same) refl)
    | inr b ↦ inr (rw ((==_iff c d).0 e) (further b))
  ]
]

module _ {F : Type 0} where
  -- The first match is listed before the second one.
  abbrev pub IsListed : CwSpotMatch F → CwSpotMatch F → Type 0
  IsListed m x =
      (x.newest_observation_ns < m.newest_observation_ns)
      ⊎ ((x.newest_observation_ns ≡ m.newest_observation_ns) × IsBefore m.callsign x.callsign)

  abbrev pub AllListed : List (CwSpotMatch F) → Type 0
  AllListed [] = Unit
  AllListed (m ∷ []) = Unit
  AllListed (m ∷ x ∷ matches) = IsListed m x × AllListed (x ∷ matches)

  by_order :
      (m x : CwSpotMatch F)
      → precedes x m ≡ false
      → (x.newest_observation_ns < m.newest_observation_ns)
        ⊎ ((x.newest_observation_ns ≡ m.newest_observation_ns)
            × (text_less x.callsign m.callsign ≡ false))
  unfolding precedes
  by_order m x h = ground (arith, h)

  other_callsign :
      (m x : CwSpotMatch F) (matches : List (CwSpotMatch F))
      → find_match m.callsign (x ∷ matches) ≡ none
      → text_eq x.callsign m.callsign ≡ false
  unfolding find_match
  other_callsign m x matches f = ground (arith, f)

  IsListed-neighbours :
      (m x : CwSpotMatch F)
      → text_eq x.callsign m.callsign ≡ false
      → precedes x m ≡ false
      → IsListed m x
  IsListed-neighbours m x d h = elim (by_order m x h) [
    | inl newer ↦ inl newer
    | inr (same, k) ↦ elim (not_less x.callsign m.callsign k) [
      | inl e ↦ absurd (cc (d, (text_eq_iff x.callsign m.callsign).1 (sym e)))
      | inr b ↦ inr (same, b)
    ]
  ]

  pub Ordered-AllListed :
      (matches : List (CwSpotMatch F)) → Ordered matches → Distinct matches → AllListed matches
  Ordered-AllListed [] o d = tt
  Ordered-AllListed (m ∷ []) o d = tt
  Ordered-AllListed (m ∷ x ∷ matches) (before h o) (one_more f d) = (
    IsListed-neighbours m x (other_callsign m x matches f) h,
    Ordered-AllListed (x ∷ matches) o d,
  )

  -- The accepted reports of a station.
  unfoldable pub reports_of : (CwSpot F → Bool) → Text → List (CwSpot F) → List (CwSpot F)
  reports_of accepted callsign [] = []
  reports_of accepted callsign (s ∷ spots) =
      if accepted s && text_eq s.callsign callsign
      then s ∷ reports_of accepted callsign spots
      else reports_of accepted callsign spots

  -- Is a report by this source?
  abbrev pub any_from : CwSpotSource → List (CwSpot F) → Bool
  any_from source [] = false
  any_from source (r ∷ reports) = source_eq r.source source || any_from source reports

  -- The last of the newest reports has this time and frequency.
  abbrev pub Latest : List (CwSpot F) → ℕ → F → Type 0
  Latest reports t hz =
      (front : List (CwSpot F)) × (r : CwSpot F) × (back : List (CwSpot F)) × (reports
        ≡ front ++ r ∷ back)
      × (r.observed_ns ≡ t)
      × (r.frequency_hz ≡ hz)
      × All (λ s. s.observed_ns ≤ t) front
      × All (λ s. s.observed_ns < t) back

  -- A match that sums up reports.
  pub record IsMatchOf (reports : List (CwSpot F)) (m : CwSpotMatch F) : Type 0 where
    pub observations : m.observations ≡ length reports
    pub by_reverse_beacon : m.reverse_beacon ≡ any_from reverse_beacon reports
    pub by_cluster : m.cluster ≡ any_from cluster reports
    pub latest : Latest reports m.newest_observation_ns m.frequency_hz

  abbrev pub Describes : List (CwSpot F) → Option (CwSpotMatch F) → Type 0
  Describes reports none = reports ≡ []
  Describes reports (some m) = IsMatchOf reports m

  any_from-append :
      (source : CwSpotSource) (xs : List (CwSpot F)) (r : CwSpot F)
      → any_from source (xs ++ r ∷ []) ≡ (any_from source xs || source_eq r.source source)
  any_from-append source [] r = ground arith
  any_from-append source (x ∷ xs) r = ground (arith, any_from-append source xs r)

  not_newer :
      (t u : ℕ) (reports : List (CwSpot F))
      → t ≤ u
      → All (λ s. s.observed_ns ≤ t) reports
      → All (λ s. s.observed_ns ≤ u) reports
  not_newer t u [] h a = tt
  not_newer t u (s ∷ reports) h (now, later) =
      (omega (arith, now, h), not_newer t u reports h later)

  All-older :
      (t : ℕ) (reports : List (CwSpot F))
      → All (λ s. s.observed_ns < t) reports
      → All (λ s. s.observed_ns ≤ t) reports
  All-older t [] a = tt
  All-older t (s ∷ reports) (now, later) = (omega (arith, now), All-older t reports later)

  -- A report that is not older than the newest ones takes their place.
  Latest-newer :
      (reports : List (CwSpot F)) (t : ℕ) (hz : F) (r : CwSpot F)
      → t ≤ r.observed_ns
      → Latest reports t hz
      → Latest (reports ++ r ∷ []) r.observed_ns r.frequency_hz
  Latest-newer reports t hz r h (front, s, back, e, is, at, f, b) = (
    reports,
    r,
    [],
    refl,
    refl,
    refl,
    rw e (
        All-append (λ x. x.observed_ns ≤ r.observed_ns) front (s ∷ back)
          (not_newer t r.observed_ns front h f)
          (omega (arith, is, h), not_newer t r.observed_ns back h (All-older t back b))),
    tt,
  )

  Latest-older :
      (reports : List (CwSpot F)) (t : ℕ) (hz : F) (r : CwSpot F)
      → r.observed_ns < t
      → Latest reports t hz
      → Latest (reports ++ r ∷ []) t hz
  Latest-older reports t hz r h (front, s, back, e, is, at, f, b) = (
    front,
    s,
    back ++ r ∷ [],
    rw e (append_assoc front (s ∷ back) (r ∷ [])),
    is,
    at,
    f,
    All-append (λ x. x.observed_ns < t) back (r ∷ []) b (h, tt),
  )

  folded-Latest :
      (reports : List (CwSpot F)) (m : CwSpotMatch F) (r : CwSpot F)
      → Latest reports m.newest_observation_ns m.frequency_hz
      → Latest (reports ++ r ∷ []) (fold_in r m).newest_observation_ns (fold_in r m).frequency_hz
  unfolding fold_in
  folded-Latest reports m r l = elim (Bool-cases (leb m.newest_observation_ns r.observed_ns)) [
    | inl e ↦ rw e (Latest-newer reports _ _ r (ground (arith, e)) l)
    | inr e ↦ rw e (Latest-older reports _ _ r (ground (arith, e)) l)
  ]

  -- One more report of the station.
  Describes-reported :
      (reports : List (CwSpot F)) (r : CwSpot F) (known : Option (CwSpotMatch F))
      → Describes reports known
      → Describes (reports ++ r ∷ []) (some (reported r known))
  unfolding reported
  Describes-reported reports r none h = rw h (record {
    observations = refl;
    by_reverse_beacon = ground arith;
    by_cluster = ground arith;
    latest = ([], r, [], refl, refl, refl, tt, tt);
  })
  Describes-reported reports r (some m) h = record {
    observations = unfold fold_in in omega (arith, h.observations, length-append reports (r ∷ []));
    by_reverse_beacon =
        unfold fold_in in
        ground (arith, h.by_reverse_beacon, any_from-append reverse_beacon reports r);
    by_cluster = unfold fold_in in ground (arith, h.by_cluster, any_from-append cluster reports r);
    latest = folded-Latest reports m r h.latest;
  }

  pub Describes-summary :
      (accepted : CwSpot F → Bool) (callsign : Text) (spots reports : List (CwSpot F))
      (known : Option (CwSpotMatch F))
      → Describes reports known
      → Describes
          (reports ++ reports_of accepted callsign spots)
          (summary accepted callsign spots known)
  unfolding reports_of summary
  Describes-summary accepted callsign [] reports known h = rw (append-nil reports) h
  Describes-summary accepted callsign (s ∷ spots) reports known h =
      elim (Bool-cases (accepted s && text_eq s.callsign callsign)) [
        | inr e ↦ rw e (Describes-summary accepted callsign spots reports known h)
        | inl e ↦ rw e (
            subst (λ rs. Describes rs (summary accepted callsign spots (some (reported s known))))
              (append_assoc reports (s ∷ []) (reports_of accepted callsign spots))
              (Describes-summary accepted callsign spots (reports ++ s ∷ [])
                (some (reported s known)) (Describes-reported reports s known h)))
      ]
