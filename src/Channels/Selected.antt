-- ===== src/Channels/Selected.antt =====
-- Which channels src/core/src/channel_scheduler.cpp selects.
use mathlib.Core.List.{Permᴰ}
use cw_buddy.Base.{
  ◌≡◌, ap, refl, subst, Bool, true, false, List, [], ◌∷◌, ◌++◌, ℕ, zero, suc, map, min, length,
  arith, All, ◌<◌, ◌⊎◌, inl, inr, Bool-cases, if_both,
}
use cw_buddy.Channels.{
  ChannelSelectionPolicy, strongest_signal, arrival_queue, user_selected_first, DetectedChannel,
  ahead, insert_channel, order_channels, first_ids, select,
}

-- A strict order of strengths: not both ways, and anything is behind the stronger of two or ahead
-- of the weaker one.
pub record IsWeakOrder {S : Type 0} (stronger : S → S → Bool) : Type 0 where
  pub asym : (a b : S) → stronger a b ≡ true → stronger b a ≡ false
  pub between : (a b c : S) → stronger a b ≡ false → stronger b c ≡ false → stronger a c ≡ false

module _ {S : Type 0} (stronger : S → S → Bool) (weak : IsWeakOrder stronger) where
  ahead_asym :
      (policy : ChannelSelectionPolicy) (a b : DetectedChannel S)
      → ahead stronger policy a b ≡ true
      → ahead stronger policy b a ≡ false
  unfolding ahead
  ahead_asym strongest_signal a b h = ground (arith, h, weak.asym a.snr_db b.snr_db)
  ahead_asym arrival_queue a b h = ground (arith, h)
  ahead_asym user_selected_first a b h = ground (arith, h)

  ahead_between :
      (policy : ChannelSelectionPolicy) (a b c : DetectedChannel S)
      → ahead stronger policy a b ≡ false
      → ahead stronger policy b c ≡ false
      → ahead stronger policy a c ≡ false
  unfolding ahead
  ahead_between strongest_signal a b c h k =
      ground (arith, h, k, weak.between a.snr_db b.snr_db c.snr_db)
  ahead_between arrival_queue a b c h k = ground (arith, h, k)
  ahead_between user_selected_first a b c h k = ground (arith, h, k)

  -- None of the channels is ahead of this one.
  abbrev pub Leads : ChannelSelectionPolicy → DetectedChannel S → List (DetectedChannel S) → Type 0
  Leads policy c others = All (λ x. ahead stronger policy x c ≡ false) others

  pub data Ranked (policy : ChannelSelectionPolicy) : List (DetectedChannel S) → Type 0 where
    no_rank : Ranked policy []
    leads :
        {c : DetectedChannel S} {others : List (DetectedChannel S)}
        → Leads policy c others
        → Ranked policy others
        → Ranked policy (c ∷ others)

  Leads-behind :
      (policy : ChannelSelectionPolicy) (c x : DetectedChannel S)
      (others : List (DetectedChannel S))
      → ahead stronger policy x c ≡ false
      → Leads policy x others
      → Leads policy c others
  Leads-behind policy c x [] h l = tt
  Leads-behind policy c x (y ∷ others) h (now, later) =
      (ahead_between policy y x c now h, Leads-behind policy c x others h later)

  Leads-insert_channel :
      (policy : ChannelSelectionPolicy) (c x : DetectedChannel S)
      (others : List (DetectedChannel S))
      → ahead stronger policy c x ≡ false
      → Leads policy x others
      → Leads policy x (insert_channel stronger policy c others)
  unfolding insert_channel
  Leads-insert_channel policy c x [] h l = (h, tt)
  Leads-insert_channel policy c x (y ∷ others) h (now, later) =
      if_both (Leads policy x) (ahead stronger policy y c)
        (y ∷ insert_channel stronger policy c others) (c ∷ y ∷ others)
        (now, Leads-insert_channel policy c x others h later) (h, (now, later))

  Ranked-insert_channel :
      (policy : ChannelSelectionPolicy) (c : DetectedChannel S) (others : List (DetectedChannel S))
      → Ranked policy others
      → Ranked policy (insert_channel stronger policy c others)
  unfolding insert_channel
  Ranked-insert_channel policy c [] r = leads tt no_rank
  Ranked-insert_channel policy c (x ∷ others) (leads l r) =
      elim (Bool-cases (ahead stronger policy x c))
        as (λ z. Ranked policy (insert_channel stronger policy c (x ∷ others))) [
          | inl e ↦ rw (e) (
              leads (Leads-insert_channel policy c x others (ahead_asym policy x c e) l)
                (Ranked-insert_channel policy c others r))
          | inr e ↦ rw (e) (leads (e, Leads-behind policy c x others e l) (leads l r))
        ]

  Ranked-order_channels :
      (policy : ChannelSelectionPolicy) (candidates : List (DetectedChannel S))
      → Ranked policy (order_channels stronger policy candidates)
  unfolding order_channels
  Ranked-order_channels policy [] = no_rank
  Ranked-order_channels policy (c ∷ candidates) =
      Ranked-insert_channel policy c (order_channels stronger policy candidates)
        (Ranked-order_channels policy candidates)

  Perm-self : (candidates : List (DetectedChannel S)) → Permᴰ candidates candidates
  Perm-self [] = Permᴰ.nil
  Perm-self (c ∷ candidates) = Permᴰ.cons refl (Perm-self candidates)

  Perm-insert_channel :
      (policy : ChannelSelectionPolicy) (c : DetectedChannel S) (others : List (DetectedChannel S))
      → Permᴰ (c ∷ others) (insert_channel stronger policy c others)
  unfolding insert_channel
  Perm-insert_channel policy c [] = Perm-self (c ∷ [])
  Perm-insert_channel policy c (x ∷ others) =
      if_both (Permᴰ (c ∷ x ∷ others)) (ahead stronger policy x c)
        (x ∷ insert_channel stronger policy c others) (c ∷ x ∷ others)
        (Permᴰ.trans (Permᴰ.swap refl refl) (Permᴰ.cons refl (Perm-insert_channel policy c others)))
        (Perm-self (c ∷ x ∷ others))

  Perm-order_channels :
      (policy : ChannelSelectionPolicy) (candidates : List (DetectedChannel S))
      → Permᴰ candidates (order_channels stronger policy candidates)
  unfolding order_channels
  Perm-order_channels policy [] = Permᴰ.nil
  Perm-order_channels policy (c ∷ candidates) =
      Permᴰ.trans (Permᴰ.cons refl (Perm-order_channels policy candidates))
        (Perm-insert_channel policy c (order_channels stronger policy candidates))

  length-insert_channel :
      (policy : ChannelSelectionPolicy) (c : DetectedChannel S) (others : List (DetectedChannel S))
      → length (insert_channel stronger policy c others) ≡ length (c ∷ others)
  unfolding insert_channel
  length-insert_channel policy c [] = refl
  length-insert_channel policy c (x ∷ others) =
      ground (arith, length-insert_channel policy c others)

  length-order_channels :
      (policy : ChannelSelectionPolicy) (candidates : List (DetectedChannel S))
      → length (order_channels stronger policy candidates) ≡ length candidates
  unfolding order_channels
  length-order_channels policy [] = refl
  length-order_channels policy (c ∷ candidates) = omega (
    arith,
    length-insert_channel policy c (order_channels stronger policy candidates),
    length-order_channels policy candidates,
  )

  -- The channels chosen and those left out, of channels in their order.
  pub record IsSplit (count : ℕ) (ordered chosen rest : List (DetectedChannel S)) : Type 0 where
    pub whole : ordered ≡ chosen ++ rest
    pub ids : first_ids stronger count ordered ≡ map (λ c. c.id) chosen
    pub enough : length chosen ≡ min count (length ordered)

  IsSplit-first :
      (count : ℕ) (ordered : List (DetectedChannel S))
      → (chosen : List (DetectedChannel S)) × (rest : List (DetectedChannel S)) × IsSplit count
          ordered chosen rest
  unfolding first_ids
  IsSplit-first zero ordered =
      ([], ordered, record { whole = refl; ids = refl; enough = omega arith })
  IsSplit-first (suc count) [] = ([], [], record { whole = refl; ids = refl; enough = omega arith })
  IsSplit-first (suc count) (c ∷ ordered) =
      let (chosen, rest, split) = IsSplit-first count ordered in
      (
        c ∷ chosen,
        rest,
        record {
          whole = ap (λ t. c ∷ t) split.whole;
          ids = ap (λ t. c.id ∷ t) split.ids;
          enough = omega (arith, split.enough);
        },
      )

  -- A channel comes before another one: by the strengths; by the order of arrival; with the
  -- channels that the user selected first, and each kind by the order of arrival.
  abbrev pub Precedes : ChannelSelectionPolicy → DetectedChannel S → DetectedChannel S → Type 0
  Precedes strongest_signal a b = stronger a.snr_db b.snr_db ≡ true
  Precedes arrival_queue a b = a.arrival_sequence < b.arrival_sequence
  Precedes user_selected_first a b =
      ((a.user_selected ≡ true) × (b.user_selected ≡ false))
      ⊎ ((a.user_selected ≡ b.user_selected) × (a.arrival_sequence < b.arrival_sequence))

  not_ahead :
      (policy : ChannelSelectionPolicy) (a b : DetectedChannel S)
      → ahead stronger policy a b ≡ false
      → ¬ Precedes policy a b
  unfolding ahead
  not_ahead strongest_signal a b h p = ground (arith, h, p)
  not_ahead arrival_queue a b h p = ground (arith, h, p)
  not_ahead user_selected_first a b h p = ground (arith, h, p)

  -- None of the channels comes before this one.
  abbrev pub IsFirst :
      ChannelSelectionPolicy → DetectedChannel S → List (DetectedChannel S) → Type 0
  IsFirst policy c others = All (λ x. ¬ Precedes policy x c) others

  Leads-IsFirst :
      (policy : ChannelSelectionPolicy) (c : DetectedChannel S) (others : List (DetectedChannel S))
      → Leads policy c others
      → IsFirst policy c others
  Leads-IsFirst policy c [] l = tt
  Leads-IsFirst policy c (x ∷ others) (now, later) =
      (not_ahead policy x c now, Leads-IsFirst policy c others later)

  -- No channel comes before one that stands in front of it.
  abbrev pub InOrder : ChannelSelectionPolicy → List (DetectedChannel S) → Type 0
  InOrder policy [] = Unit
  InOrder policy (c ∷ others) = IsFirst policy c others × InOrder policy others

  Ranked-InOrder :
      (policy : ChannelSelectionPolicy) (ordered : List (DetectedChannel S))
      → Ranked policy ordered
      → InOrder policy ordered
  Ranked-InOrder policy [] r = tt
  Ranked-InOrder policy (c ∷ ordered) (leads l r) =
      (Leads-IsFirst policy c ordered l, Ranked-InOrder policy ordered r)

  -- What a selection of channels leaves: the candidates are the channels chosen and those left out,
  -- as many as the maximum are chosen where there are so many, and the ids are those of the channels
  -- chosen. No channel comes before one in front of it, those left out behind those chosen.
  pub record IsSelection (policy : ChannelSelectionPolicy) (candidates : List (DetectedChannel S))
      (maximum : ℕ) (selected : List ℕ) (chosen rest : List (DetectedChannel S)) : Type 0 where
    pub candidates_split : Permᴰ candidates (chosen ++ rest)
    pub enough : length chosen ≡ min maximum (length candidates)
    pub ids : selected ≡ map (λ c. c.id) chosen
    pub in_order : InOrder policy (chosen ++ rest)

  -- Where the comparison of strengths is a strict order, the ids selected are those of as many
  -- candidates as the maximum allows. In the list of these candidates with those left out behind
  -- them, none comes before one in front of it: a stronger one, for the strongest signal; one that
  -- arrived earlier, for the arrival queue; one that the user selected before one that the user did
  -- not select, and of two that agree in this the one that arrived earlier, for the user's choice.
  pub select-IsSelection :
      (candidates : List (DetectedChannel S)) (maximum : ℕ) (policy : ChannelSelectionPolicy)
      → (chosen : List (DetectedChannel S)) × (rest : List (DetectedChannel S)) × IsSelection policy
          candidates maximum
          (select stronger candidates maximum policy)
          chosen
          rest
  unfolding select
  select-IsSelection candidates maximum policy =
      let ordered = order_channels stronger policy candidates in
      let (chosen, rest, split) = IsSplit-first (min maximum (length candidates)) ordered in
      (
        chosen,
        rest,
        record {
          candidates_split =
              subst (Permᴰ candidates) split.whole (Perm-order_channels policy candidates);
          enough = omega (arith, split.enough, length-order_channels policy candidates);
          ids = split.ids;
          in_order =
              subst (InOrder policy) split.whole
                (Ranked-InOrder policy ordered (Ranked-order_channels policy candidates));
        },
      )
