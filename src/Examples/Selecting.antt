-- ===== src/Examples/Selecting.antt =====
-- Three detected channels, as in src/core/src/channel_scheduler.cpp, with strengths in whole
-- decibels.
use cw_buddy.Base.{◌≡◌, refl, Bool, true, false, List, [], ◌∷◌, ℕ, ltb, arith}
use cw_buddy.Channels.{
  DetectedChannel, user_selected_first, strongest_signal, ahead, insert_channel, order_channels,
  first_ids, select,
}
use cw_buddy.Channels.Selected.{IsWeakOrder, IsSelection, select-IsSelection}

abbrev louder : ℕ → ℕ → Bool
louder a b = ltb b a

louder-IsWeakOrder : IsWeakOrder louder
louder-IsWeakOrder = record {
  asym = λ a b h. ground (arith, h);
  between = λ a b c h k. ground (arith, h, k);
}

abbrev channel : ℕ → ℕ → ℕ → Bool → DetectedChannel ℕ
channel id snr arrival user = record {
  id = id;
  snr_db = snr;
  arrival_sequence = arrival;
  user_selected = user;
}

abbrev detected : List (DetectedChannel ℕ)
detected = channel 7 12 1 false ∷ channel 8 25 2 false ∷ channel 9 5 3 true ∷ []

users_choice : select louder detected 2 user_selected_first ≡ 9 ∷ 7 ∷ []
unfolding select first_ids order_channels insert_channel ahead
users_choice = refl

loudest : select louder detected 2 strongest_signal ≡ 8 ∷ 7 ∷ []
unfolding select first_ids order_channels insert_channel ahead
loudest = refl

select-IsSelection_example :
    (chosen : List (DetectedChannel ℕ)) × (rest : List (DetectedChannel ℕ)) × IsSelection louder
      louder-IsWeakOrder user_selected_first detected 2
      (select louder detected 2 user_selected_first)
      chosen
      rest
select-IsSelection_example =
    select-IsSelection louder louder-IsWeakOrder detected 2 user_selected_first
