-- ===== src/Channels.antt =====
-- src/core/src/channel_scheduler.cpp and its header: which detected channels are decoded. The
-- stable sort of the standard library is an insertion sort; the comparison of two signal strengths
-- is the parameter `stronger`.
pub mod Selected
use cw_buddy.Base.{
  Bool, true, false, ◌&&◌, ◌||◌, not, List, [], ◌∷◌, ℕ, zero, suc, map, min, ltb, if◌then◌else◌,
  length,
}

pub data ChannelSelectionPolicy : Type 0 where
  strongest_signal arrival_queue user_selected_first : ChannelSelectionPolicy

-- A channel; its offset is not read.
pub record DetectedChannel (S : Type 0) : Type 0 where
  pub id : ℕ
  pub snr_db : S
  pub arrival_sequence : ℕ
  pub user_selected : Bool

abbrev pub is_queue : ChannelSelectionPolicy → Bool
is_queue strongest_signal = false
is_queue arrival_queue = true
is_queue user_selected_first = true

abbrev pub is_user_first : ChannelSelectionPolicy → Bool
is_user_first strongest_signal = false
is_user_first arrival_queue = false
is_user_first user_selected_first = true

abbrev pub same : Bool → Bool → Bool
same true b = b
same false b = not b

module _ {S : Type 0} (stronger : S → S → Bool) where
  -- The comparison of the sort.
  unfoldable pub ahead : ChannelSelectionPolicy → DetectedChannel S → DetectedChannel S → Bool
  ahead policy left right =
      if is_user_first policy && not (same left.user_selected right.user_selected)
      then left.user_selected
      else if is_queue policy
      then ltb left.arrival_sequence right.arrival_sequence
      else stronger left.snr_db right.snr_db

  -- A channel is put before the first one that it is not behind.
  unfoldable pub insert_channel :
      ChannelSelectionPolicy
      → DetectedChannel S
      → List (DetectedChannel S)
      → List (DetectedChannel S)
  insert_channel policy c [] = c ∷ []
  insert_channel policy c (x ∷ ordered) =
      if ahead policy x c then x ∷ insert_channel policy c ordered else c ∷ x ∷ ordered

  unfoldable pub order_channels :
      ChannelSelectionPolicy → List (DetectedChannel S) → List (DetectedChannel S)
  order_channels policy [] = []
  order_channels policy (c ∷ candidates) =
      insert_channel policy c (order_channels policy candidates)

  -- The loop that collects the ids.
  unfoldable pub first_ids : ℕ → List (DetectedChannel S) → List ℕ
  first_ids zero ordered = []
  first_ids (suc count) [] = []
  first_ids (suc count) (c ∷ ordered) = c.id ∷ first_ids count ordered

  unfoldable pub select : List (DetectedChannel S) → ℕ → ChannelSelectionPolicy → List ℕ
  select candidates maximum_channels policy =
      first_ids (min maximum_channels (length candidates)) (order_channels policy candidates)
