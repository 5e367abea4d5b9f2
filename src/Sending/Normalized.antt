-- ===== src/Sending/Normalized.antt =====
-- What `normalize_message` of src/core/src/transmit_guard.cpp stages is what the encoder of
-- src/core/src/cw_transmit_encoder.cpp sends.
use cw_buddy.Base.{◌≡◌, Bool, true, false, not, List, [], ◌∷◌, ℕ, ◌≤◌, some, length, is_empty}
use cw_buddy.Text.{Text, to_upper}
use cw_buddy.Encoder.{encode}
use cw_buddy.Guard.Message.{Scan, push_token, scan_prosign, is_supported}
use cw_buddy.Sending.{Token, Item, render, IsMessage}
use cw_buddy.Sending.Timing.{plan_of}

abbrev item : Bool → Token → Item
item b t = record { word_start = b; token = t }

-- The scan's result is the written form of a message.
record Reads (s : Scan) (items : List Item) : Type 0 where
  written : s.result ≡ render items
  message : IsMessage items
  short : length s.result ≤ 512
  space_inside : s.pending_space ≡ true → is_empty s.result ≡ false

abbrev SomeReads : Scan → Type 0
SomeReads s = (items : List Item) × Reads s items

-- The five branches for a character that is not passed over.
data Branch (raw : ℕ) (rest : Text) (s s' : Scan) : Type 0 where
  space : s' ≡ record s { pending_space = not (is_empty s.result) } → Branch raw rest s s'
  bracket : scan_prosign rest s ≡ some s' → Branch raw rest s s'
  plain :
      is_supported (to_upper raw) ≡ true
      → push_token (to_upper raw ∷ []) 0 s ≡ some s'
      → Branch raw rest s s'

-- A message that is the written form of `items`, and that the encoder sends as their Morse code.
pub record IsSendable (text : Text) (items : List Item) : Type 0 where
  pub written : text ≡ render items
  pub message : IsMessage items
  pub short : length text ≤ 512
  pub encodes : (wpm : ℕ) → 5 ≤ wpm → wpm ≤ 80 → encode text wpm ≡ some (plan_of items wpm)
