-- ===== src/Sending.antt =====
-- From the operator's text to the key line: what `normalize_message` of
-- src/core/src/transmit_guard.cpp, `encode` of src/core/src/cw_transmit_encoder.cpp and
-- src/core/src/cw_transmit_scheduler.cpp do together. This file has messages as
-- lists of characters and prosigns, how they are written, and their spans by the elements of the
-- encoder's tables.
pub mod Tokens
pub mod Encoded
pub mod Timing
pub mod Normalized
pub mod Reference
use cw_buddy.Base.{
  ◌≡◌, Bool, true, false, ◌&&◌, not, List, [], ◌∷◌, ◌++◌, ℕ, ◌≤◌, if◌then◌else◌, is_empty, All, map,
  ◌⊎◌,
}
use cw_buddy.Text.{Text}
use cw_buddy.Morse.{elements_for, prosign_elements, is_transmittable_prosign}
use cw_buddy.Encoder.{Span, span}
use cw_buddy.Encoder.Spans.{element_spans}
use cw_buddy.Guard.Message.{is_supported}

pub data Token : Type 0 where
  character : ℕ → Token
  prosign : Text → Token

pub record Item : Type 0 where
  pub word_start : Bool
  pub token : Token

abbrev pub token_text : Token → Text
token_text (character c) = c ∷ []
token_text (prosign name) = b'<' ∷ (name ++ b'>' ∷ [])

abbrev pub token_elements : Token → Text
token_elements (character c) = elements_for c
token_elements (prosign name) = prosign_elements name

abbrev pub item_text : Item → Text
item_text i = if i.word_start then 32 ∷ token_text i.token else token_text i.token

-- How a message is written.
abbrev pub render : List Item → Text
render [] = []
render (i ∷ items) = item_text i ++ render items

-- The gap before the next character: seven units between words, three within one.
abbrev pub gap_before : Item → Span
gap_before i = span false (if i.word_start then 7 else 3)

-- The spans of a message: those of its characters, with the gaps between them.
abbrev pub message_spans : List Item → List Span
message_spans [] = []
message_spans (i ∷ []) = element_spans (token_elements i.token)
message_spans (i ∷ j ∷ items) =
    element_spans (token_elements i.token) ++ (gap_before j ∷ message_spans (j ∷ items))

abbrev pub IsToken : Token → Type 0
IsToken (character c) = is_supported c ≡ true
IsToken (prosign name) = is_transmittable_prosign name ≡ true

abbrev pub starts_word : List Item → Bool
starts_word [] = false
starts_word (i ∷ items) = i.word_start

-- A message that may be sent: of supported tokens, with no space in front.
pub record IsMessage (items : List Item) : Type 0 where
  pub tokens : All (λ (i : Item). IsToken i.token) items
  pub no_front_space : starts_word items ≡ false
