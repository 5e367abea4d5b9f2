-- ===== src/Sending/Reference.antt =====
-- International Morse code, for src/core/src/cw_transmit_encoder.cpp: the marks of each character,
-- from the tree of the code and not from the encoder's table, and the length of a dot from the word
-- PARIS.
use cw_buddy.Base.{
  ◌≡◌, refl, ap, ◌∙◌, Bool, true, false, ◌||◌, not, List, [], ◌∷◌, ◌++◌, map, ℕ, zero, suc, ◌+◌,
  ◌*◌, ◌/◌, ◌%◌, ◌≤◌, some, leb, ◌==◌, if◌then◌else◌, All, all_of, length, is_empty, arith,
  Bool-cases, inl, inr, holds_below, holds_below_lem, imp_true, ◌&&◌, &&-eq-true, leb→le,
}
use cw_buddy.Text.{Text, codes, text_eq, text_eq_iff}
use cw_buddy.Morse.{
  ProsignEntry, morse_table, prosign_table, find_character, find_prosign, elements_for,
  prosign_elements, is_transmittable_prosign,
}
use cw_buddy.Encoder.{Span, span, element_units, dot_duration, encode}
use cw_buddy.Encoder.Spans.{element_spans}
use cw_buddy.Encoder.Loops.{units}
use cw_buddy.Guard.Message.{is_supported}
use cw_buddy.Sending.{
  Token, character, prosign, Item, token_elements, gap_before, message_spans, render, IsToken,
  IsMessage,
}
use cw_buddy.Sending.Tokens.{supported_below}
use cw_buddy.Sending.Timing.{encode-plan_of}

-- The tree of the code. The binary digits of a character's place, after the first one, are its
-- marks: a 0 is a dot and a 1 is a dash.
abbrev pub morse_tree : Text
morse_tree =
    codes "  ETIANMSURWDKGOHVF L PJBXCYZQ  "
    ++ codes "54 3   2& +    16=/   ( 7   8 90"
    ++ codes "            ?     "
    ++ (34 ∷ [])
    ++ codes "  .    @   "
    ++ (39 ∷ [])
    ++ codes "  -        ;! )     ,    :       "
    ++ codes "         $"

abbrev pub place_from : ℕ → ℕ → Text → ℕ
place_from n c [] = 1
place_from n c (d ∷ tree) = if d == c then n else place_from (n + 1) c tree

-- The units of the marks of a place: one for a dot, three for a dash.
abbrev pub marks_from : ℕ → ℕ → List ℕ → List ℕ
marks_from zero n marks = marks
marks_from (suc rounds) n marks =
    if leb n 1 then marks else marks_from rounds (n / 2) ((if n % 2 == 0 then 1 else 3) ∷ marks)

unfoldable pub morse_marks : ℕ → List ℕ
morse_marks c = marks_from 7 (place_from 0 c morse_tree) []

-- A prosign is its letters, run together.
unfoldable pub prosign_marks : Text → List ℕ
prosign_marks [] = []
prosign_marks (c ∷ name) = morse_marks c ++ prosign_marks name

abbrev pub token_marks : Token → List ℕ
token_marks (character c) = morse_marks c
token_marks (prosign name) = prosign_marks name

-- Marks with one unit between them.
abbrev pub mark_spans : List ℕ → List Span
mark_spans [] = []
mark_spans (m ∷ []) = span true m ∷ []
mark_spans (m ∷ n ∷ marks) = span true m ∷ span false 1 ∷ mark_spans (n ∷ marks)

-- The spans of a message, with three units between characters and seven between words.
abbrev pub morse_spans : List Item → List Span
morse_spans [] = []
morse_spans (i ∷ []) = mark_spans (token_marks i.token)
morse_spans (i ∷ j ∷ items) =
    mark_spans (token_marks i.token) ++ (gap_before j ∷ morse_spans (j ∷ items))

-- The nearest whole nanosecond to a dot: as many words a minute as the speed, of fifty dots each as
-- PARIS is, last sixty seconds.
abbrev pub IsDot : ℕ → ℕ → Type 0
IsDot wpm dot =
    (2 * 60000000000 ≤ 50 * wpm * (2 * dot + 1))
    × (50 * wpm * (2 * dot) ≤ 2 * 60000000000 + 50 * wpm)

is_mark_text : List ℕ → Text → Bool
is_mark_text marks elements = text_eq marks (map element_units elements)

mark_spans_elements :
    (elements : Text) → mark_spans (map element_units elements) ≡ element_spans elements
mark_spans_elements [] = refl
mark_spans_elements (e ∷ []) = refl
mark_spans_elements (e ∷ f ∷ rest) =
    ap (λ xs. span true (element_units e) ∷ span false 1 ∷ xs) (mark_spans_elements (f ∷ rest))

all_characters :
    holds_below (λ c. not (is_supported c) || is_mark_text (morse_marks c) (elements_for c)) 128
    ≡ true
unfolding holds_below elements_for morse_table find_character morse_marks is_mark_text text_eq
all_characters = refl

all_prosigns :
    all_of (λ row. is_mark_text (prosign_marks row.name) row.elements) prosign_table ≡ true
unfolding prosign_table prosign_marks morse_marks is_mark_text text_eq
all_prosigns = refl

found_prosign :
    (name : Text) (table : List ProsignEntry)
    → all_of (λ row. is_mark_text (prosign_marks row.name) row.elements) table ≡ true
    → is_empty (find_prosign name table) ≡ false
    → is_mark_text (prosign_marks name) (find_prosign name table) ≡ true
unfolding find_prosign
found_prosign name [] h e = absurd (cc e)
found_prosign name (row ∷ table) h e = elim (Bool-cases (text_eq row.name name)) [
  | inl same ↦ rw (same, ← (text_eq_iff row.name name).0 same) (ground (arith, h))
  | inr other ↦ rw other (found_prosign name table (ground (arith, h)) (rw other at e))
]

token_marks_lem : (t : Token) → IsToken t → is_mark_text (token_marks t) (token_elements t) ≡ true
unfolding is_transmittable_prosign prosign_elements
token_marks_lem (character c) s =
    imp_true (is_supported c) _ (holds_below_lem _ 128 c (supported_below c s) all_characters) s
token_marks_lem (prosign name) s = found_prosign name prosign_table all_prosigns (ground (arith, s))

token_spans :
    (t : Token) → IsToken t → mark_spans (token_marks t) ≡ element_spans (token_elements t)
unfolding is_mark_text
token_spans t s =
    ap mark_spans
      ((text_eq_iff (token_marks t) (map element_units (token_elements t))).0 (token_marks_lem t s))
    ∙ mark_spans_elements (token_elements t)

morse_spans_lem :
    (items : List Item)
    → All (λ (i : Item). IsToken i.token) items
    → morse_spans items ≡ message_spans items
morse_spans_lem [] a = refl
morse_spans_lem (i ∷ []) a = token_spans i.token a.0
morse_spans_lem (i ∷ j ∷ items) a =
    rw (token_spans i.token a.0, morse_spans_lem (j ∷ items) a.1) refl

is_dot : ℕ → ℕ → Bool
is_dot wpm dot =
    leb (2 * 60000000000) (50 * wpm * (2 * dot + 1))
    && leb (50 * wpm * (2 * dot)) (2 * 60000000000 + 50 * wpm)

all_dots : holds_below (λ wpm. not (leb 5 wpm) || is_dot wpm (dot_duration wpm)) 81 ≡ true
unfolding holds_below is_dot
all_dots = refl

dot_duration-IsDot : (wpm : ℕ) → 5 ≤ wpm → wpm ≤ 80 → IsDot wpm (dot_duration wpm)
unfolding is_dot
dot_duration-IsDot wpm low high =
    let (a, b) = &&-eq-true _ _ (
      imp_true (leb 5 wpm) _ (holds_below_lem _ 81 wpm (omega arith) all_dots)
        (ground (arith, low))) in
    (leb→le _ _ a, leb→le _ _ b)

-- A message of supported characters and prosigns that begins with no space, is not empty and is at
-- most 512 bytes long when written, is encoded at every speed from 5 to 80 words per minute, into
-- the spans of International Morse code: of the characters by the tree of the code, of the prosigns
-- by their letters, with dashes of three dots and gaps of one, three and seven. A dot lasts its exact
-- time, by the word PARIS, rounded to the nearest nanosecond, and the total is that of all units.
pub encode-render :
    (items : List Item) (wpm : ℕ)
    → IsMessage items
    → is_empty items ≡ false
    → length (render items) ≤ 512
    → 5 ≤ wpm
    → wpm ≤ 80
    → (dot : ℕ) × IsDot wpm dot
      × (encode (render items) wpm
          ≡ some (record {
            text = render items;
            spans = morse_spans items;
            dot_duration_ns = dot;
            total_duration_ns = units (morse_spans items) * dot;
          }))
encode-render items wpm v e l low high = (
  dot_duration wpm,
  dot_duration-IsDot wpm low high,
  rw (morse_spans_lem items v.tokens) (encode-plan_of items wpm v e l low high),
)
