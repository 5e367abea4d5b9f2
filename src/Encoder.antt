-- ===== src/Encoder.antt =====
-- src/core/src/cw_transmit_encoder.cpp and its header: confirmed text into a plan of KEY spans. The
-- loop over the characters is a recursion on the text left; where the code moves its index on to
-- the closing bracket of a prosign, `skip` counts the characters that the loop passes over.
pub mod Spans
pub mod Loops
pub mod Plans
mod Tests
use cw_buddy.Base.{
  u64, u64_max, Bool, true, false, ◌||◌, not, List, [], ◌∷◌, ◌++◌, ℕ, zero, suc, ◌+◌, ◌-◌, ◌*◌, ◌/◌,
  ◌%◌, Option, none, some, ltb, ◌==◌, if◌then◌else◌, length, is_empty, last?,
}
use cw_buddy.Text.{Text, split_at}
use cw_buddy.Morse.{prosign_elements, elements_for}

pub record Span : Type 0 where
  pub key_down : Bool
  pub duration_units : ℕ

pub record Plan : Type 0 where
  pub text : Text
  pub spans : List Span
  pub dot_duration_ns : ℕ
  pub total_duration_ns : ℕ

abbrev pub u32_max : ℕ
u32_max = 4294967295

abbrev pub bool_eq : Bool → Bool → Bool
bool_eq true b = b
bool_eq false b = not b

abbrev pub span : Bool → ℕ → Span
span key units = record { key_down = key; duration_units = units }

-- `spans.back() = s`.
unfoldable pub set_back : List Span → Span → List Span
set_back [] s = []
set_back (x ∷ []) s = s ∷ []
set_back (x ∷ y ∷ rest) s = x ∷ set_back (y ∷ rest) s

-- `appendSpan`; `none` is `false`.
unfoldable pub append_span : List Span → Bool → ℕ → Option (List Span)
append_span spans key units = if units == 0 then none else elim (last? spans) [
  | none ↦ some (spans ++ span key units ∷ [])
  | some back ↦
      if bool_eq back.key_down key
      then if ltb (u32_max - units) back.duration_units
        then none
        else some (set_back spans (span key (back.duration_units + units)))
      else some (spans ++ span key units ∷ [])
]

abbrev pub element_units : ℕ → ℕ
element_units e = if e == b'-' then 3 else 1

-- The loop over the elements of one character: a gap of one unit between two of them.
unfoldable pub append_elements : List Span → Text → Option (List Span)
append_elements spans [] = some spans
append_elements spans (e ∷ rest) = elim (append_span spans true (element_units e)) [
  | none ↦ none
  | some keyed ↦ elim (if is_empty rest then some keyed else append_span keyed false 1) [
    | none ↦ none
    | some spaced ↦ append_elements spaced rest
  ]
]

-- The gap after a character, by what stands next in the text.
unfoldable pub append_gap : List Span → Text → Option (List Span)
append_gap spans [] = some spans
append_gap spans (next ∷ rest) = append_span spans false (if next == 32 then 7 else 3)

-- One character or prosign: `elements` are not empty, and `next` is the text after it.
unfoldable pub emit : List Span → Text → Text → Option (List Span)
emit spans elements next =
    if is_empty elements
    then none
    else elim (append_elements spans elements) [ none ↦ none | some keyed ↦ append_gap keyed next ]

pub record Loop : Type 0 where
  pub spans : List Span
  pub skip : ℕ
  pub previous : Option ℕ

-- `character_index == 0U || normalized_text[character_index - 1U] == ' '`.
abbrev pub after_space : Option ℕ → Bool
after_space none = true
after_space (some c) = c == 32

-- The body of the loop where it is not passing over a prosign.
unfoldable pub encode_here : ℕ → Text → Loop → Option Loop
encode_here c rest l =
    if c == 32
    then if after_space l.previous then none else some (record l { previous = some c })
    else if c == b'<'
    then elim (split_at b'>' rest) [
      | none ↦ none
      | some (name, after) ↦ elim (emit l.spans (prosign_elements name) after) [
        | none ↦ none
        | some spans ↦ some (record { spans = spans; skip = length name + 1; previous = some c })
      ]
    ]
    else elim (emit l.spans (elements_for c) rest) [
      | none ↦ none
      | some spans ↦ some (record { spans = spans; skip = 0; previous = some c })
    ]

unfoldable pub encode_step : ℕ → ℕ → Text → Loop → Option Loop
encode_step zero c rest l = encode_here c rest l
encode_step (suc k) c rest l = some (record l { skip = k; previous = some c })

unfoldable pub encode_loop : Text → Loop → Option Loop
encode_loop [] l = some l
encode_loop (c ∷ rest) l = elim (encode_step l.skip c rest l) [
  | none ↦ none
  | some l' ↦ encode_loop rest l'
]

-- The sum of the durations, in `uint64_t`.
unfoldable pub total_units_from : ℕ → List Span → ℕ
total_units_from acc [] = acc
total_units_from acc (s ∷ rest) = total_units_from (u64 (acc + s.duration_units)) rest

abbrev pub front_key_down : List Span → Bool
front_key_down [] = false
front_key_down (s ∷ rest) = s.key_down

abbrev pub back_key_down : List Span → Bool
back_key_down spans = elim (last? spans) [ none ↦ false | some s ↦ s.key_down ]

abbrev pub dot_duration : ℕ → ℕ
dot_duration words_per_minute = (1200000000 + words_per_minute / 2) / words_per_minute

-- The tests and the total after the loop.
unfoldable pub finish_plan : Text → ℕ → List Span → Option Plan
finish_plan text dot spans =
    let total = total_units_from 0 spans in
    if is_empty spans || (not (front_key_down spans) || not (back_key_down spans))
    then none
    else if ltb (u64_max / dot) total
    then none
    else some (record {
      text = text;
      spans = spans;
      dot_duration_ns = dot;
      total_duration_ns = u64 (total * dot);
    })

abbrev pub is_char : Option ℕ → ℕ → Bool
is_char none c = false
is_char (some d) c = d == c

abbrev pub head? : Text → Option ℕ
head? [] = none
head? (c ∷ rest) = some c

-- The tests before the loop.
unfoldable pub refuses : Text → ℕ → Bool
refuses text wpm =
    is_empty text
    || (ltb 512 (length text)
        || (ltb wpm 5 || (ltb 80 wpm || (is_char (head? text) 32 || is_char (last? text) 32))))

abbrev pub loop_start : Loop
loop_start = record { spans = []; skip = 0; previous = none }

unfoldable pub encode : Text → ℕ → Option Plan
encode text wpm = if refuses text wpm then none else elim (encode_loop text loop_start) [
  | none ↦ none
  | some l ↦ finish_plan text (dot_duration wpm) l.spans
]
