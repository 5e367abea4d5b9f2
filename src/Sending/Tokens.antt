-- ===== src/Sending/Tokens.antt =====
-- What the loop of `encode` in src/core/src/cw_transmit_encoder.cpp does at one token of a message.
use cw_buddy.Base.{
  ◌≡◌, refl, ◌∙◌, Bool, true, false, ◌||◌, not, List, [], ◌∷◌, ◌++◌, ℕ, suc, ◌+◌, ◌<◌, Option, some,
  ◌==◌, length, is_empty, arith, inl, inr, Bool-cases, append_assoc, all_of, holds_below,
  holds_below_lem, imp_true,
}
use cw_buddy.Text.{Text, split_at, text_eq, text_eq_iff}
use cw_buddy.Morse.{
  ProsignEntry, morse_table, prosign_table, find_character, find_prosign, elements_for,
  prosign_elements, is_transmittable_prosign,
}
use cw_buddy.Encoder.{Span, Loop, encode_here, encode_step, encode_loop}
use cw_buddy.Encoder.Spans.{IsOpen, element_spans, gap_spans, emit_lem}
use cw_buddy.Guard.Message.{is_supported}
use cw_buddy.Sending.{Token, character, prosign, token_text, token_elements, IsToken}

-- Every supported character has a row of the table with elements.
bytes_supported :
    holds_below (λ c. not (is_supported c) || not (is_empty (elements_for c))) 128 ≡ true
unfolding holds_below elements_for morse_table find_character
bytes_supported = refl

pub supported_below : (c : ℕ) → is_supported c ≡ true → c < 128
supported_below c h = ground arith

pub elements_for_supported : (c : ℕ) → is_supported c ≡ true → is_empty (elements_for c) ≡ false
elements_for_supported c h =
    let row =
      imp_true (is_supported c) (not (is_empty (elements_for c)))
        (holds_below_lem _ 128 c (supported_below c h) bytes_supported) h in
    ground arith

pub supported_plain : (c : ℕ) → is_supported c ≡ true → ((c == 32) ≡ false) × ((c == b'<') ≡ false)
supported_plain c h = ground arith

is_plain : Text → Bool
is_plain = all_of (λ c. not (c == b'>'))

find_prosign_plain :
    (name : Text) (table : List ProsignEntry)
    → all_of (λ row. is_plain row.name) table ≡ true
    → is_empty (find_prosign name table) ≡ false
    → is_plain name ≡ true
unfolding find_prosign
find_prosign_plain name [] h e = cc
find_prosign_plain name (row ∷ table) h e = elim (Bool-cases (text_eq row.name name)) [
  | inl same ↦ rw (← (text_eq_iff row.name name).0 same) (ground arith)
  | inr other ↦ find_prosign_plain name table (ground arith) (ground arith)
]

transmittable_plain : (name : Text) → is_transmittable_prosign name ≡ true → is_plain name ≡ true
unfolding is_transmittable_prosign prosign_elements prosign_table is_plain
transmittable_plain name h = find_prosign_plain name prosign_table refl (ground arith)

split_at_plain :
    (name rest : Text)
    → is_plain name ≡ true
    → split_at b'>' (name ++ b'>' ∷ rest) ≡ some (name, rest)
unfolding split_at is_plain
split_at_plain [] rest h = refl
split_at_plain (c ∷ name) rest h = ground (arith, split_at_plain name rest)

-- The loop passes over the rest of a prosign.
encode_loop_skip :
    (xs : Text) (c : ℕ) (rest : Text) (spans : List Span) (k : ℕ) (previous : Option ℕ)
    → k ≡ suc (length xs)
    → encode_loop (xs ++ c ∷ rest) (record { spans = spans; skip = k; previous = previous })
      ≡ encode_loop rest (record { spans = spans; skip = 0; previous = some c })
unfolding encode_loop encode_step
encode_loop_skip [] c rest spans k previous e = rw e
encode_loop_skip (x ∷ xs) c rest spans k previous e =
    rw e (encode_loop_skip xs c rest spans (suc (length xs)) (some x) refl)

unfoldable pub token_last : Token → ℕ
token_last (character c) = c
token_last (prosign name) = b'>'

-- The loop after a token.
abbrev pub after_token : Token → Text → List Span → Loop
after_token t rest spans = record {
  spans = spans ++ (element_spans (token_elements t) ++ gap_spans rest);
  skip = 0;
  previous = some (token_last t);
}

encode_here_character :
    (c : ℕ) (rest : Text) (l : Loop)
    → is_supported c ≡ true
    → IsOpen l.spans
    → encode_here c rest l ≡ some (after_token (character c) rest l.spans)
unfolding encode_here token_last
encode_here_character c rest l s o =
    let (space, bracket) = supported_plain c s in
    rw (space, bracket, (emit_lem l.spans (elements_for c) rest o (elements_for_supported c s)).0)

encode_here_prosign :
    (name rest : Text) (l : Loop)
    → is_transmittable_prosign name ≡ true
    → IsOpen l.spans
    → encode_here b'<' (name ++ b'>' ∷ rest) l
      ≡ some (record {
        spans = l.spans ++ (element_spans (prosign_elements name) ++ gap_spans rest);
        skip = length name + 1;
        previous = some b'<';
      })
unfolding encode_here
encode_here_prosign name rest l s o =
    let made =
      emit_lem l.spans (prosign_elements name) rest o
        (unfold is_transmittable_prosign in ground arith) in
    rw (split_at_plain name rest (transmittable_plain name s), made.0)

encode_loop_here :
    (c : ℕ) (rest : Text) (l l' : Loop)
    → l.skip ≡ 0
    → encode_here c rest l ≡ some l'
    → encode_loop (c ∷ rest) l ≡ encode_loop rest l'
unfolding encode_loop encode_step
encode_loop_here c rest l l' z h = ground arith

pub encode_loop_token :
    (t : Token) (rest : Text) (l : Loop)
    → IsToken t
    → l.skip ≡ 0
    → IsOpen l.spans
    → encode_loop (token_text t ++ rest) l ≡ encode_loop rest (after_token t rest l.spans)
encode_loop_token (character c) rest l s z o =
    encode_loop_here c rest l _ z (encode_here_character c rest l s o)
encode_loop_token (prosign name) rest l s z o = rw (append_assoc name (b'>' ∷ []) rest) (
    encode_loop_here b'<' _ l _ z (encode_here_prosign name rest l s o)
    ∙ unfold token_last in
      encode_loop_skip name b'>' rest _ (length name + 1) (some b'<') (omega arith))

pub encode_loop_space :
    (rest : Text) (spans : List Span) (p : ℕ)
    → (p == 32) ≡ false
    → encode_loop (32 ∷ rest) (record { spans = spans; skip = 0; previous = some p })
      ≡ encode_loop rest (record { spans = spans; skip = 0; previous = some 32 })
unfolding encode_here
encode_loop_space rest spans p h = encode_loop_here 32 rest _ _ refl (ground arith)
