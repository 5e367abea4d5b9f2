-- ===== src/Sending/Encoded.antt =====
-- The encoder of src/core/src/cw_transmit_encoder.cpp against the reference spans.
use cw_buddy.Base.{
  subst, ◌≡◌, refl, ap, sym, ◌∙◌, Bool, true, false, List, [], ◌∷◌, ◌++◌, some, ◌==◌, is_empty,
  arith, append_assoc, append-nil, All,
}
use cw_buddy.Text.{Text}
use cw_buddy.Morse.{is_transmittable_prosign}
use cw_buddy.Encoder.{Span, Loop, loop_start, encode_loop}
use cw_buddy.Encoder.Spans.{IsOpen, IsAfter, IsKeyed, element_spans, gap_spans, emit_lem}
use cw_buddy.Sending.{
  Token, character, prosign, Item, token_text, token_elements, item_text, render, gap_before,
  message_spans, IsToken, IsMessage,
}
use cw_buddy.Sending.Tokens.{
  elements_for_supported, supported_plain, token_last, after_token, encode_loop_token,
  encode_loop_space,
}

token_last_plain : (t : Token) → IsToken t → (token_last t == 32) ≡ false
unfolding token_last
token_last_plain (character c) s = (supported_plain c s).0
token_last_plain (prosign name) s = refl

abbrev item : Bool → Token → Item
item b t = record { word_start = b; token = t }

gap_spans-item :
    (b : Bool) (t : Token) (rest : Text)
    → IsToken t
    → gap_spans (item_text (item b t) ++ rest) ≡ gap_before (item b t) ∷ []
gap_spans-item true t rest s = refl
gap_spans-item false (character c) rest s = rw ((supported_plain c s).0)
gap_spans-item false (prosign name) rest s = refl

IsAfter-item :
    (b : Bool) (t : Token) (rest : Text) (xs : List Span)
    → IsAfter (item_text (item b t) ++ rest) xs
    → IsOpen xs
IsAfter-item true t rest xs a = a
IsAfter-item false (character c) rest xs a = a
IsAfter-item false (prosign name) rest xs a = a

is_empty-token_elements : (t : Token) → IsToken t → is_empty (token_elements t) ≡ false
unfolding is_transmittable_prosign
is_empty-token_elements (character c) s = elements_for_supported c s
is_empty-token_elements (prosign name) s = ground arith

after_token-IsOpen :
    (t : Token) (b : Bool) (u : Token) (rest : Text) (xs : List Span)
    → IsToken t
    → IsOpen xs
    → IsOpen (after_token t (item_text (item b u) ++ rest) xs).spans
after_token-IsOpen t b u rest xs s o =
    IsAfter-item b u rest _ (emit_lem xs (token_elements t) _ o (is_empty-token_elements t s)).1

-- The loop takes the space before a word.
encode_loop-item :
    (t : Token) (b : Bool) (u : Token) (rest : Text) (xs : List Span)
    → IsToken t
    → (l : Loop) × (l.skip ≡ 0)
      × (l.spans ≡ (after_token t (item_text (item b u) ++ rest) xs).spans)
      × (encode_loop
            (item_text (item b u) ++ rest)
            (after_token t (item_text (item b u) ++ rest) xs)
          ≡ encode_loop (token_text u ++ rest) l)
encode_loop-item t true u rest xs s = (
  record { spans = _; skip = 0; previous = some 32 },
  refl,
  refl,
  encode_loop_space _ _ _ (token_last_plain t s),
)
encode_loop-item t false u rest xs s = (_, refl, refl, refl)

-- What the loop does with a message, from its first token on.
abbrev pub Encodes : Text → Loop → List Span → Type 0
Encodes text l spans =
    (l' : Loop) × (encode_loop text l ≡ some l') × (l'.spans ≡ l.spans ++ spans) × IsKeyed l'.spans

regroup :
    (xs ys : List Span) (s : Span) (zs : List Span)
    → (xs ++ (ys ++ s ∷ [])) ++ zs ≡ xs ++ (ys ++ (s ∷ zs))
regroup xs ys s zs = simp append_assoc

Encodes-items :
    (t : Token) (items : List Item) (l : Loop)
    → IsToken t
    → All (λ (i : Item). IsToken i.token) items
    → l.skip ≡ 0
    → IsOpen l.spans
    → (b : Bool) → Encodes (token_text t ++ render items) l (message_spans (item b t ∷ items))
unfolding encode_loop
Encodes-items t [] l s a z o b = (
  after_token t [] l.spans,
  encode_loop_token t [] l s z o,
  ap (◌++◌ l.spans) (append-nil _),
  (emit_lem l.spans (token_elements t) [] o (is_empty-token_elements t s)).1,
)
Encodes-items t (j ∷ items) l s a z o b =
    let rest = render items in
    let (m, skip, spans, same) = encode_loop-item t j.word_start j.token rest l.spans s in
    let open' : IsOpen m.spans =
      subst IsOpen (sym spans) (after_token-IsOpen t j.word_start j.token rest l.spans s o) in
    let (l', ends, shape, keyed) = Encodes-items j.token items m a.0 a.1 skip open' j.word_start in
    (
      l',
      encode_loop_token t (render (j ∷ items)) l s z o ∙ same ∙ ends,
      shape
          ∙ ap (λ xs. xs ++ message_spans (j ∷ items))
              (spans
                ∙ ap (λ gap. l.spans ++ (element_spans (token_elements t) ++ gap))
                    (gap_spans-item j.word_start j.token rest a.0))
          ∙ regroup l.spans (element_spans (token_elements t)) (gap_before j)
              (message_spans (j ∷ items)),
      keyed,
    )

pub encode_loop-message_spans :
    (items : List Item)
    → IsMessage items
    → is_empty items ≡ false
    → Encodes (render items) loop_start (message_spans items)
encode_loop-message_spans [] v e = cc
encode_loop-message_spans (i ∷ items) v e =
    let front : i.word_start ≡ false = v.no_front_space in
    rw front
      (Encodes-items i.token items loop_start v.tokens.0 v.tokens.1 refl (tt, refl) i.word_start)
