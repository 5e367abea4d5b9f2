-- ===== src/Sending/Timing.antt =====
-- Whole messages through `encode` of src/core/src/cw_transmit_encoder.cpp.
use cw_buddy.Base.{
  u64_max, ◌≡◌, refl, ap, ◌∙◌, Bool, true, false, List, [], ◌∷◌, ◌++◌, ℕ, ◌*◌, ◌/◌, ◌≤◌, some,
  length, is_empty, last?, arith, inl, append-nil, All,
}
use cw_buddy.Text.{Text}
use cw_buddy.Encoder.{
  Span, Plan, loop_start, refuses, finish_plan, encode, dot_duration, is_char, head?,
  front_key_down, back_key_down,
}
use cw_buddy.Encoder.Spans.{IsKeyed, last?-polarity}
use cw_buddy.Encoder.Loops.{units, encode_loop-IsRunning}
use cw_buddy.Encoder.Plans.{dot_duration_range, short_product, total_units_from-units}
use cw_buddy.Sending.{
  Token, character, prosign, Item, token_text, item_text, render, message_spans, IsToken, IsMessage,
}
use cw_buddy.Sending.Encoded.{encode_loop-message_spans}
use cw_buddy.Sending.Tokens.{supported_plain}

last?-append : (xs : Text) (y : ℕ) (ys : Text) → last? (xs ++ y ∷ ys) ≡ last? (y ∷ ys)
last?-append [] y ys = refl
last?-append (x ∷ []) y ys = refl
last?-append (x ∷ z ∷ xs) y ys = last?-append (z ∷ xs) y ys

last?-token :
    (b : Bool) (t : Token)
    → IsToken t
    → is_char (last? (item_text (record { word_start = b; token = t }))) 32 ≡ false
last?-token true (character c) s = (supported_plain c s).0
last?-token false (character c) s = (supported_plain c s).0
last?-token true (prosign name) s = rw (last?-append (32 ∷ b'<' ∷ name) b'>' [])
last?-token false (prosign name) s = rw (last?-append (b'<' ∷ name) b'>' [])

cons_item_text : (i : Item) (rest : Text) → (c : ℕ) × (cs : Text) × (item_text i ++ rest ≡ c ∷ cs)
cons_item_text i rest = go i.word_start i.token
  where
    go :
        (b : Bool) (t : Token)
        → (c : ℕ) × (cs : Text) × (item_text (record { word_start = b; token = t }) ++ rest
            ≡ c ∷ cs)
    go true t = (_, _, refl)
    go false (character c) = (_, _, refl)
    go false (prosign name) = (_, _, refl)

last?-render :
    (i : Item) (items : List Item)
    → All (λ (j : Item). IsToken j.token) (i ∷ items)
    → is_char (last? (render (i ∷ items))) 32 ≡ false
last?-render i [] a = rw (append-nil (item_text i)) (last?-token i.word_start i.token a.0)
last?-render i (j ∷ items) a =
    let (c, cs, e) = cons_item_text j (render items) in
    let below : is_char (last? (c ∷ cs)) 32 ≡ false = rw e at (last?-render j items a.1) in
    rw (e, last?-append (item_text i) c cs) below

head?-render :
    (i : Item) (rest : Text)
    → IsToken i.token
    → i.word_start ≡ false
    → (is_char (head? (item_text i ++ rest)) 32 ≡ false) × (is_empty (item_text i ++ rest) ≡ false)
head?-render i rest s w = rw w (go i.token s)
  where
    go :
        (t : Token)
        → IsToken t
        → (is_char (head? (token_text t ++ rest)) 32 ≡ false)
          × (is_empty (token_text t ++ rest) ≡ false)
    go (character c) s = ((supported_plain c s).0, refl)
    go (prosign name) s = (refl, refl)

refuses-render :
    (items : List Item) (wpm : ℕ)
    → IsMessage items
    → is_empty items ≡ false
    → length (render items) ≤ 512
    → 5 ≤ wpm
    → wpm ≤ 80
    → refuses (render items) wpm ≡ false
unfolding refuses
refuses-render [] wpm v e l low high = cc
refuses-render (i ∷ items) wpm v e l low high =
    let (front, some_text) = head?-render i (render items) v.tokens.0 v.no_front_space in
    let back = last?-render i items v.tokens in rw (front, some_text, back) (ground arith)

last?-cons : (s : Span) (spans : List Span) → (x : Span) × (last? (s ∷ spans) ≡ some x)
last?-cons s [] = (s, refl)
last?-cons s (t ∷ spans) = last?-cons t spans

IsKeyed-ends :
    (spans : List Span)
    → IsKeyed spans
    → (is_empty spans ≡ false) × (front_key_down spans ≡ true) × (back_key_down spans ≡ true)
IsKeyed-ends [] k = cc (k.1)
IsKeyed-ends (s ∷ spans) k =
    let (x, e) = last?-cons s spans in
    let p = last?-polarity true (s ∷ spans) x k.0 e in
    (refl, k.0.0, rw (e, back_key_down) (ground (arith, k.1)))

-- The plan of a message at a speed.
abbrev pub plan_of : List Item → ℕ → Plan
plan_of items wpm = record {
  text = render items;
  spans = message_spans items;
  dot_duration_ns = dot_duration wpm;
  total_duration_ns = units (message_spans items) * dot_duration wpm;
}

finish_plan-keyed :
    (text : Text) (dot : ℕ) (spans : List Span)
    → IsKeyed spans
    → units spans ≤ 15360
    → dot ≤ 240000000
    → 15360 ≤ u64_max / dot
    → finish_plan text dot spans
      ≡ some (record {
        text = text;
        spans = spans;
        dot_duration_ns = dot;
        total_duration_ns = units spans * dot;
      })
unfolding finish_plan
finish_plan-keyed text dot spans k u d r =
    let (some_spans, front, back) = IsKeyed-ends spans k in
    let sum = total_units_from-units 0 spans (omega arith) in
    let product = short_product (units spans) dot u d in
    rw (some_spans, front, back, sum) (ground arith)

-- A message of supported characters and prosigns that begins with no space, is not empty and is at
-- most 512 bytes long when written, is encoded at every speed from 5 to 80 words per minute, into
-- the spans of its elements.
pub encode-plan_of :
    (items : List Item) (wpm : ℕ)
    → IsMessage items
    → is_empty items ≡ false
    → length (render items) ≤ 512
    → 5 ≤ wpm
    → wpm ≤ 80
    → encode (render items) wpm ≡ some (plan_of items wpm)
unfolding encode
encode-plan_of items wpm v e l low high =
    let (end, runs, spans, keyed) = encode_loop-message_spans items v e in
    let (_, sum) =
      encode_loop-IsRunning (render items) loop_start end
        (record { alternates = tt; open_or_done = inl refl }) runs in
    let (_, short, room) = dot_duration_range wpm low high in
    let made =
      finish_plan-keyed (render items) (dot_duration wpm) end.spans keyed (omega arith) short
        room in
    rw (refuses-render items wpm v e l low high, runs)
      (made
        ∙ ap
            (λ xs. some (record {
              text = render items;
              spans = xs;
              dot_duration_ns = dot_duration wpm;
              total_duration_ns = units xs * dot_duration wpm;
            }))
            spans)
