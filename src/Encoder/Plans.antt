-- ===== src/Encoder/Plans.antt =====
-- What the plans of `encode` in src/core/src/cw_transmit_encoder.cpp look like.
use cw_buddy.Base.{
  u64, u64_max, ◌≡◌, refl, Bool, true, false, ◌&&◌, ◌||◌, not, List, [], ◌∷◌, ℕ, ◌+◌, ◌*◌, ◌/◌, ◌≤◌,
  ◌<◌, some, ltb, leb, length, is_empty, arith, inl, inr, Option-cases, Bool-cases, holds_below,
  holds_below_lem, imp_true,
}
use native.Mathlib.Nat.{mul-le-mul}
use cw_buddy.Text.{Text}
use cw_buddy.Encoder.{
  Span, Plan, dot_duration, total_units_from, front_key_down, back_key_down, finish_plan, refuses,
  Loop, loop_start, encode_loop, encode,
}
use cw_buddy.Encoder.Spans.{Alternates}
use cw_buddy.Encoder.Loops.{units, encode_loop-IsRunning}

pub total_units_from-units :
    (acc : ℕ) (spans : List Span)
    → acc + units spans ≤ u64_max
    → total_units_from acc spans ≡ acc + units spans
unfolding total_units_from
total_units_from-units acc [] h = omega arith
total_units_from-units acc (s ∷ spans) h =
    let small : u64 (acc + s.duration_units) ≡ acc + s.duration_units = omega arith in
    rw small (omega (arith, total_units_from-units (acc + s.duration_units) spans (omega arith)))

-- A dot is long enough to be a number of nanoseconds, and short enough that neither a keyed dash
-- nor the longest message reaches the limits.
abbrev dot_in_range : ℕ → Bool
dot_in_range dot = ltb 0 dot && (leb dot 240000000 && leb 15360 (u64_max / dot))

all_speeds : holds_below (λ wpm. not (leb 5 wpm) || dot_in_range (dot_duration wpm)) 81 ≡ true
unfolding holds_below
all_speeds = refl

dot_in_range-facts :
    (dot : ℕ) → dot_in_range dot ≡ true → (0 < dot) × (dot ≤ 240000000) × (15360 ≤ u64_max / dot)
dot_in_range-facts dot h = ground arith

pub dot_duration_range :
    (wpm : ℕ)
    → 5 ≤ wpm
    → wpm ≤ 80
    → (0 < dot_duration wpm) × (dot_duration wpm ≤ 240000000) × (15360 ≤ u64_max / dot_duration wpm)
dot_duration_range wpm l u =
    dot_in_range-facts (dot_duration wpm)
      (imp_true (leb 5 wpm) _ (holds_below_lem _ 81 wpm (omega arith) all_speeds) (ground arith))

pub short_product : (n dot : ℕ) → n ≤ 15360 → dot ≤ 240000000 → n * dot ≤ 3686400000000
short_product n dot h k = mul-le-mul h k

-- A plan of `encode` for a text and a speed.
pub record IsEncoded (text : Text) (wpm : ℕ) (p : Plan) : Type 0 where
  pub same_text : p.text ≡ text
  pub some_text : is_empty text ≡ false
  pub some_spans : is_empty p.spans ≡ false
  pub alternates : Alternates true p.spans
  pub front_keyed : front_key_down p.spans ≡ true
  pub back_keyed : back_key_down p.spans ≡ true
  pub few_units : units p.spans ≤ 30 * length text
  pub short_text : length text ≤ 512
  pub dot : p.dot_duration_ns ≡ dot_duration wpm
  pub dot_positive : 0 < p.dot_duration_ns
  pub dot_short : p.dot_duration_ns ≤ 240000000
  pub dot_room : 15360 ≤ u64_max / p.dot_duration_ns
  pub total : p.total_duration_ns ≡ units p.spans * p.dot_duration_ns

refuses-facts :
    (text : Text) (wpm : ℕ)
    → refuses text wpm ≡ false
    → (is_empty text ≡ false) × (length text ≤ 512) × (5 ≤ wpm) × (wpm ≤ 80)
unfolding refuses
refuses-facts text wpm h = ground arith

module _ (text : Text) (wpm : ℕ) (p : Plan) where
  finish_plan-facts :
      (dot : ℕ) (spans : List Span)
      → units spans ≤ 15360
      → dot ≤ 240000000
      → finish_plan text dot spans ≡ some p
      → (p.text ≡ text)
        × (p.spans ≡ spans)
        × (p.dot_duration_ns ≡ dot)
        × (is_empty spans ≡ false)
        × (front_key_down spans ≡ true)
        × (back_key_down spans ≡ true)
        × (p.total_duration_ns ≡ units spans * dot)
  unfolding finish_plan
  finish_plan-facts dot spans h k e =
      ground
        (arith, total_units_from-units 0 spans (omega arith), short_product (units spans) dot h k)

  IsEncoded-of_loop :
      (l : Loop)
      → refuses text wpm ≡ false
      → encode_loop text loop_start ≡ some l
      → finish_plan text (dot_duration wpm) l.spans ≡ some p
      → IsEncoded text wpm p
  IsEncoded-of_loop l r e f =
      let (some_text, short, low, high) = refuses-facts text wpm r in
      let (end, sum) =
        encode_loop-IsRunning text loop_start l
          (record { alternates = tt; open_or_done = inl refl }) e in
      let (positive, below, room) = dot_duration_range wpm low high in
      let facts = finish_plan-facts (dot_duration wpm) l.spans (omega arith) below f in
      record {
        same_text = facts.0;
        some_text = some_text;
        some_spans = rw facts.1 facts.3;
        alternates = rw facts.1 end.alternates;
        front_keyed = rw facts.1 facts.4;
        back_keyed = rw facts.1 facts.5;
        few_units = rw facts.1 (omega arith);
        short_text = short;
        dot = facts.2;
        dot_positive = rw facts.2 positive;
        dot_short = rw facts.2 below;
        dot_room = rw facts.2 room;
        total = rw (facts.1, facts.2) facts.6;
      }

  -- Every plan that the encoder returns keeps the text, alternates between key down and key up from
  -- a keyed span to a keyed span, keys for one to three units and pauses for one to seven, has at
  -- most thirty units for each character, and has the exact product of its units and its dot as
  -- duration.
  pub encode-IsEncoded : encode text wpm ≡ some p → IsEncoded text wpm p
  unfolding encode
  encode-IsEncoded h = elim (Bool-cases (refuses text wpm)) [
    | inl r ↦ ground arith
    | inr r ↦ elim (Option-cases (encode_loop text loop_start)) [
      | inl e ↦ ground arith
      | inr (l, e) ↦ IsEncoded-of_loop l r e (ground arith)
    ]
  ]
