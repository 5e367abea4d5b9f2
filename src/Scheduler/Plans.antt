-- ===== src/Scheduler/Plans.antt =====
-- The encoder's plans pass `validatePlan` of src/core/src/cw_transmit_scheduler.cpp.
use cw_buddy.Base.{
  u64_max, ◌≡◌, ap, ◌∙◌, Bool, true, false, ◌&&◌, not, List, [], ◌∷◌, ℕ, ◌+◌, ◌*◌, ◌/◌, ◌≤◌, ◌<◌,
  some, leb, arith,
}
use native.Mathlib.Nat.{mul-le-mul}
use cw_buddy.Text.{Text}
use cw_buddy.Encoder.{Span, Plan, encode}
use cw_buddy.Encoder.Spans.{Alternates, unit_limit}
use cw_buddy.Encoder.Loops.{units}
use cw_buddy.Encoder.Plans.{IsEncoded, encode-IsEncoded, short_product}
use cw_buddy.Scheduler.{Config, valid_config, refuses_span, check_spans, validate_plan}

refuses_span_alternating :
    (key : Bool) (dot : ℕ) (s : Span) (acc : ℕ)
    → s.key_down ≡ key
    → 0 < s.duration_units
    → s.duration_units ≤ unit_limit key
    → dot ≤ 240000000
    → 15360 ≤ u64_max / dot
    → acc + s.duration_units ≤ 15360
    → refuses_span dot s acc (not key) ≡ false
unfolding refuses_span
refuses_span_alternating true dot s acc k p l d r u =
    let product : s.duration_units * dot ≤ 3 * 240000000 = mul-le-mul l d in ground arith
refuses_span_alternating false dot s acc k p l d r u = ground arith

check_spans_alternating :
    (key : Bool) (dot : ℕ) (spans : List Span) (acc : ℕ)
    → Alternates key spans
    → dot ≤ 240000000
    → 15360 ≤ u64_max / dot
    → acc + units spans ≤ 15360
    → check_spans dot spans acc (not key) ≡ some (acc + units spans)
unfolding check_spans
check_spans_alternating key dot [] acc a d r u = ap some (omega arith)
check_spans_alternating true dot (s ∷ spans) acc a d r u =
    rw (refuses_span_alternating true dot s acc a.0 a.1 a.2 d r (omega arith), a.0)
      (check_spans_alternating false dot spans (acc + s.duration_units) a.3 d r (omega arith)
        ∙ ap some (omega arith))
check_spans_alternating false dot (s ∷ spans) acc a d r u =
    rw (refuses_span_alternating false dot s acc a.0 a.1 a.2 d r (omega arith), a.0)
      (check_spans_alternating true dot spans (acc + s.duration_units) a.3 d r (omega arith)
        ∙ ap some (omega arith))

validate_plan_of_IsEncoded :
    (text : Text) (wpm : ℕ) (c : Config) (p : Plan)
    → IsEncoded text wpm p
    → validate_plan c p ≡ (valid_config c && leb p.total_duration_ns c.maximum_message_duration_ns)
unfolding validate_plan
validate_plan_of_IsEncoded text wpm c p e =
    let bound : units p.spans ≤ 15360 = omega (arith, e.few_units, e.short_text) in
    let product = short_product (units p.spans) p.dot_duration_ns bound e.dot_short in
    let checked =
      check_spans_alternating true p.dot_duration_ns p.spans 0 e.alternates e.dot_short e.dot_room
        (omega arith) in
    let texts = e.same_text in
    let some_text = e.some_text in
    let some_spans = e.some_spans in
    let front = e.front_keyed in
    let back = e.back_keyed in
    let total = e.total in
    let positive = e.dot_positive in
    let room = e.dot_room in rw (texts, some_text, some_spans, front, back) (ground arith)

-- A plan that the encoder returns is accepted by the scheduler exactly if the configuration is
-- valid and the plan is no longer than the configured limit: the two components agree on what a
-- plan is.
pub encode-validate_plan :
    (text : Text) (wpm : ℕ) (c : Config) (p : Plan)
    → encode text wpm ≡ some p
    → validate_plan c p ≡ (valid_config c && leb p.total_duration_ns c.maximum_message_duration_ns)
encode-validate_plan text wpm c p h =
    validate_plan_of_IsEncoded text wpm c p (encode-IsEncoded text wpm p h)
