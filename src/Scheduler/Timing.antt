-- ===== src/Scheduler/Timing.antt =====
-- A message on a punctual clock, through `start` and `advance` of
-- src/core/src/cw_transmit_scheduler.cpp.
use cw_buddy.Base.{u64_max, ◌≡◌, refl, true, List, [], ◌∷◌, ℕ, suc, ◌+◌, ◌*◌, ◌≤◌, arith}
use cw_buddy.Encoder.{Span, Plan, front_key_down}
use cw_buddy.Encoder.Loops.{units}
use cw_buddy.Scheduler.Invariant.{validate_plan-facts}
use cw_buddy.Scheduler.{Config, Scheduler, completed, lead, start, advance}
use cw_buddy.Scheduler.Clock.{
  due_times, IsPunctual, advance_all, line_trace, expected_lines, drop, drop-cons, Runs, InSpan,
}
use cw_buddy.Scheduler.Transitions.{enter_span, enter_hang, leave_hang, enter_first}
use cw_buddy.Scheduler.Durations.{validate_plan-duration, start-facts, started-Runs}

-- What a run over the clock readings ends in, and shows on the lines.
abbrev pub Completes : List ℕ → Scheduler → List Span → Type 0
Completes times s spans =
    ((advance_all times s).state ≡ completed) × (line_trace times s ≡ expected_lines spans)

Completes-spans :
    (c : Config) (p : Plan) (rest : List Span) (k t last : ℕ) (s : Scheduler) (times : List ℕ)
    → InSpan c p k t last s
    → drop (suc k) p.spans ≡ rest
    → t + units rest * p.dot_duration_ns + c.ptt_hang_ns ≤ u64_max
    → IsPunctual c.maximum_transition_lateness_ns last times
        (due_times t p.dot_duration_ns c.ptt_hang_ns rest)
    → Completes times s rest
unfolding advance_all line_trace
Completes-spans c p [] k t last s (now ∷ later ∷ []) i d fits (a, b, l, (a', b', l', e)) =
    let (r, ph, lines) = enter_hang c p k t last now s i d a b l (omega arith) in
    let (done, off) = leave_hang c p _ now later (advance now s).0 r ph (ground arith) a' b' l' in
    (done, rw (lines, off))
Completes-spans c p [] k t last s [] i d fits q = absurd q
Completes-spans c p [] k t last s (now ∷ []) i d fits q = absurd q.3
Completes-spans c p [] k t last s (now ∷ later ∷ more ∷ times) i d fits q = absurd (q.3.3)
Completes-spans c p (y ∷ ys) k t last s [] i d fits q = absurd q
Completes-spans c p (y ∷ ys) k t last s (now ∷ times) i d fits (a, b, l, q) =
    let (j, lines) = enter_span c p k t last now s y ys i d a b l (grind arith) in
    let (_, next, _) = drop-cons (suc k) p.spans y ys d in
    let (done, trace) =
      Completes-spans c p ys (suc k) _ now (advance now s).0 times j next (grind arith) q in
    (done, rw (lines, trace))

Completes-started :
    (c : Config) (p : Plan) (t last : ℕ) (s : Scheduler) (spans : List Span) (times : List ℕ)
    → Runs c p t last s
    → s.phase ≡ lead
    → p.spans ≡ spans
    → front_key_down spans ≡ true
    → t + units spans * p.dot_duration_ns + c.ptt_hang_ns ≤ u64_max
    → IsPunctual c.maximum_transition_lateness_ns last times
        (due_times t p.dot_duration_ns c.ptt_hang_ns spans)
    → Completes times s spans
unfolding advance_all line_trace
Completes-started c p t last s [] times r ph e key fits q = cc
Completes-started c p t last s (y ∷ ys) [] r ph e key fits q = absurd q
Completes-started c p t last s (y ∷ ys) (now ∷ times) r ph e key fits (a, b, l, q) =
    let (i, lines) = enter_first c p t last now s y ys r ph e a b l (grind arith) in
    let (done, trace) =
      Completes-spans c p ys 0 _ now (advance now s).0 times i (rw e) (grind arith) q in
    (done, rw (lines, trace, key))

-- A message that `start` accepts is sent to its end on every punctual clock: if each call of
-- `advance` comes no earlier than the transition that is due and no later than the allowed
-- lateness, then the lines follow the plan, span by span, KEY is up during the hang and PTT goes
-- off last, and the scheduler ends completed. The due times are sums from the start, so lateness
-- does not add up.
pub start-Completes :
    (p : Plan) (now : ℕ) (s s' : Scheduler) (times : List ℕ)
    → start p now s ≡ (s', true)
    → IsPunctual s.config.maximum_transition_lateness_ns now times
        (due_times (now + s.config.ptt_lead_ns) p.dot_duration_ns s.config.ptt_hang_ns p.spans)
    → Completes times s' p.spans
start-Completes p now s s' times h q =
    let (valid, fits, same) = start-facts p now s s' h in
    let (runs, in_lead) = started-Runs p now s s' same in
    let total = validate_plan-duration s.config p valid in
    Completes-started s.config p (now + s.config.ptt_lead_ns) now s' p.spans times runs in_lead refl
      (validate_plan-facts s.config p valid).0 (rw total fits) q
