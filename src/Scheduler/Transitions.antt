-- ===== src/Scheduler/Transitions.antt =====
-- One punctual call of `advance` of src/core/src/cw_transmit_scheduler.cpp at each transition.
use cw_buddy.Base.{
  u64_max, ◌≡◌, refl, ap, ◌∙◌, true, false, List, [], ◌∷◌, ℕ, suc, ◌+◌, ◌*◌, ◌≤◌, length, arith,
}
use cw_buddy.Encoder.{Span, Plan}
use cw_buddy.Scheduler.{
  Config, Scheduler, completed, lead, spans_phase, hang, advance, advance_phase, plan_size,
}
use cw_buddy.Scheduler.Clock.{
  drop, drop-nil, drop-cons, Runs, advance_due, InSpan, span_ns_lem, phase_next, phase_end,
  phase_first,
}

pub enter_span :
    (c : Config) (p : Plan) (k t last now : ℕ) (s : Scheduler) (y : Span) (ys : List Span)
    → InSpan c p k t last s
    → drop (suc k) p.spans ≡ y ∷ ys
    → last ≤ now
    → t ≤ now
    → now ≤ t + c.maximum_transition_lateness_ns
    → t + y.duration_units * p.dot_duration_ns ≤ u64_max
    → InSpan c p (suc k) (t + y.duration_units * p.dot_duration_ns) now (advance now s).0
      × ((advance now s).0.lines ≡ record { ptt = true; key = y.key_down })
enter_span c p k t last now s y ys (r, ph, ix) d a b l fits =
    let (here, _, inside) = drop-cons (suc k) p.spans y ys d in
    let (ns, at, size) = span_ns_lem p (suc k) y s.plan r.planned here (omega arith) in
    let next : s.span_index + 1 ≡ suc k = omega arith in
    let m = record s { last_advance_ns = now } in
    let result = phase_next m (rw (next, size) inside) (rw (next, ns, r.due) fits) in
    rw (advance_due c p t last now s spans_phase r ph a b l ∙ result) (
      (
        record {
          configured = r.configured;
          planned = r.planned;
          running_state = r.running_state;
          clocked = r.clocked;
          due = rw (next, ns, r.due);
          seen = refl;
          ptt_on = r.ptt_on;
        },
        ph,
        next,
      ),
      rw (next, at, r.ptt_on),
    )

-- The hang after the last span, and the release after it.
pub enter_hang :
    (c : Config) (p : Plan) (k t last now : ℕ) (s : Scheduler)
    → InSpan c p k t last s
    → drop (suc k) p.spans ≡ []
    → last ≤ now
    → t ≤ now
    → now ≤ t + c.maximum_transition_lateness_ns
    → t + c.ptt_hang_ns ≤ u64_max
    → Runs c p (t + c.ptt_hang_ns) now (advance now s).0
      × ((advance now s).0.phase ≡ hang)
      × ((advance now s).0.lines ≡ record { ptt = true; key = false })
enter_hang c p k t last now s (r, ph, ix) d a b l fits =
    let outside = drop-nil (suc k) p.spans d in
    let size : plan_size s.plan ≡ length p.spans = rw r.planned in
    let next : s.span_index + 1 ≡ suc k = omega arith in
    let hang_ns : s.config.ptt_hang_ns ≡ c.ptt_hang_ns =
      ap (λ (x : Config). x.ptt_hang_ns) r.configured in
    let m = record s { last_advance_ns = now } in
    let result = phase_end m (rw (next, size) outside) (rw (hang_ns, r.due) fits) in
    rw (advance_due c p t last now s spans_phase r ph a b l ∙ result) (
      record {
        configured = r.configured;
        planned = r.planned;
        running_state = r.running_state;
        clocked = r.clocked;
        due = rw (hang_ns, r.due);
        seen = refl;
        ptt_on = r.ptt_on;
      },
      refl,
      rw r.ptt_on,
    )

pub leave_hang :
    (c : Config) (p : Plan) (t last now : ℕ) (s : Scheduler)
    → Runs c p t last s
    → s.phase ≡ hang
    → s.lines.key ≡ false
    → last ≤ now
    → t ≤ now
    → now ≤ t + c.maximum_transition_lateness_ns
    → ((advance now s).0.state ≡ completed)
      × ((advance now s).0.lines ≡ record { ptt = false; key = false })
unfolding advance_phase
leave_hang c p t last now s r ph key a b l =
    rw (advance_due c p t last now s hang r ph a b l) (refl, rw key)

pub enter_first :
    (c : Config) (p : Plan) (t last now : ℕ) (s : Scheduler) (y : Span) (ys : List Span)
    → Runs c p t last s
    → s.phase ≡ lead
    → p.spans ≡ y ∷ ys
    → last ≤ now
    → t ≤ now
    → now ≤ t + c.maximum_transition_lateness_ns
    → t + y.duration_units * p.dot_duration_ns ≤ u64_max
    → InSpan c p 0 (t + y.duration_units * p.dot_duration_ns) now (advance now s).0
      × ((advance now s).0.lines ≡ record { ptt = true; key = true })
enter_first c p t last now s y ys r ph e a b l fits =
    let (ns, _, _) = span_ns_lem p 0 y s.plan r.planned (rw e) (omega arith) in
    let m = record s { last_advance_ns = now } in
    let result = phase_first m (rw (ns, r.due) fits) in
    rw (advance_due c p t last now s lead r ph a b l ∙ result) (
      (
        record {
          configured = r.configured;
          planned = r.planned;
          running_state = r.running_state;
          clocked = r.clocked;
          due = rw (ns, r.due);
          seen = refl;
          ptt_on = r.ptt_on;
        },
        refl,
        refl,
      ),
      rw r.ptt_on,
    )
