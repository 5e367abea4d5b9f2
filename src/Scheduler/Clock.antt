-- ===== src/Scheduler/Clock.antt =====
-- When the transitions of src/core/src/cw_transmit_scheduler.cpp are due, and its phases one by
-- one.
use cw_buddy.Base.{
  u64_max, ◌≡◌, ap, true, false, List, [], ◌∷◌, ℕ, zero, suc, ◌+◌, ◌*◌, ◌≤◌, ◌<◌, Option, some, ltb,
  length, arith, get_elem?,
}
use cw_buddy.Encoder.{Span, Plan}
use cw_buddy.Scheduler.{
  Config, Scheduler, Phase, running, lead, spans_phase, hang, LineState, transition,
  set_next_transition, advance, advance_running, advance_phase, span_at, span_ns, plan_size,
  reported, with_key,
}

-- When the transitions are due: at `t` the first span of the list begins, or after the last one the
-- hang, and at the end of the hang PTT is released.
abbrev pub due_times : ℕ → ℕ → ℕ → List Span → List ℕ
due_times t dot hang_ns [] = t ∷ (t + hang_ns) ∷ []
due_times t dot hang_ns (s ∷ rest) = t ∷ due_times (t + s.duration_units * dot) dot hang_ns rest

-- Clock readings that never go back, each at its due time or late by at most `lateness`.
abbrev pub IsPunctual : ℕ → ℕ → List ℕ → List ℕ → Type 0
IsPunctual lateness last [] [] = Unit
IsPunctual lateness last [] (d ∷ ds) = ⊥
IsPunctual lateness last (now ∷ times) [] = ⊥
IsPunctual lateness last (now ∷ times) (d ∷ ds) =
    (last ≤ now) × (d ≤ now) × (now ≤ d + lateness) × IsPunctual lateness now times ds

unfoldable pub advance_all : List ℕ → Scheduler → Scheduler
advance_all [] s = s
advance_all (now ∷ times) s = advance_all times (advance now s).0

-- The lines after each call.
unfoldable pub line_trace : List ℕ → Scheduler → List LineState
line_trace [] s = []
line_trace (now ∷ times) s = (advance now s).0.lines ∷ line_trace times (advance now s).0

-- The lines that a list of spans asks for, then the hang, then both off.
abbrev pub expected_lines : List Span → List LineState
expected_lines [] = record { ptt = true; key = false } ∷ record { ptt = false; key = false } ∷ []
expected_lines (s ∷ rest) = record { ptt = true; key = s.key_down } ∷ expected_lines rest

abbrev pub drop : ℕ → List Span → List Span
drop zero xs = xs
drop (suc n) [] = []
drop (suc n) (x ∷ xs) = drop n xs

pub drop-nil : (n : ℕ) (xs : List Span) → drop n xs ≡ [] → length xs ≤ n
drop-nil zero [] h = omega arith
drop-nil zero (x ∷ xs) h = cc
drop-nil (suc n) [] h = omega arith
drop-nil (suc n) (x ∷ xs) h = omega (arith, drop-nil n xs h)

pub drop-cons :
    (n : ℕ) (xs : List Span) (y : Span) (ys : List Span)
    → drop n xs ≡ y ∷ ys
    → (get_elem? xs n ≡ some y) × (drop (suc n) xs ≡ ys) × (n < length xs)
drop-cons zero [] y ys h = cc
drop-cons zero (x ∷ xs) y ys h = (cc, cc, omega arith)
drop-cons (suc n) [] y ys h = cc
drop-cons (suc n) (x ∷ xs) y ys h = let (a, b, c) = drop-cons n xs y ys h in (a, b, omega arith)

-- The scheduler of the configuration `c` runs the plan `p`, with its next transition at `t`.
pub record Runs (c : Config) (p : Plan) (t last : ℕ) (s : Scheduler) : Type 0 where
  pub configured : s.config ≡ c
  pub planned : s.plan ≡ some p
  pub running_state : s.state ≡ running
  pub clocked : s.clock_initialized ≡ true
  pub due : s.next_transition_ns ≡ t
  pub seen : s.last_advance_ns ≡ last
  pub ptt_on : s.lines.ptt ≡ true

pub advance_due :
    (c : Config) (p : Plan) (t last now : ℕ) (s : Scheduler) (ph : Phase)
    → Runs c p t last s
    → s.phase ≡ ph
    → last ≤ now
    → t ≤ now
    → now ≤ t + c.maximum_transition_lateness_ns
    → advance now s ≡ advance_phase ph (record s { last_advance_ns = now })
unfolding advance advance_running
advance_due c p t last now s ph r e a b d = ground arith

pub set_next_transition_lem :
    (base delay : ℕ) (s : Scheduler)
    → base + delay ≤ u64_max
    → set_next_transition base delay s ≡ (record s { next_transition_ns = base + delay }, true)
unfolding set_next_transition
set_next_transition_lem base delay s h = ground arith

-- The scheduler is in the span with index `k`.
abbrev pub InSpan : Config → Plan → ℕ → ℕ → ℕ → Scheduler → Type 0
InSpan c p k t last s = Runs c p t last s × (s.phase ≡ spans_phase) × (s.span_index ≡ k)

pub span_ns_lem :
    (p : Plan) (k : ℕ) (y : Span) (o : Option Plan)
    → o ≡ some p
    → get_elem? p.spans k ≡ some y
    → y.duration_units * p.dot_duration_ns ≤ u64_max
    → (span_ns o k ≡ y.duration_units * p.dot_duration_ns)
      × (span_at o k ≡ y)
      × (plan_size o ≡ length p.spans)
span_ns_lem p k y o e g h = ground arith

-- The branches of `advance_phase`, with their results, where no sum leaves the clock.
pub phase_next :
    (m : Scheduler)
    → m.span_index + 1 < plan_size m.plan
    → m.next_transition_ns + span_ns m.plan (m.span_index + 1) ≤ u64_max
    → advance_phase spans_phase m ≡ (
      record m {
        span_index = m.span_index + 1;
        lines = with_key (span_at m.plan (m.span_index + 1)).key_down m.lines;
        next_transition_ns = m.next_transition_ns + span_ns m.plan (m.span_index + 1);
      },
      transition,
    )
unfolding advance_phase
phase_next m inside fits =
    let test : ltb (m.span_index + 1) (plan_size m.plan) ≡ true = ground arith in
    rw test (ap reported (set_next_transition_lem _ _ _ fits))

pub phase_end :
    (m : Scheduler)
    → plan_size m.plan ≤ m.span_index + 1
    → m.next_transition_ns + m.config.ptt_hang_ns ≤ u64_max
    → advance_phase spans_phase m ≡ (
      record m {
        span_index = m.span_index + 1;
        lines = with_key false m.lines;
        phase = hang;
        next_transition_ns = m.next_transition_ns + m.config.ptt_hang_ns;
      },
      transition,
    )
unfolding advance_phase
phase_end m outside fits =
    let test : ltb (m.span_index + 1) (plan_size m.plan) ≡ false = ground arith in
    rw test (ap reported (set_next_transition_lem _ _ _ fits))

pub phase_first :
    (m : Scheduler)
    → m.next_transition_ns + span_ns m.plan 0 ≤ u64_max
    → advance_phase lead m ≡ (
      record m {
        phase = spans_phase;
        span_index = 0;
        lines = with_key true m.lines;
        next_transition_ns = m.next_transition_ns + span_ns m.plan 0;
      },
      transition,
    )
unfolding advance_phase
phase_first m fits = ap reported (set_next_transition_lem _ _ _ fits)
