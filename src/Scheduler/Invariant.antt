-- ===== src/Scheduler/Invariant.antt =====
-- What holds of the scheduler of src/core/src/cw_transmit_scheduler.cpp between two calls.
use cw_buddy.Base.{
  ◌≡◌, refl, Bool, true, false, ◌||◌, not, List, [], ◌∷◌, ℕ, ◌+◌, ◌<◌, Option, none, some, ltb,
  length, get_elem?, arith, ◌≢◌, inl, inr, Bool-cases,
}
use cw_buddy.Encoder.{Span, Plan, front_key_down, back_key_down}
use cw_buddy.Scheduler.{
  Config, Scheduler, SchedulerState, running, cancelled, emergency, faulted_state, Phase, no_phase,
  lead, spans_phase, hang, new_scheduler, validate_plan, enter_terminal, trip_fault,
  set_next_transition, start, started, overflows, advance, advance_running, advance_phase, cancel,
  emergency_release, reset, Command, starts, advances, cancels, releases, resets, step, run,
  is_idle, plan_size, span_at, no_span, valid_config, reported,
}

-- The plan of a running scheduler is one that it validated.
abbrev pub HasPlan : Config → Option Plan → Type 0
HasPlan c none = ⊥
HasPlan c (some p) = validate_plan c p ≡ true

pub record Inv (s : Scheduler) : Type 0 where
  pub planned : s.state ≡ running → HasPlan s.config s.plan
  pub in_phase : s.state ≡ running → s.phase ≢ no_phase
  pub clocked : s.state ≡ running → s.clock_initialized ≡ true
  pub ptt_on : s.state ≡ running → s.lines.ptt ≡ true
  pub not_releasing : s.state ≡ running → s.release_pending ≡ false
  pub in_range : s.phase ≡ spans_phase → s.span_index < plan_size s.plan
  pub key_of_span :
      s.lines.key ≡ true
      → (s.state ≡ running)
        × (s.phase ≡ spans_phase)
        × ((span_at s.plan s.span_index).key_down ≡ true)
  pub stopped_phase : s.state ≢ running → s.phase ≡ no_phase
  pub stopped_release : s.state ≢ running → s.release_pending ≡ s.lines.ptt

pub new_scheduler-Inv : (c : Config) → Inv (new_scheduler c)
unfolding new_scheduler
new_scheduler-Inv c = ground arith

enter_terminal-Inv :
    (state : SchedulerState) (s : Scheduler) → state ≢ running → Inv (enter_terminal state s)
unfolding enter_terminal
enter_terminal-Inv state s h = ground arith

trip_fault-Inv : (s : Scheduler) → Inv (trip_fault s)
unfolding trip_fault
trip_fault-Inv s = enter_terminal-Inv faulted_state s (λ e. cc)

set_next_transition-Inv :
    (base delay : ℕ) (s : Scheduler) → Inv s → Inv (set_next_transition base delay s).0
unfolding set_next_transition
set_next_transition-Inv base delay s v = ground (arith, trip_fault-Inv s)

started-Inv :
    (p : Plan) (now : ℕ) (s : Scheduler) → validate_plan s.config p ≡ true → Inv (started p now s)
unfolding started
started-Inv p now s h = ground arith

start-Inv : (p : Plan) (now : ℕ) (s : Scheduler) → Inv (start p now s).0
unfolding start
start-Inv p now s = elim (Bool-cases (not (is_idle s.state) || not (validate_plan s.config p))) [
  | inl e ↦ rw e (trip_fault-Inv s)
  | inr e ↦ elim (Bool-cases (overflows s.config p now)) [
    | inl f ↦ rw (e, f) (trip_fault-Inv s)
    | inr f ↦
        rw (e, f)
          (set_next_transition-Inv now s.config.ptt_lead_ns (started p now s)
            (started-Inv p now s (ground arith)))
  ]
]

pub validate_plan-facts :
    (c : Config) (p : Plan)
    → validate_plan c p ≡ true
    → (front_key_down p.spans ≡ true) × (back_key_down p.spans ≡ true) × (valid_config c ≡ true)
unfolding validate_plan
validate_plan-facts c p h = ground arith

span_in : List Span → ℕ → Span
span_in spans index = elim (get_elem? spans index) [ none ↦ no_span | some s ↦ s ]

front_in :
    (spans : List Span)
    → front_key_down spans ≡ true
    → (0 < length spans) × ((span_in spans 0).key_down ≡ true)
unfolding span_in
front_in [] h = cc
front_in (s ∷ spans) h = (omega arith, h)

pub HasPlan-front :
    (c : Config) (o : Option Plan)
    → HasPlan c o
    → (0 < plan_size o) × ((span_at o 0).key_down ≡ true)
unfolding span_in
HasPlan-front c none h = absurd h
HasPlan-front c (some p) h = front_in p.spans (validate_plan-facts c p h).0

reported-Inv : (r : Scheduler × Bool) → Inv r.0 → Inv (reported r).0
reported-Inv (s, true) v = v
reported-Inv (s, false) v = v

advance_phase-Inv :
    (ph : Phase) (s : Scheduler)
    → s.phase ≡ ph
    → s.state ≡ running
    → Inv s
    → Inv (advance_phase ph s).0
unfolding advance_phase
advance_phase-Inv lead s e r v =
    reported-Inv _ (set_next_transition-Inv _ _ _ (ground (arith, HasPlan-front s.config s.plan)))
advance_phase-Inv spans_phase s e r v =
    elim (Bool-cases (ltb (s.span_index + 1) (plan_size s.plan))) [
      | inl t ↦ rw t (reported-Inv _ (set_next_transition-Inv _ _ _ (ground arith)))
      | inr t ↦ rw t (reported-Inv _ (set_next_transition-Inv _ _ _ (ground arith)))
    ]
advance_phase-Inv hang s e r v = ground arith
advance_phase-Inv no_phase s e r v = trip_fault-Inv s

ticked-Inv : (now : ℕ) (s : Scheduler) → Inv s → Inv (record s { last_advance_ns = now })
ticked-Inv now s v = ground arith

advance_running-Inv :
    (now : ℕ) (s : Scheduler) → s.state ≡ running → Inv s → Inv (advance_running now s).0
unfolding advance_running
advance_running-Inv now s r v = ground (
  arith,
  trip_fault-Inv s,
  trip_fault-Inv (record s { last_advance_ns = now }),
  ticked-Inv now s v,
  advance_phase-Inv s.phase (record s { last_advance_ns = now }) refl r (ticked-Inv now s v),
)

-- Every command, whatever its arguments, keeps the invariant.
pub step-Inv : (c : Command) (s : Scheduler) → Inv s → Inv (step c s)
unfolding step advance cancel emergency_release reset
step-Inv (starts p now) s v = start-Inv p now s
step-Inv (advances now) s v = ground (arith, advance_running-Inv now s)
step-Inv cancels s v = ground (arith, enter_terminal-Inv cancelled s (λ e. cc))
step-Inv releases s v = enter_terminal-Inv emergency s (λ e. cc)
step-Inv resets s v = ground arith

run-Inv : (cs : List Command) (s : Scheduler) → Inv s → Inv (run cs s)
unfolding run
run-Inv [] s v = v
run-Inv (c ∷ cs) s v = run-Inv cs (step c s) (step-Inv c s v)

-- After any sequence of commands to a new scheduler with any configuration: KEY is down only while
-- a validated plan runs, in a span of it that is keyed; a running scheduler holds PTT, has a phase
-- and a clock, and reads its plan within the spans; a stopped one has PTT on only if its release is
-- due.
pub run-new_scheduler-Inv : (c : Config) (cs : List Command) → Inv (run cs (new_scheduler c))
run-new_scheduler-Inv c cs = run-Inv cs (new_scheduler c) (new_scheduler-Inv c)
