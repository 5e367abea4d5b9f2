-- ===== src/Scheduler.antt =====
-- src/core/src/cw_transmit_scheduler.cpp and its header: the sequencing of a plan into PTT and KEY
-- transitions. Each method takes the scheduler and returns it anew, with its result. A read of the
-- plan outside its spans, which is undefined in the code, gives an empty span;
-- `Scheduler.Invariant` shows that it is never made.
pub mod Plans
pub mod Invariant
pub mod Release
pub mod Clock
pub mod Transitions
pub mod Durations
pub mod Timing
use cw_buddy.Base.{
  u64, u64_max, Bool, true, false, ◌&&◌, ◌||◌, not, List, [], ◌∷◌, ℕ, ◌+◌, ◌-◌, ◌*◌, ◌/◌, Option,
  none, some, ltb, leb, ◌==◌, if◌then◌else◌, length, is_empty, get_elem?,
}
use cw_buddy.Encoder.{Span, span, Plan, bool_eq, front_key_down, back_key_down}

pub data SchedulerState : Type 0 where
  idle running completed cancelled emergency faulted_state : SchedulerState

pub data AdvanceResult : Type 0 where
  no_change transition faulted : AdvanceResult

pub data Phase : Type 0 where
  no_phase lead spans_phase hang : Phase

pub record Config : Type 0 where
  pub ptt_lead_ns : ℕ
  pub ptt_hang_ns : ℕ
  pub maximum_message_duration_ns : ℕ
  pub maximum_transition_lateness_ns : ℕ

abbrev pub default_config : Config
default_config = record {
  ptt_lead_ns = 100000000;
  ptt_hang_ns = 100000000;
  maximum_message_duration_ns = 600000000000;
  maximum_transition_lateness_ns = 250000000;
}

pub record LineState : Type 0 where
  pub ptt : Bool
  pub key : Bool

pub record Scheduler : Type 0 where
  pub config : Config
  pub plan : Option Plan
  pub state : SchedulerState
  pub phase : Phase
  pub lines : LineState
  pub last_advance_ns : ℕ
  pub next_transition_ns : ℕ
  pub span_index : ℕ
  pub clock_initialized : Bool
  pub release_pending : Bool

unfoldable pub new_scheduler : Config → Scheduler
new_scheduler config = record {
  config = config;
  plan = none;
  state = idle;
  phase = no_phase;
  lines = record { ptt = false; key = false };
  last_advance_ns = 0;
  next_transition_ns = 0;
  span_index = 0;
  clock_initialized = false;
  release_pending = false;
}

abbrev pub maximum_continuous_key_down_ns : ℕ
maximum_continuous_key_down_ns = 3000000000

abbrev pub maximum_lead_or_hang_ns : ℕ
maximum_lead_or_hang_ns = 5000000000

abbrev pub maximum_allowed_message_duration_ns : ℕ
maximum_allowed_message_duration_ns = 1800000000000

abbrev pub maximum_allowed_lateness_ns : ℕ
maximum_allowed_lateness_ns = 3000000000

unfoldable pub valid_config : Config → Bool
valid_config c =
    leb c.ptt_lead_ns maximum_lead_or_hang_ns
    && (leb c.ptt_hang_ns maximum_lead_or_hang_ns
        && (ltb 0 c.maximum_message_duration_ns
            && (leb c.maximum_message_duration_ns maximum_allowed_message_duration_ns
                && leb c.maximum_transition_lateness_ns maximum_allowed_lateness_ns)))

-- The tests of one span, on the units so far and the span before it.
unfoldable pub refuses_span : ℕ → Span → ℕ → Bool → Bool
refuses_span dot s total_units previous_key_down =
    s.duration_units == 0
    || (bool_eq s.key_down previous_key_down
        || (ltb (u64_max - s.duration_units) total_units
            || (ltb (u64_max / dot) s.duration_units
                || (s.key_down
                    && ltb maximum_continuous_key_down_ns (u64 (s.duration_units * dot))))))

-- The loop over the spans; `none` is `return false`.
unfoldable pub check_spans : ℕ → List Span → ℕ → Bool → Option ℕ
check_spans dot [] total_units previous_key_down = some total_units
check_spans dot (s ∷ rest) total_units previous_key_down =
    let after = check_spans dot rest (total_units + s.duration_units) s.key_down in
    if refuses_span dot s total_units previous_key_down then none else after

unfoldable pub validate_plan : Config → Plan → Bool
validate_plan c p =
    if not (valid_config c)
      || (is_empty p.text
          || (is_empty p.spans
              || (p.dot_duration_ns == 0
                  || (not (front_key_down p.spans) || not (back_key_down p.spans)))))
    then false
    else elim (check_spans p.dot_duration_ns p.spans 0 (not (front_key_down p.spans))) [
      | none ↦ false
      | some total_units ↦
          if ltb (u64_max / p.dot_duration_ns) total_units
          then false
          else u64 (total_units * p.dot_duration_ns) == p.total_duration_ns
            && leb (u64 (total_units * p.dot_duration_ns)) c.maximum_message_duration_ns
    ]

unfoldable pub enter_terminal : SchedulerState → Scheduler → Scheduler
enter_terminal state s = record s {
  state = state;
  phase = no_phase;
  next_transition_ns = 0;
  lines = record { ptt = s.lines.ptt; key = false };
  release_pending = s.lines.ptt;
}

-- `tripFault`; its result is `faulted` at every call.
unfoldable pub trip_fault : Scheduler → Scheduler
trip_fault s = enter_terminal faulted_state s

unfoldable pub set_next_transition : ℕ → ℕ → Scheduler → Scheduler × Bool
set_next_transition base delay s =
    if ltb (u64_max - delay) base
    then (trip_fault s, false)
    else (record s { next_transition_ns = base + delay }, true)

abbrev pub is_idle : SchedulerState → Bool
is_idle idle = true
is_idle _ = false

abbrev pub is_running : SchedulerState → Bool
is_running running = true
is_running _ = false

-- Would lead, plan and hang run past the end of the clock?
unfoldable pub overflows : Config → Plan → ℕ → Bool
overflows c p now =
    ltb (u64_max - c.ptt_lead_ns) p.total_duration_ns
    || (ltb (u64_max - c.ptt_hang_ns) (p.total_duration_ns + c.ptt_lead_ns)
        || ltb (u64_max - (p.total_duration_ns + c.ptt_lead_ns + c.ptt_hang_ns)) now)

-- The assignments of `start` once the plan is accepted.
unfoldable pub started : Plan → ℕ → Scheduler → Scheduler
started p now s = record s {
  plan = some p;
  state = running;
  phase = lead;
  lines = record { ptt = true; key = false };
  last_advance_ns = now;
  clock_initialized = true;
  span_index = 0;
  release_pending = false;
}

unfoldable pub start : Plan → ℕ → Scheduler → Scheduler × Bool
start p now s =
    if not (is_idle s.state) || not (validate_plan s.config p)
    then (trip_fault s, false)
    else if overflows s.config p now
    then (trip_fault s, false)
    else set_next_transition now s.config.ptt_lead_ns (started p now s)

abbrev pub no_span : Span
no_span = span false 0

-- `plan_->spans[index]`.
abbrev pub span_at : Option Plan → ℕ → Span
span_at none index = no_span
span_at (some p) index = elim (get_elem? p.spans index) [ none ↦ no_span | some s ↦ s ]

abbrev pub plan_dot : Option Plan → ℕ
plan_dot none = 0
plan_dot (some p) = p.dot_duration_ns

abbrev pub plan_size : Option Plan → ℕ
plan_size none = 0
plan_size (some p) = length p.spans

-- The duration of a span in nanoseconds, in `uint64_t`.
abbrev pub span_ns : Option Plan → ℕ → ℕ
span_ns plan index = u64 ((span_at plan index).duration_units * plan_dot plan)

-- What `advance` returns after `setNextTransition`.
abbrev pub reported : Scheduler × Bool → Scheduler × AdvanceResult
reported (s, true) = (s, transition)
reported (s, false) = (s, faulted)

abbrev pub with_key : Bool → LineState → LineState
with_key key lines = record { ptt = lines.ptt; key = key }

-- The branches of `advance` by phase, at the boundary that is due.
unfoldable pub advance_phase : Phase → Scheduler → Scheduler × AdvanceResult
advance_phase lead s = reported (
    set_next_transition s.next_transition_ns (span_ns s.plan 0)
      (record s { phase = spans_phase; span_index = 0; lines = with_key true s.lines }))
advance_phase spans_phase s =
    if ltb (s.span_index + 1) (plan_size s.plan)
    then reported (
        set_next_transition s.next_transition_ns (span_ns s.plan (s.span_index + 1)) (record s {
          span_index = s.span_index + 1;
          lines = with_key (span_at s.plan (s.span_index + 1)).key_down s.lines;
        }))
    else reported (
        set_next_transition s.next_transition_ns s.config.ptt_hang_ns (record s {
          span_index = s.span_index + 1;
          lines = with_key false s.lines;
          phase = hang;
        }))
advance_phase hang s = (
  record s {
    lines = record { ptt = false; key = s.lines.key };
    state = completed;
    phase = no_phase;
    next_transition_ns = 0;
  },
  transition,
)
advance_phase no_phase s = (trip_fault s, faulted)

unfoldable pub advance_running : ℕ → Scheduler → Scheduler × AdvanceResult
advance_running now s =
    if not s.clock_initialized || ltb now s.last_advance_ns
    then (trip_fault s, faulted)
    else if ltb now s.next_transition_ns
    then (record s { last_advance_ns = now }, no_change)
    else if ltb s.config.maximum_transition_lateness_ns (now - s.next_transition_ns)
    then (trip_fault (record s { last_advance_ns = now }), faulted)
    else advance_phase s.phase (record s { last_advance_ns = now })

unfoldable pub advance : ℕ → Scheduler → Scheduler × AdvanceResult
advance now s =
    if is_running s.state
    then advance_running now s
    else if s.release_pending
    then (
      record s { lines = record { ptt = false; key = s.lines.key }; release_pending = false },
      transition,
    )
    else (s, no_change)

unfoldable pub cancel : Scheduler → Scheduler × Bool
cancel s = if is_running s.state then (enter_terminal cancelled s, true) else (s, false)

unfoldable pub emergency_release : Scheduler → Scheduler
emergency_release s = enter_terminal emergency s

unfoldable pub reset : Scheduler → Scheduler × Bool
reset s =
    if is_running s.state || (s.lines.ptt || (s.lines.key || s.release_pending))
    then (s, false)
    else (
      record s {
        plan = none;
        state = idle;
        phase = no_phase;
        last_advance_ns = 0;
        next_transition_ns = 0;
        span_index = 0;
        clock_initialized = false;
      },
      true,
    )

-- A caller's calls, in order.
pub data Command : Type 0 where
  starts : Plan → ℕ → Command
  advances : ℕ → Command
  cancels releases resets : Command

unfoldable pub step : Command → Scheduler → Scheduler
step (starts p now) s = (start p now s).0
step (advances now) s = (advance now s).0
step cancels s = (cancel s).0
step releases s = emergency_release s
step resets s = (reset s).0

unfoldable pub run : List Command → Scheduler → Scheduler
run [] s = s
run (c ∷ cs) s = run cs (step c s)
