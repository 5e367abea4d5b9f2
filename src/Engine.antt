-- ===== src/Engine.antt =====
-- src/desktop/transmit/direct_transmit_engine.cpp and its header: the worker that applies the
-- scheduler's lines to the keying adapter. A member function takes the worker and returns it anew,
-- with its result. The adapter is there (`initialize` makes it before any other call), time is a
-- sequence of readings of the monotonic clock, of which `none` is a negative one, and a status text is
-- a constructor of `Status`.
pub mod Calls
pub mod Apply
pub mod Invariant
pub mod Scheduled
pub mod Opening
pub mod Tuning
pub mod Timer
pub mod Messages
pub mod Runs
pub mod Frames
pub mod Watchdog
pub mod Reports
pub mod Preserved
pub mod Truthful
pub mod Released
use cw_buddy.Base.{
  Bool, true, false, ◌&&◌, ◌||◌, not, Option, none, some, if◌then◌else◌, is_none, ℕ, ◌+◌, ◌-◌, ◌/◌,
  ltb, leb, ◌==◌, u64, u64_max, List, [], ◌∷◌, min, suc,
}
use cw_buddy.Text.{Text}
use cw_buddy.Encoder.{Plan}
use cw_buddy.Scheduler
use cw_buddy.Scheduler.{
  Scheduler, Config, LineState, SchedulerState, completed, is_running, is_idle, new_scheduler,
  AdvanceResult, no_change, transition, faulted,
}
use cw_buddy.Keying.{
  Line, line_eq, is_blank, is_active, is_inactive, KeyingConfig, Snapshot, Fault, Backend, Adapter,
  Role, ptt_role, key_role, set_logical_line, new_adapter, set_ptt, set_key, release_all, close,
  open_adapter, handle_backend_error,
}

pub record EngineConfig : Type 0 where
  pub keying : KeyingConfig
  pub scheduler : Config
  pub maximum_tune_duration_ns : ℕ

pub data Status : Type 0 where
  initializing configured_and_closed config_invalid not_configured open_inactive not_known_inactive
        confirmation_required must_be_open not_reusable cannot_start transmitting no_transmission
        cannot_cancel transmission_cancelled authorization_required needs_idle no_deadline
        cannot_tune tune_active tune_not_active cannot_release_tune tune_released
        emergency_completed clock_failed adapter_unknown key_without_ptt ptt_before_key
        adapter_failed adapter_closed tune_inactive tune_expired missed_deadline message_completed :
      Status
  keying_fault : Fault → Status

pub record Engine (Port : Type 0) : Type 0 where
  pub adapter : Adapter Port
  pub config : EngineConfig
  pub scheduler : Scheduler
  pub status : Status
  pub configured : Bool
  pub fault : Bool
  pub tuning : Bool
  pub tune_deadline_ns : ℕ
  pub activity_start_ns : ℕ
  pub activity_total_ns : ℕ
  pub revision : ℕ
  -- The delay in milliseconds of the timer, where it runs.
  pub timer : Option ℕ
  -- The number of readings of the clock so far.
  pub readings : ℕ

abbrev pub adapter_health_poll_ms : ℕ
adapter_health_poll_ms = 10

abbrev pub maximum_permitted_tune_duration_ns : ℕ
maximum_permitted_tune_duration_ns = 15000000000

unfoldable pub valid_keying_config : KeyingConfig → Bool
valid_keying_config c =
    not (is_blank c.port_name)
    && (not (line_eq c.ptt_line c.key_line) && (c.ptt_active_high && c.key_active_high))

unfoldable pub valid_engine_config : EngineConfig → Bool
valid_engine_config c =
    valid_keying_config c.keying
    && (ltb 0 c.maximum_tune_duration_ns
        && leb c.maximum_tune_duration_ns maximum_permitted_tune_duration_ns)

abbrev pub status_of : Option Fault → Status → Status
status_of none default = default
status_of (some f) default = keying_fault f

module _ {Port : Type 0} where
  abbrev pub publish : Engine Port → Engine Port
  publish e = record e { revision = u64 (e.revision + 1) }

  abbrev pub with_status : Status → Engine Port → Engine Port
  with_status status e = record e { status = status }

  -- `status_ = …; publish(); return {false, state()};`
  abbrev pub refuse : Status → Engine Port → Engine Port × Bool
  refuse status e = (publish (with_status status e), false)

  abbrev pub stop_timer : Engine Port → Engine Port
  stop_timer e = record e { timer = none }

  abbrev pub clear_activity_timing : Engine Port → Engine Port
  clear_activity_timing e = record e { activity_start_ns = 0; activity_total_ns = 0 }

  -- The timer and the state of TUNE that several calls give up first.
  abbrev pub stop_activity : Engine Port → Engine Port
  stop_activity e = record e {
    timer = none;
    tuning = false;
    tune_deadline_ns = 0;
    activity_start_ns = 0;
    activity_total_ns = 0;
  }

  abbrev pub hardware : Engine Port → Snapshot
  hardware e = e.adapter.snapshot

  unfoldable pub adapter_known_inactive : Engine Port → Bool
  adapter_known_inactive e =
      (hardware e).open_safe
      && (not (hardware e).fault_or_unknown
          && (is_inactive (hardware e).ptt && is_inactive (hardware e).key))

module _ (b : Backend) (clock : ℕ → Option ℕ) where
  open b use {Port}

  -- `nsecsElapsed`, and 0 for a negative reading.
  abbrev pub sample : Engine Port → ℕ
  sample e = elim (clock e.readings) [ none ↦ 0 | some now ↦ now ]

  abbrev pub sampled : Engine Port → Engine Port
  sampled e = record e { readings = e.readings + 1 }

  -- The scheduler's pending release, applied to the scheduler alone.
  unfoldable pub advance_pending : Engine Port → Engine Port
  advance_pending e =
      if e.scheduler.release_pending
      then record (sampled e) { scheduler = (Scheduler.advance (sample e) e.scheduler).0 }
      else e

  -- A negative reading within it is a fault that is already being handled.
  unfoldable pub fault_engine : Status → Engine Port → Engine Port
  fault_engine error e =
      let stopped = stop_activity e in
      let released = record stopped {
        scheduler = Scheduler.emergency_release e.scheduler;
        adapter = (release_all b e.adapter).0;
      } in
      publish (record (advance_pending released) { fault = true; status = error })

  unfoldable pub monotonic_now : Engine Port → Engine Port
  monotonic_now e = elim (clock e.readings) [
    | none ↦ fault_engine clock_failed (sampled e)
    | some now ↦ sampled e
  ]

  unfoldable pub adapter_failure : Engine Port → Engine Port × Bool
  adapter_failure e = (fault_engine (status_of (hardware e).fault adapter_failed) e, false)

  -- The outcome of writes to the adapter: `none`, or the status that the worker is faulted with.
  abbrev pub Written : Type 0
  Written = Adapter Port × Option Status

  unfoldable pub write_line : Role → Bool → Adapter Port → Written
  write_line role asserted a =
      let result = set_logical_line b role asserted a in
      (
        result.0,
        if result.1 then none else some (status_of (result.0).snapshot.fault adapter_failed),
      )

  unfoldable pub assert_ptt : LineState → Adapter Port → Written
  assert_ptt desired a =
      if desired.ptt && not (is_active a.snapshot.ptt)
      then write_line ptt_role true a
      else (a, none)

  unfoldable pub remove_key : LineState → Adapter Port → Written
  remove_key desired a =
      if not desired.key && is_active a.snapshot.key then write_line key_role false a else (a, none)

  unfoldable pub assert_key : LineState → Adapter Port → Written
  assert_key desired a =
      if desired.key && not (is_active a.snapshot.key)
      then if not desired.ptt || not (is_active a.snapshot.ptt)
        then (a, some key_without_ptt)
        else write_line key_role true a
      else (a, none)

  unfoldable pub remove_ptt : LineState → Adapter Port → Written
  remove_ptt desired a =
      if not desired.ptt && is_active a.snapshot.ptt
      then if is_active a.snapshot.key
        then (a, some ptt_before_key)
        else write_line ptt_role false a
      else (a, none)

  -- The next writes, unless there was a fault.
  abbrev pub and_then : Written → (Adapter Port → Written) → Written
  and_then (a, none) next = next a
  and_then (a, some error) next = (a, some error)

  unfoldable pub apply_lines : LineState → Adapter Port → Written
  apply_lines desired a =
      if a.snapshot.fault_or_unknown || not a.snapshot.open_safe
      then (a, some (status_of a.snapshot.fault adapter_unknown))
      else and_then
          (and_then (and_then (assert_ptt desired a) (remove_key desired)) (assert_key desired))
          (remove_ptt desired)

  unfoldable pub settle : Engine Port → Written → Engine Port × Bool
  settle e (a, none) = (record e { adapter = a }, true)
  settle e (a, some error) = (fault_engine error (record e { adapter = a }), false)

  unfoldable pub apply_desired_lines : Engine Port → Engine Port × Bool
  apply_desired_lines e = settle e (apply_lines e.scheduler.lines e.adapter)

  -- An advance of the scheduler by the clock, whose result the caller does not read.
  unfoldable pub advance_now : Engine Port → Engine Port
  advance_now e =
      let timed = monotonic_now e in
      record timed { scheduler = (Scheduler.advance (sample e) timed.scheduler).0 }

  unfoldable pub drain_scheduler_release : Engine Port → Engine Port
  drain_scheduler_release e =
      let released =
        if is_running e.scheduler.state
        then (apply_desired_lines
            (record e { scheduler = Scheduler.emergency_release e.scheduler })).0
        else e in
      if released.scheduler.release_pending
      then (apply_desired_lines (advance_now released)).0
      else released

  unfoldable pub close_internal : Bool → Engine Port → Engine Port
  close_internal preserve_fault e =
      let stopped = stop_activity e in
      let drained =
        if (hardware stopped).open_safe then drain_scheduler_release stopped else stopped in
      record drained {
        adapter = close b drained.adapter;
        fault = if preserve_fault then drained.fault else false;
        status = adapter_closed;
      }

  abbrev pub round_up_ms : ℕ → ℕ
  round_up_ms remaining_ns = min (u64 (remaining_ns + 999999) / 1000000) adapter_health_poll_ms

  abbrev pub until : ℕ → ℕ → ℕ
  until deadline_ns now_ns = if ltb now_ns deadline_ns then deadline_ns - now_ns else 0

  unfoldable pub schedule_timer : Engine Port → Engine Port
  schedule_timer e =
      if e.tuning
      then record (monotonic_now e) {
        timer = some (round_up_ms (until (monotonic_now e).tune_deadline_ns (sample e)));
      }
      else if not (is_running e.scheduler.state)
      then stop_timer e
      else record (monotonic_now e) {
        timer =
            some (round_up_ms (until (monotonic_now e).scheduler.next_transition_ns (sample e)));
      }
