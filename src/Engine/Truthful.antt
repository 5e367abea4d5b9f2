-- ===== src/Engine/Truthful.antt =====
-- What the worker of src/desktop/transmit/direct_transmit_engine.cpp reports of its lines, against
-- the levels of the port.
use cw_buddy.Base.{
  u64, ◌+◌, not, ◌||◌, if_both, Bool, true, false, Option, if◌then◌else◌, ℕ, List, [], ◌∷◌, arith,
}
use cw_buddy.Encoder.{Plan}
use cw_buddy.Scheduler
use cw_buddy.Scheduler.{AdvanceResult, no_change, transition, faulted, is_running, LineState}
use cw_buddy.Keying.{
  Line, Backend, ptt_role, key_role, handle_backend_error, is_active, device_error, or_else,
  new_adapter,
}
use cw_buddy.Keying.Wire.{
  IsWired, IsTruthful, release_all-IsTruthful, set_logical_line-IsTruthful, close-IsTruthful,
  fault_and_close-IsTruthful,
}
use cw_buddy.Keying.Opened.{open_adapter-IsTruthful}
use cw_buddy.Engine.{
  Engine, EngineConfig, Status, apply_desired_lines, advance_now, drain_scheduler_release,
  close_internal, fault_engine, monotonic_now, schedule_timer, adapter_failure, stop_timer, sample,
  cannot_start, cannot_cancel, authorization_required, needs_idle, not_reusable,
  confirmation_required, must_be_open, no_transmission, no_deadline, cannot_tune, tune_inactive,
  adapter_failed, status_of, hardware, publish, refuse,
}
use cw_buddy.Engine.Calls.{
  new_engine, configure, opened, reopen, open_safe, begun, timed_activity, start_idle, start,
  stop_tune, finish_cancel, cancelled, cancel, assert_tune, tuned, start_tune_at, start_tune,
  emergency_release, close_blocking, watch_tune, finish_timer, advanced, handle_timer, port_error,
}
use cw_buddy.Engine.Preserved.{
  fault_engine_keeps, monotonic_now_keeps, apply_desired_lines_keeps, applied_later, drain_keeps,
  schedule_timer_keeps, emergency_release_keeps,
}
use cw_buddy.Engine.Runs.{
  Event, configures, opens, cancels_activity, stops_tune, releases_all, closes, fires, starts_plan,
  starts_tune, fails, happens, after,
}

module _ (b : Backend) (clock : ℕ → Option ℕ) (level : Line → b.Port → Bool)
    (wired : IsWired b level) where
  open b use {Port}

  -- The worker's adapter reports the truth.
  abbrev pub Truthful : Engine Port → Type 0
  Truthful e = IsTruthful b level wired e.adapter

  abbrev Done : Engine Port × Bool → Type 0
  Done w = Truthful w.0

  fault_engine-Truthful :
      (error : Status) (e : Engine Port) → Truthful e → Truthful (fault_engine b clock error e)
  fault_engine-Truthful error e h =
      fault_engine_keeps b clock (IsTruthful b level wired)
        (set_logical_line-IsTruthful b level wired) (release_all-IsTruthful b level wired) error e h

  monotonic_now-Truthful : (e : Engine Port) → Truthful e → Truthful (monotonic_now b clock e)
  monotonic_now-Truthful e h =
      monotonic_now_keeps b clock (IsTruthful b level wired)
        (set_logical_line-IsTruthful b level wired) (release_all-IsTruthful b level wired) e h

  apply_desired_lines-Done : (e : Engine Port) → Truthful e → Done (apply_desired_lines b clock e)
  apply_desired_lines-Done e h =
      apply_desired_lines_keeps b clock (IsTruthful b level wired)
        (set_logical_line-IsTruthful b level wired) (release_all-IsTruthful b level wired) e h

  advance_now-Done :
      (e : Engine Port) → Truthful e → Done (apply_desired_lines b clock (advance_now b clock e))
  advance_now-Done e h =
      applied_later b clock (IsTruthful b level wired) (set_logical_line-IsTruthful b level wired)
        (release_all-IsTruthful b level wired) e h

  drain-Truthful : (e : Engine Port) → Truthful e → Truthful (drain_scheduler_release b clock e)
  drain-Truthful e h =
      drain_keeps b clock (IsTruthful b level wired) (set_logical_line-IsTruthful b level wired)
        (release_all-IsTruthful b level wired) e h

  schedule_timer-Truthful : (e : Engine Port) → Truthful e → Truthful (schedule_timer b clock e)
  schedule_timer-Truthful e h =
      schedule_timer_keeps b clock (IsTruthful b level wired)
        (set_logical_line-IsTruthful b level wired) (release_all-IsTruthful b level wired) e h

  pub emergency_release-Truthful :
      (e : Engine Port) → Truthful e → Truthful (emergency_release b clock e)
  emergency_release-Truthful e h =
      emergency_release_keeps b clock (IsTruthful b level wired)
        (set_logical_line-IsTruthful b level wired) (release_all-IsTruthful b level wired) e h

  close_internal-Truthful :
      (preserve : Bool) (e : Engine Port)
      → Truthful e
      → Truthful (close_internal b clock preserve e)
  unfolding close_internal
  close_internal-Truthful preserve e h =
      close-IsTruthful b level wired _ (if_both Truthful _ _ _ (drain-Truthful _ h) h)

  configure-Truthful :
      (config : EngineConfig) (e : Engine Port) → Truthful e → Truthful (configure b clock config e)
  unfolding configure
  configure-Truthful config e h = close_internal-Truthful false e h

  opened-Done : (ok : Bool) (e : Engine Port) → Truthful e → Done (opened b clock ok e)
  unfolding opened
  opened-Done ok e h = h

  reopen-Done : (e : Engine Port) → Truthful e → Done (reopen b clock e)
  unfolding reopen
  reopen-Done e h = opened-Done _ _ (
      open_adapter-IsTruthful b level wired _ _
        (close-IsTruthful b level wired _ (drain-Truthful (stop_timer e) h)))

  open_safe-Done : (e : Engine Port) → Truthful e → Done (open_safe b clock e)
  unfolding open_safe
  open_safe-Done e h = if_both Done _ _ _ h (reopen-Done e h)

  begun-Truthful : (plan : Plan) (e : Engine Port) → Truthful e → Truthful (begun b clock plan e)
  unfolding begun
  begun-Truthful plan e h = monotonic_now-Truthful e h

  start_idle-Done : (plan : Plan) (e : Engine Port) → Truthful e → Done (start_idle b clock plan e)
  unfolding start_idle timed_activity
  start_idle-Done plan e h =
      let begins = begun-Truthful plan e h in
      let applied = apply_desired_lines b clock (begun b clock plan e) in
      let told = apply_desired_lines-Done (begun b clock plan e) begins in
      let timed = monotonic_now b clock e in
      let active =
        timed_activity b clock (sample b clock e)
          (u64 (
            applied.0.config.scheduler.ptt_lead_ns + plan.total_duration_ns
            + applied.0.config.scheduler.ptt_hang_ns))
          applied.0 in
      if_both Done _ (timed, false) _ (monotonic_now-Truthful e h)
        (if_both Done _ (fault_engine b clock cannot_start (begun b clock plan e), false) _
          (fault_engine-Truthful cannot_start (begun b clock plan e) begins)
          (if_both Done _
            (
              if applied.0.fault then applied.0 else fault_engine b clock cannot_start applied.0,
              false,
            )
            (publish (schedule_timer b clock active), true)
            (if_both Truthful applied.0.fault applied.0
              (fault_engine b clock cannot_start applied.0) told
              (fault_engine-Truthful cannot_start applied.0 told))
            (schedule_timer-Truthful active told)))

  start-Done :
      (plan : Plan) (confirmed : Bool) (e : Engine Port)
      → Truthful e
      → Done (start b clock plan confirmed e)
  unfolding start
  start-Done plan confirmed e h =
      let was_reset = record e { scheduler = (Scheduler.reset e.scheduler).0 } in
      let reused =
        if_both Done _ (fault_engine b clock not_reusable was_reset, false)
          (start_idle b clock plan was_reset) (fault_engine-Truthful not_reusable was_reset h)
          (start_idle-Done plan was_reset h) in
      if_both Done _ (refuse confirmation_required e) _ h (
        if_both Done _ (refuse must_be_open (record e { fault = true })) _ h
          (if_both Done _ (start_idle b clock plan e) _ (start_idle-Done plan e h) reused))

  stop_tune-Done : (e : Engine Port) → Truthful e → Done (stop_tune b clock e)
  unfolding stop_tune
  stop_tune-Done e h =
      let released = release_all-IsTruthful b level wired e.adapter h in
      if_both Done _ _ _ h (if_both Done _ _ _ (fault_engine-Truthful _ _ released) released)

  finish_cancel-Done : (e : Engine Port) → Truthful e → Done (finish_cancel b clock e)
  unfolding finish_cancel
  finish_cancel-Done e h =
      let applied = advance_now-Done e h in
      if_both Done _ _ _ (if_both Done _ _ _ applied applied) h

  cancelled-Truthful : (e : Engine Port) → Truthful e → Truthful (cancelled b clock e)
  unfolding cancelled
  cancelled-Truthful e h = h

  cancel-Done : (e : Engine Port) → Truthful e → Done (cancel b clock e)
  unfolding cancel
  cancel-Done e h =
      let stopped = cancelled b clock e in
      let applied = apply_desired_lines b clock stopped in
      let first = cancelled-Truthful e h in
      let told = apply_desired_lines-Done stopped first in
      if_both Done _ (stop_tune b clock e) _ (stop_tune-Done e h) (
        if_both Done _ (refuse no_transmission e) _ h (
          if_both Done _
            (if e.fault then stopped else fault_engine b clock cannot_cancel stopped, false) _
            (if_both Truthful e.fault stopped (fault_engine b clock cannot_cancel stopped) first
              (fault_engine-Truthful cannot_cancel stopped first))
            (if_both Done _
              (
                if applied.0.fault then applied.0 else fault_engine b clock cannot_cancel applied.0,
                false,
              )
              (finish_cancel b clock applied.0)
              (if_both Truthful applied.0.fault applied.0
                (fault_engine b clock cannot_cancel applied.0) told
                (fault_engine-Truthful cannot_cancel applied.0 told))
              (finish_cancel-Done applied.0 told))))

  assert_tune-Done : (e : Engine Port) → Truthful e → Done (assert_tune b clock e)
  unfolding assert_tune
  assert_tune-Done e h =
      let ptt = set_logical_line-IsTruthful b level wired ptt_role true e.adapter h in
      if_both Done _ _ _ ptt (set_logical_line-IsTruthful b level wired key_role true _ ptt)

  tuned-Truthful :
      (now_ns maximum : ℕ) (e : Engine Port)
      → Truthful e
      → Truthful (tuned b clock now_ns maximum e)
  unfolding tuned
  tuned-Truthful now_ns maximum e h = h

  start_tune_at-Done :
      (now_ns : ℕ) (e : Engine Port) → Truthful e → Done (start_tune_at b clock now_ns e)
  unfolding start_tune_at
  start_tune_at-Done now_ns e h =
      let asserted = assert_tune b clock e in
      let told = assert_tune-Done e h in
      let tuning = tuned b clock now_ns e.config.maximum_tune_duration_ns asserted.0 in
      if_both Done _ (fault_engine b clock no_deadline e, false) _
        (fault_engine-Truthful no_deadline e h)
        (if_both Done _ (fault_engine b clock cannot_tune asserted.0, false)
          (schedule_timer b clock tuning, true) (fault_engine-Truthful cannot_tune asserted.0 told)
          (schedule_timer-Truthful tuning (tuned-Truthful now_ns _ asserted.0 told)))

  start_tune-Done :
      (authorized : Bool) (e : Engine Port) → Truthful e → Done (start_tune b clock authorized e)
  unfolding start_tune
  start_tune-Done authorized e h =
      let timed = monotonic_now b clock e in
      if_both Done _ (refuse authorization_required e) _ h (
        if_both Done _ (refuse needs_idle e) (start_tune_at b clock (sample b clock e) timed) h
          (start_tune_at-Done (sample b clock e) timed (monotonic_now-Truthful e h)))

  finish_timer-Truthful : (e : Engine Port) → Truthful e → Truthful (finish_timer b clock e)
  unfolding finish_timer
  finish_timer-Truthful e h = schedule_timer-Truthful _ (if_both Truthful _ _ _ h h)

  watch_tune-Truthful :
      (now_ns : ℕ) (e : Engine Port) → Truthful e → Truthful (watch_tune b clock now_ns e)
  unfolding watch_tune
  watch_tune-Truthful now_ns e h =
      if_both Truthful _ _ _ (fault_engine-Truthful _ e h) (schedule_timer-Truthful _ h)

  advanced-Truthful :
      (result : AdvanceResult) (e : Engine Port) → Truthful e → Truthful (advanced b clock result e)
  unfolding advanced
  advanced-Truthful faulted e h = fault_engine-Truthful _ e h
  advanced-Truthful no_change e h = finish_timer-Truthful e h
  advanced-Truthful transition e h =
      let applied = apply_desired_lines-Done e h in
      if_both Truthful _ _ _ (finish_timer-Truthful _ applied) applied

  handle_timer-Truthful : (e : Engine Port) → Truthful e → Truthful (handle_timer b clock e)
  unfolding handle_timer adapter_failure
  handle_timer-Truthful e h =
      let timed = monotonic_now b clock e in
      let now = monotonic_now-Truthful e h in
      let result = Scheduler.advance (sample b clock e) timed.scheduler in
      let moved = record timed { scheduler = result.0 } in
      let failed = status_of (hardware e).fault adapter_failed in
      let idle = not (is_active (hardware e).ptt) || not (is_active (hardware e).key) in
      let tuning =
        if idle
        then fault_engine b clock tune_inactive e
        else watch_tune b clock (sample b clock e) timed in
      if_both Truthful (hardware e).fault_or_unknown (fault_engine b clock failed e)
        (if e.tuning then tuning else advanced b clock result.1 moved)
        (fault_engine-Truthful failed e h)
        (if_both Truthful e.tuning tuning (advanced b clock result.1 moved)
          (if_both Truthful idle (fault_engine b clock tune_inactive e)
            (watch_tune b clock (sample b clock e) timed) (fault_engine-Truthful tune_inactive e h)
            (watch_tune-Truthful (sample b clock e) timed now))
          (advanced-Truthful result.1 moved now))

  happens-Truthful :
      (event : Event) (e : Engine Port) → Truthful e → Truthful (happens b clock event e)
  unfolding happens close_blocking port_error handle_backend_error
  happens-Truthful (configures config) e h = configure-Truthful config e h
  happens-Truthful opens e h = open_safe-Done e h
  happens-Truthful cancels_activity e h = cancel-Done e h
  happens-Truthful stops_tune e h = stop_tune-Done e h
  happens-Truthful releases_all e h = emergency_release-Truthful e h
  happens-Truthful closes e h = close_internal-Truthful false e h
  happens-Truthful fires e h = handle_timer-Truthful e h
  happens-Truthful (starts_plan plan confirmed) e h = start-Done plan confirmed e h
  happens-Truthful (starts_tune authorized) e h = start_tune-Done authorized e h
  happens-Truthful (fails error) e h =
      fault_and_close-IsTruthful b level wired (or_else error device_error) true e.adapter h

  pub after-Truthful :
      (events : List Event) (e : Engine Port) → Truthful e → Truthful (after b clock events e)
  unfolding after
  after-Truthful [] e h = h
  after-Truthful (event ∷ events) e h =
      after-Truthful events (happens b clock event e) (happens-Truthful event e h)

  pub new_engine-Truthful : (port : Port) → Truthful (new_engine b clock port)
  unfolding new_engine new_adapter
  new_engine-Truthful port = ground arith
