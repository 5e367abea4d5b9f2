-- ===== src/Engine/Calls.antt =====
-- The calls of the worker of src/desktop/transmit/direct_transmit_engine.cpp.
use cw_buddy.Base.{
  Bool, true, false, ◌&&◌, ◌||◌, not, Option, none, if◌then◌else◌, ℕ, ◌+◌, ◌-◌, ltb, leb, u64,
  u64_max, [],
}
use cw_buddy.Text.{Text}
use cw_buddy.Encoder.{Plan}
use cw_buddy.Scheduler
use cw_buddy.Scheduler.{
  Scheduler, Config, SchedulerState, completed, is_running, is_idle, new_scheduler, default_config,
  AdvanceResult, no_change, transition, faulted,
}
use cw_buddy.Keying.{
  rts, dtr, is_active, KeyingConfig, Backend, new_adapter, set_ptt, set_key, release_all, close,
  open_adapter, handle_backend_error,
}
use cw_buddy.Engine.{
  maximum_permitted_tune_duration_ns, EngineConfig, Engine, initializing, configured_and_closed,
  config_invalid, not_configured, open_inactive, not_known_inactive, confirmation_required,
  must_be_open, not_reusable, cannot_start, transmitting, no_transmission, cannot_cancel,
  transmission_cancelled, authorization_required, needs_idle, no_deadline, cannot_tune, tune_active,
  tune_not_active, cannot_release_tune, tune_released, emergency_completed, tune_inactive,
  tune_expired, missed_deadline, message_completed, status_of, valid_engine_config, publish,
  with_status, refuse, stop_timer, clear_activity_timing, stop_activity, hardware,
  adapter_known_inactive, sample, fault_engine, monotonic_now, adapter_failure, apply_desired_lines,
  advance_now, drain_scheduler_release, close_internal, schedule_timer,
}

abbrev pub is_completed : SchedulerState → Bool
is_completed completed = true
is_completed _ = false

abbrev pub default_keying_config : KeyingConfig
default_keying_config = record {
  port_name = [];
  ptt_line = rts;
  key_line = dtr;
  ptt_active_high = true;
  key_active_high = true;
}

abbrev pub default_engine_config : EngineConfig
default_engine_config = record {
  keying = default_keying_config;
  scheduler = default_config;
  maximum_tune_duration_ns = maximum_permitted_tune_duration_ns;
}

module _ (b : Backend) (clock : ℕ → Option ℕ) where
  open b use {Port}

  -- The worker that `initialize` leaves.
  unfoldable pub new_engine : Port → Engine Port
  new_engine port = record {
    adapter = new_adapter b default_keying_config port;
    config = default_engine_config;
    scheduler = new_scheduler default_config;
    status = initializing;
    configured = false;
    fault = false;
    tuning = false;
    tune_deadline_ns = 0;
    activity_start_ns = 0;
    activity_total_ns = 0;
    revision = 1;
    timer = none;
    readings = 0;
  }

  unfoldable pub configure : EngineConfig → Engine Port → Engine Port
  configure config e = publish (record (close_internal b clock false e) {
    config = config;
    scheduler = new_scheduler config.scheduler;
    configured = valid_engine_config config;
    fault = not (valid_engine_config config);
    status = if valid_engine_config config then configured_and_closed else config_invalid;
  })

  -- What `openSafe` says of the adapter that it opened.
  unfoldable pub opened : Bool → Engine Port → Engine Port × Bool
  opened ok e =
      let known = ok && adapter_known_inactive e in
      (
        publish (record e {
          fault = not known;
          status = if known then open_inactive else status_of (hardware e).fault not_known_inactive;
        }),
        known,
      )

  -- The adapter is closed and opened anew.
  unfoldable pub reopen : Engine Port → Engine Port × Bool
  reopen e =
      let drained = drain_scheduler_release b clock (stop_timer e) in
      let result = open_adapter b drained.config.keying (close b drained.adapter) in
      opened result.1 (record drained { adapter = result.0 })

  unfoldable pub open_safe : Engine Port → Engine Port × Bool
  open_safe e =
      if not e.configured then refuse not_configured (record e { fault = true }) else reopen e

  -- The scheduler takes the plan at the time that the clock reads.
  unfoldable pub begun : Plan → Engine Port → Engine Port
  begun plan e = record (monotonic_now b clock e) {
    scheduler = (Scheduler.start plan (sample b clock e) (monotonic_now b clock e).scheduler).0;
  }

  unfoldable pub timed_activity : ℕ → ℕ → Engine Port → Engine Port
  timed_activity start_ns total_ns e = record e {
    status = transmitting;
    activity_start_ns = start_ns;
    activity_total_ns = total_ns;
  }

  -- `start` with a scheduler that is idle.
  unfoldable pub start_idle : Plan → Engine Port → Engine Port × Bool
  start_idle plan e =
      let now_ns = sample b clock e in
      let timed = monotonic_now b clock e in
      let applied = apply_desired_lines b clock (begun plan e) in
      if timed.fault
      then (timed, false)
      else if not (Scheduler.start plan now_ns timed.scheduler).1
      then (fault_engine b clock cannot_start (begun plan e), false)
      else if not applied.1
      then (
        if applied.0.fault then applied.0 else fault_engine b clock cannot_start applied.0,
        false,
      )
      else (
        publish (
            schedule_timer b clock (
              timed_activity now_ns
                (u64 (
                  applied.0.config.scheduler.ptt_lead_ns + plan.total_duration_ns
                  + applied.0.config.scheduler.ptt_hang_ns))
                applied.0)),
        true,
      )

  unfoldable pub start : Plan → Bool → Engine Port → Engine Port × Bool
  start plan exact_preview_confirmed e =
      if not exact_preview_confirmed
      then refuse confirmation_required e
      else if not (adapter_known_inactive e)
      then refuse must_be_open (record e { fault = true })
      else if is_idle e.scheduler.state
      then start_idle plan e
      else let (scheduler, done) = Scheduler.reset e.scheduler in
        if not done
        then (fault_engine b clock not_reusable (record e { scheduler = scheduler }), false)
        else start_idle plan (record e { scheduler = scheduler })

  unfoldable pub stop_tune : Engine Port → Engine Port × Bool
  stop_tune e =
      if not e.tuning
      then refuse tune_not_active e
      else let result = release_all b e.adapter in
        let stopped = record e {
          timer = none;
          tuning = false;
          tune_deadline_ns = 0;
          adapter = result.0;
        } in
        if not result.1
        then (fault_engine b clock cannot_release_tune stopped, false)
        else (publish (clear_activity_timing (with_status tune_released stopped)), true)

  -- The end of a cancellation whose lines were applied.
  abbrev pub cancelled_activity : Engine Port → Engine Port × Bool
  cancelled_activity e =
      (publish (clear_activity_timing (with_status transmission_cancelled e)), true)

  -- `cancel` of a message, once KEY is removed.
  unfoldable pub finish_cancel : Engine Port → Engine Port × Bool
  finish_cancel e =
      let released = apply_desired_lines b clock (advance_now b clock e) in
      if e.scheduler.release_pending
      then if released.1 then cancelled_activity released.0 else (released.0, false)
      else cancelled_activity e

  unfoldable pub cancelled : Engine Port → Engine Port
  cancelled e = record e { timer = none; scheduler = (Scheduler.cancel e.scheduler).0 }

  unfoldable pub cancel : Engine Port → Engine Port × Bool
  cancel e =
      let applied = apply_desired_lines b clock (cancelled e) in
      if e.tuning
      then stop_tune e
      else if not (is_running e.scheduler.state)
      then refuse no_transmission e
      else if not (Scheduler.cancel e.scheduler).1
      then (
        if e.fault then cancelled e else fault_engine b clock cannot_cancel (cancelled e),
        false,
      )
      else if not applied.1
      then (
        if applied.0.fault then applied.0 else fault_engine b clock cannot_cancel applied.0,
        false,
      )
      else finish_cancel applied.0

  -- Both lines on, in this order; the result says whether both are.
  unfoldable pub assert_tune : Engine Port → Engine Port × Bool
  assert_tune e =
      let ptt_result = set_ptt b true e.adapter in
      let key_result = set_key b true ptt_result.0 in
      if not ptt_result.1
      then (record e { adapter = ptt_result.0 }, false)
      else (record e { adapter = key_result.0 }, key_result.1)

  -- TUNE from now on, and its watchdog.
  unfoldable pub tuned : ℕ → ℕ → Engine Port → Engine Port
  tuned now_ns maximum e = publish (record e {
    tuning = true;
    tune_deadline_ns = now_ns + maximum;
    activity_start_ns = now_ns;
    activity_total_ns = maximum;
    status = tune_active;
  })

  unfoldable pub start_tune_at : ℕ → Engine Port → Engine Port × Bool
  start_tune_at now_ns e =
      let result = assert_tune e in
      if e.fault || ltb (u64_max - e.config.maximum_tune_duration_ns) now_ns
      then (fault_engine b clock no_deadline e, false)
      else if not result.1
      then (fault_engine b clock cannot_tune result.0, false)
      else (schedule_timer b clock (tuned now_ns e.config.maximum_tune_duration_ns result.0), true)

  unfoldable pub start_tune : Bool → Engine Port → Engine Port × Bool
  start_tune operator_authorized e =
      if not operator_authorized
      then refuse authorization_required e
      else if e.tuning || (is_running e.scheduler.state || not (adapter_known_inactive e))
      then refuse needs_idle e
      else start_tune_at (sample b clock e) (monotonic_now b clock e)

  unfoldable pub emergency_release : Engine Port → Engine Port
  emergency_release e =
      let stopped = stop_activity e in
      let released = record stopped { scheduler = Scheduler.emergency_release e.scheduler } in
      let key_removed = (apply_desired_lines b clock released).0 in
      let ptt_removed = (apply_desired_lines b clock (advance_now b clock key_removed)).0 in
      publish (record ptt_removed {
        adapter = (release_all b ptt_removed.adapter).0;
        fault = true;
        status = emergency_completed;
      })

  unfoldable pub close_blocking : Engine Port → Engine Port
  close_blocking e = publish (close_internal b clock false e)

  -- The timer while TUNE is on, after the clock was read.
  unfoldable pub watch_tune : ℕ → Engine Port → Engine Port
  watch_tune now_ns e =
      if leb e.tune_deadline_ns now_ns
      then fault_engine b clock tune_expired e
      else schedule_timer b clock (publish e)

  -- The end of a message, and the next delay.
  unfoldable pub finish_timer : Engine Port → Engine Port
  finish_timer e = schedule_timer b clock (
      publish (
        if is_completed e.scheduler.state
        then clear_activity_timing (with_status message_completed e)
        else e))

  -- What the timer does with the result of the advance.
  unfoldable pub advanced : AdvanceResult → Engine Port → Engine Port
  advanced faulted e = fault_engine b clock missed_deadline e
  advanced no_change e = finish_timer e
  advanced transition e =
      let applied = apply_desired_lines b clock e in
      if applied.1 then finish_timer applied.0 else applied.0

  unfoldable pub handle_timer : Engine Port → Engine Port
  handle_timer e =
      let timed = monotonic_now b clock e in
      let result = Scheduler.advance (sample b clock e) timed.scheduler in
      if (hardware e).fault_or_unknown
      then (adapter_failure b clock e).0
      else if e.tuning
      then if not (is_active (hardware e).ptt) || not (is_active (hardware e).key)
        then fault_engine b clock tune_inactive e
        else watch_tune (sample b clock e) timed
      else advanced result.1 (record timed { scheduler = result.0 })

  -- An error that the port reports by itself reaches the adapter, not the worker.
  unfoldable pub port_error : Text → Engine Port → Engine Port
  port_error error e = record e { adapter = handle_backend_error b error e.adapter }
