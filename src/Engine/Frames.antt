-- ===== src/Engine/Frames.antt =====
-- What the calls of the worker of src/desktop/transmit/direct_transmit_engine.cpp do to the
-- deadline of TUNE.
use cw_buddy.Base.{
  u64, if_both, ◌≡◌, ◌∙◌, Bool, true, false, Option, none, some, if◌then◌else◌, ℕ, ◌+◌, inl, inr,
  arith, Option-cases,
}
use cw_buddy.Encoder.{Plan}
use cw_buddy.Scheduler
use cw_buddy.Scheduler.{
  Phase, lead, spans_phase, hang, no_phase, default_config, Scheduler, Config, AdvanceResult,
  no_change, transition, faulted, is_running, is_idle, new_scheduler, starts, advances, cancels,
  releases, resets, step,
}
use cw_buddy.Keying.{Backend, Adapter, release_all}
use cw_buddy.Engine.{
  settle, apply_lines, cannot_start, not_reusable, cannot_cancel, tune_inactive, tune_expired,
  missed_deadline, status_of, adapter_failed, cannot_release_tune, EngineConfig, Engine, Status,
  hardware, publish, stop_timer, stop_activity, fault_engine, monotonic_now, adapter_failure,
  apply_desired_lines, advance_now, drain_scheduler_release, close_internal, schedule_timer,
  sampled, sample,
}
use cw_buddy.Engine.Calls.{
  configure, opened, reopen, open_safe, start_idle, start, stop_tune, finish_cancel, cancel,
  start_tune, emergency_release, watch_tune, finish_timer, advanced, handle_timer,
}
use cw_buddy.Engine.Invariant.{fault_engine_tuning}
use cw_buddy.Engine.Calls.{begun, timed_activity, cancelled}

module _ (b : Backend) (clock : ℕ → Option ℕ) where
  open b use {Port}

  -- Where TUNE is on afterwards it was on before, with the same deadline.
  pub record Frame (e later : Engine Port) : Type 0 where
    pub kept :
        later.tuning ≡ true → (e.tuning ≡ true) × (later.tune_deadline_ns ≡ e.tune_deadline_ns)

  same-Frame : (e : Engine Port) → Frame e e
  same-Frame e = ground arith

  Frame-trans : (e m later : Engine Port) → Frame e m → Frame m later → Frame e later
  Frame-trans e m later h k = record {
    kept = λ on.
        let (was, same) = k.kept on in let (first, equal) = h.kept was in (first, same ∙ equal);
  }

  fault-Frame : (error : Status) (e m : Engine Port) → Frame e (fault_engine b clock error m)
  fault-Frame error e m = ground (arith, fault_engine_tuning b clock error m)

  pub now-Frame : (e : Engine Port) → Frame e (monotonic_now b clock e)
  unfolding monotonic_now
  now-Frame e = elim (Option-cases (clock e.readings)) [
    | inl n ↦ rw (n, monotonic_now) (fault-Frame _ e (sampled b clock e))
    | inr (now, n) ↦ rw (n, monotonic_now) (ground arith)
  ]

  settle-Frame :
      (e : Engine Port) (w : Adapter Port × Option Status) → Frame e (settle b clock e w).0
  unfolding settle
  settle-Frame e (a, none) = ground arith
  settle-Frame e (a, some error) = fault-Frame error e (record e { adapter = a })

  apply-Frame : (e : Engine Port) → Frame e (apply_desired_lines b clock e).0
  unfolding apply_desired_lines
  apply-Frame e = settle-Frame e (apply_lines b clock e.scheduler.lines e.adapter)

  pub timer-Frame : (e : Engine Port) → Frame e (schedule_timer b clock e)
  unfolding schedule_timer
  timer-Frame e = ground (arith, now-Frame e)

  advance_now-Frame : (e : Engine Port) → Frame e (advance_now b clock e)
  unfolding advance_now
  advance_now-Frame e = ground (arith, now-Frame e)

  drain-Frame : (e : Engine Port) → Frame e (drain_scheduler_release b clock e)
  unfolding drain_scheduler_release
  drain-Frame e =
      let released = record e { scheduler = Scheduler.emergency_release e.scheduler } in
      let first : Frame e
          (if is_running e.scheduler.state then (apply_desired_lines b clock released).0 else e) =
        if_both (Frame e) (is_running e.scheduler.state) _ e (ground (arith, apply-Frame released))
          (same-Frame e) in
      if_both (Frame e) _ _ _
        (Frame-trans e _ _ first (Frame-trans _ _ _ (advance_now-Frame _) (apply-Frame _))) first

  pub close_internal-Frame :
      (preserve : Bool) (e : Engine Port) → Frame e (close_internal b clock preserve e)
  unfolding close_internal
  close_internal-Frame preserve e = ground (arith, drain-Frame (stop_activity e))

  pub configure-Frame :
      (config : EngineConfig) (e : Engine Port) → Frame e (configure b clock config e)
  unfolding configure
  configure-Frame config e = ground (arith, close_internal-Frame false e)

  opened-Frame : (ok : Bool) (e : Engine Port) → Frame e (opened b clock ok e).0
  unfolding opened
  opened-Frame ok e = ground arith

  reopen-Frame : (e : Engine Port) → Frame e (reopen b clock e).0
  unfolding reopen
  reopen-Frame e =
      let before : Frame e (stop_timer e) = ground arith in
      let drained = Frame-trans e (stop_timer e) _ before (drain-Frame (stop_timer e)) in
      Frame-trans e _ _ (Frame-trans e _ _ drained (ground arith)) (opened-Frame _ _)

  pub open_safe-Frame : (e : Engine Port) → Frame e (open_safe b clock e).0
  unfolding open_safe
  open_safe-Frame e = ground (arith, reopen-Frame e)

  -- Where TUNE is on after the call of another branch, it is off.
  pub stop_tune-Frame : (e : Engine Port) → Frame e (stop_tune b clock e).0
  unfolding stop_tune
  stop_tune-Frame e = ground (
    arith,
    fault_engine_tuning b clock cannot_release_tune (record e {
      timer = none;
      tuning = false;
      tune_deadline_ns = 0;
      adapter = (release_all b e.adapter).0;
    }),
  )

  finish_cancel-Frame : (e : Engine Port) → Frame e (finish_cancel b clock e).0
  unfolding finish_cancel
  finish_cancel-Frame e =
      ground (arith, Frame-trans e _ _ (advance_now-Frame e) (apply-Frame (advance_now b clock e)))

  cancelled-Frame : (e : Engine Port) → Frame e (cancelled b clock e)
  unfolding cancelled
  cancelled-Frame e = ground arith

  pub cancel-Frame : (e : Engine Port) → Frame e (cancel b clock e).0
  unfolding cancel cancelled
  cancel-Frame e = ground (
    arith,
    stop_tune-Frame e,
    fault-Frame cannot_cancel e (cancelled b clock e),
    fault-Frame cannot_cancel e (apply_desired_lines b clock (cancelled b clock e)).0,
    Frame-trans e (cancelled b clock e) _ (cancelled-Frame e) (apply-Frame (cancelled b clock e)),
    Frame-trans e _ _
        (Frame-trans e (cancelled b clock e) _ (cancelled-Frame e)
          (apply-Frame (cancelled b clock e)))
        (finish_cancel-Frame (apply_desired_lines b clock (cancelled b clock e)).0),
  )

  pub emergency_release-Frame : (e : Engine Port) → Frame e (emergency_release b clock e)
  unfolding emergency_release
  emergency_release-Frame e =
      let released = record (stop_activity e) {
        scheduler = Scheduler.emergency_release e.scheduler;
      } in
      let first : Frame e released = ground arith in
      let key = Frame-trans e _ _ first (apply-Frame released) in
      let ptt = Frame-trans e _ _ key (
        Frame-trans _ _ _ (advance_now-Frame (apply_desired_lines b clock released).0)
          (apply-Frame (advance_now b clock (apply_desired_lines b clock released).0))) in
      ground (arith, ptt)

  finish_timer-Frame : (e : Engine Port) → Frame e (finish_timer b clock e)
  unfolding finish_timer
  finish_timer-Frame e = Frame-trans e _ _ (ground arith) (timer-Frame _)

  watch_tune-Frame : (now_ns : ℕ) (e : Engine Port) → Frame e (watch_tune b clock now_ns e)
  unfolding watch_tune
  watch_tune-Frame now_ns e = ground (arith, fault-Frame tune_expired e e, timer-Frame (publish e))

  advanced-Frame : (result : AdvanceResult) (e : Engine Port) → Frame e (advanced b clock result e)
  unfolding advanced
  advanced-Frame faulted e = fault-Frame missed_deadline e e
  advanced-Frame no_change e = finish_timer-Frame e
  advanced-Frame transition e =
      if_both (Frame e) _ _ _ (Frame-trans e _ _ (apply-Frame e) (finish_timer-Frame _))
        (apply-Frame e)

  pub handle_timer-Frame : (e : Engine Port) → Frame e (handle_timer b clock e)
  unfolding handle_timer adapter_failure
  handle_timer-Frame e =
      let now = sample b clock e in
      let timed = monotonic_now b clock e in
      let moved = record timed { scheduler = (Scheduler.advance now timed.scheduler).0 } in
      let moves : Frame e moved = ground (arith, now-Frame e) in
      ground (
        arith,
        fault-Frame (status_of (hardware e).fault adapter_failed) e e,
        fault-Frame tune_inactive e e,
        Frame-trans e timed _ (now-Frame e) (watch_tune-Frame now timed),
        Frame-trans e moved _ moves
            (advanced-Frame (Scheduler.advance now timed.scheduler).1 moved),
      )

  begun-Frame : (plan : Plan) (e : Engine Port) → Frame e (begun b clock plan e)
  unfolding begun
  begun-Frame plan e = ground (arith, now-Frame e)

  timed_activity-Frame :
      (start_ns total_ns : ℕ) (e : Engine Port)
      → Frame e (publish (schedule_timer b clock (timed_activity b clock start_ns total_ns e)))
  unfolding timed_activity
  timed_activity-Frame start_ns total_ns e =
      ground (arith, timer-Frame (timed_activity b clock start_ns total_ns e))

  start_idle-Frame : (plan : Plan) (e : Engine Port) → Frame e (start_idle b clock plan e).0
  unfolding start_idle begun timed_activity
  start_idle-Frame plan e =
      let applied = apply_desired_lines b clock (begun b clock plan e) in
      let frame = Frame-trans e _ _ (begun-Frame plan e) (apply-Frame (begun b clock plan e)) in
      ground (
        arith,
        now-Frame e,
        fault-Frame cannot_start e (begun b clock plan e),
        fault-Frame cannot_start e applied.0,
        frame,
        Frame-trans e _ _ frame (
            timed_activity-Frame (sample b clock e)
              (u64 (
                applied.0.config.scheduler.ptt_lead_ns + plan.total_duration_ns
                + applied.0.config.scheduler.ptt_hang_ns))
              applied.0),
      )

  pub start-Frame :
      (plan : Plan) (confirmed : Bool) (e : Engine Port)
      → Frame e (start b clock plan confirmed e).0
  unfolding start
  start-Frame plan confirmed e =
      let was_reset = record e { scheduler = (Scheduler.reset e.scheduler).0 } in
      ground (
        arith,
        start_idle-Frame plan e,
        fault-Frame not_reusable e was_reset,
        start_idle-Frame plan was_reset,
      )

  -- TUNE is not started anew while it is on.
  pub start_tune_again :
      (authorized : Bool) (e : Engine Port)
      → e.tuning ≡ true
      → (start_tune b clock authorized e).0.tune_deadline_ns ≡ e.tune_deadline_ns
  unfolding start_tune
  start_tune_again authorized e h = ground (arith, h)
