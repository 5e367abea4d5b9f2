-- ===== src/Engine/Messages.antt =====
-- The invariant of the worker of src/desktop/transmit/direct_transmit_engine.cpp:
-- messages begin and end, and the ends of all activity.
use cw_buddy.Base.{u64, ◌≡◌, Bool, true, false, Option, ℕ, ◌+◌, arith}
use cw_buddy.Text.{Text}
use cw_buddy.Encoder.{Plan}
use cw_buddy.Scheduler
use cw_buddy.Scheduler.{
  Phase, lead, spans_phase, hang, no_phase, default_config, Scheduler, Config, AdvanceResult,
  no_change, transition, faulted, is_running, is_idle, new_scheduler, starts, advances, cancels,
  releases, resets, step,
}
use cw_buddy.Keying.{or_else, device_error, Backend, release_all, handle_backend_error}
use cw_buddy.Keying.Lines.{release_all-IsQuiet, release_all_safe, fault_and_close-IsClosed}
use cw_buddy.Engine.{
  cannot_start, not_reusable, emergency_completed, cannot_cancel, Engine, publish, stop_activity,
  monotonic_now, apply_desired_lines, advance_now, schedule_timer, sample,
}
use cw_buddy.Engine.Calls.{
  cancelled_activity, start_idle, start, finish_cancel, cancel, emergency_release, close_blocking,
  port_error,
}
use cw_buddy.Engine.Invariant.{
  release-Inv, Core, EngineInv, IsAtRest, IsAtRest-Inv, monotonic_now-Inv, monotonic_now-Core,
  apply_desired_lines-IsApplied, close_internal-IsAtRest, advance_now-Core, schedule_timer-Inv,
}
use cw_buddy.Engine.Tuning.{stop_tune-Inv}
use cw_buddy.Engine.Invariant.{fault-Inv, publish-Inv}
use cw_buddy.Engine.Scheduled.{cancel-Inv, start-Inv, reset-Inv}
use cw_buddy.Engine.Calls.{begun, timed_activity, cancelled}

module _ (b : Backend) (clock : ℕ → Option ℕ) where
  open b use {Port}

  pub port_error-Inv :
      (error : Text) (e : Engine Port) → EngineInv e → EngineInv (port_error b clock error e)
  unfolding port_error handle_backend_error
  port_error-Inv error e v = IsAtRest-Inv _ (
      ground
        (arith, v.core, fault_and_close-IsClosed b (or_else error device_error) true e.adapter))

  pub close_blocking-Inv : (e : Engine Port) → EngineInv e → EngineInv (close_blocking b clock e)
  unfolding close_blocking
  close_blocking-Inv e v =
      publish-Inv b clock _ (IsAtRest-Inv _ (close_internal-IsAtRest b clock false e v.core))

  apply-Core : (e : Engine Port) → Core e → Core (apply_desired_lines b clock e).0
  apply-Core e c = (apply_desired_lines-IsApplied b clock e c).inv.core

  -- The release at the end of an emergency.
  emergency_end-IsAtRest :
      (e : Engine Port)
      → Core e
      → IsAtRest (
          publish (record e {
            adapter = (release_all b e.adapter).0;
            fault = true;
            status = emergency_completed;
          }))
  emergency_end-IsAtRest e c =
      ground (arith, c, release_all-IsQuiet b e.adapter, release_all_safe b e.adapter)

  begin_emergency-Core :
      (e : Engine Port)
      → Core e
      → Core (record (stop_activity e) { scheduler = Scheduler.emergency_release e.scheduler })
  begin_emergency-Core e c = ground (arith, c, release-Inv e.scheduler c.scheduled)

  pub emergency_release-IsAtRest :
      (e : Engine Port) → Core e → IsAtRest (emergency_release b clock e)
  unfolding emergency_release
  emergency_release-IsAtRest e c =
      emergency_end-IsAtRest _
        (apply-Core _ (advance_now-Core b clock _ (apply-Core _ (begin_emergency-Core e c))))

  cancelled_activity-Inv :
      (e : Engine Port) → EngineInv e → EngineInv (cancelled_activity b clock e).0
  cancelled_activity-Inv e v = ground (arith, v)

  finish_cancel-Inv : (e : Engine Port) → EngineInv e → EngineInv (finish_cancel b clock e).0
  unfolding finish_cancel
  finish_cancel-Inv e v =
      let applied = apply_desired_lines-IsApplied b clock _ (advance_now-Core b clock e v.core) in
      ground (
        arith,
        cancelled_activity-Inv e v,
        applied.inv,
        cancelled_activity-Inv (apply_desired_lines b clock (advance_now b clock e)).0 applied.inv,
      )

  cancelled-Core : (e : Engine Port) → Core e → Core (cancelled b clock e)
  unfolding cancelled
  cancelled-Core e c = ground (arith, c, cancel-Inv e.scheduler c.scheduled)

  cancel-running : (s : Scheduler) → is_running s.state ≡ true → (Scheduler.cancel s).1 ≡ true
  unfolding Scheduler.cancel
  cancel-running s h = ground (arith, h)

  pub cancel-EngineInv : (e : Engine Port) → EngineInv e → EngineInv (cancel b clock e).0
  unfolding cancel cancelled
  cancel-EngineInv e v =
      let core = cancelled-Core e v.core in
      let applied = apply_desired_lines-IsApplied b clock (cancelled b clock e) core in
      ground (
        arith,
        v,
        stop_tune-Inv b clock e v,
        cancel-running e.scheduler,
        fault-Inv b clock cannot_cancel (apply_desired_lines b clock (cancelled b clock e)).0
            applied.inv.core,
        applied.inv,
        finish_cancel-Inv (apply_desired_lines b clock (cancelled b clock e)).0 applied.inv,
      )

  begun-Core : (plan : Plan) (e : Engine Port) → Core e → Core (begun b clock plan e)
  unfolding begun
  begun-Core plan e c =
      let timed = monotonic_now-Core b clock e c in
      ground (
        arith,
        timed,
        start-Inv plan (sample b clock e) (monotonic_now b clock e).scheduler timed.scheduled,
      )

  timed_activity-Inv :
      (start_ns total_ns : ℕ) (e : Engine Port)
      → EngineInv e
      → EngineInv (publish (schedule_timer b clock (timed_activity b clock start_ns total_ns e)))
  unfolding timed_activity
  timed_activity-Inv start_ns total_ns e v =
      publish-Inv b clock _ (
        schedule_timer-Inv b clock (timed_activity b clock start_ns total_ns e) (ground (arith, v)))

  start_idle-Inv :
      (plan : Plan) (e : Engine Port) → EngineInv e → EngineInv (start_idle b clock plan e).0
  unfolding start_idle begun timed_activity
  start_idle-Inv plan e v =
      let core = begun-Core plan e v.core in
      let applied = apply_desired_lines-IsApplied b clock (begun b clock plan e) core in
      ground (
        arith,
        monotonic_now-Inv b clock e v,
        fault-Inv b clock cannot_start (begun b clock plan e) core,
        fault-Inv b clock cannot_start (apply_desired_lines b clock (begun b clock plan e)).0
            applied.inv.core,
        applied.inv,
        timed_activity-Inv (sample b clock e)
            (u64 (
              (apply_desired_lines b clock (begun b clock plan e)).0.config.scheduler.ptt_lead_ns
              + plan.total_duration_ns
              + (apply_desired_lines b clock
                  (begun b clock plan e)).0.config.scheduler.ptt_hang_ns))
            (apply_desired_lines b clock (begun b clock plan e)).0 applied.inv,
      )

  -- A reset leaves the lines, which are off where it succeeds.
  reset_lines : (s : Scheduler) → (Scheduler.reset s).0.lines ≡ s.lines
  unfolding Scheduler.reset
  reset_lines s = ground arith

  was_reset : Engine Port → Engine Port
  was_reset e = record e { scheduler = (Scheduler.reset e.scheduler).0 }

  was_reset-Inv : (e : Engine Port) → EngineInv e → EngineInv (was_reset e)
  unfolding was_reset
  was_reset-Inv e v =
      ground (arith, v, reset-Inv e.scheduler v.core.scheduled, reset_lines e.scheduler)

  pub start-EngineInv :
      (plan : Plan) (confirmed : Bool) (e : Engine Port)
      → EngineInv e
      → EngineInv (start b clock plan confirmed e).0
  unfolding start was_reset
  start-EngineInv plan confirmed e v = ground (
    arith,
    v,
    start_idle-Inv plan e v,
    fault-Inv b clock not_reusable (was_reset e) (was_reset-Inv e v).core,
    start_idle-Inv plan (was_reset e) (was_reset-Inv e v),
  )
