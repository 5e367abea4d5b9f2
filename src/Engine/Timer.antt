-- ===== src/Engine/Timer.antt =====
-- The invariant of the worker of src/desktop/transmit/direct_transmit_engine.cpp:
-- the timer of a message.
use cw_buddy.Base.{if_both, ◌≡◌, refl, Option, if◌then◌else◌, ℕ, arith}
use cw_buddy.Scheduler
use cw_buddy.Scheduler.{
  Phase, lead, spans_phase, hang, no_phase, default_config, Scheduler, Config, AdvanceResult,
  no_change, transition, faulted, is_running, is_idle, new_scheduler, starts, advances, cancels,
  releases, resets, step,
}
use cw_buddy.Keying.{Backend}
use cw_buddy.Engine.{
  tune_inactive, missed_deadline, message_completed, clear_activity_timing, status_of,
  adapter_failed, Engine, hardware, publish, monotonic_now, adapter_failure, sample, with_status,
}
use cw_buddy.Engine.Calls.{is_completed, finish_timer, advanced, handle_timer}
use cw_buddy.Engine.Invariant.{
  advance-Inv, Core, EngineInv, monotonic_now-Inv, apply_desired_lines-IsApplied,
  schedule_timer-Inv,
}
use cw_buddy.Engine.Tuning.{watch_tune-Inv}
use cw_buddy.Engine.Invariant.{fault-Inv}
use cw_buddy.Engine.Scheduled.{advance_no_change}

module _ (b : Backend) (clock : ℕ → Option ℕ) where
  open b use {Port}

  -- The line of a message that did not move.
  waited-Inv :
      (now : ℕ) (e : Engine Port)
      → EngineInv e
      → (Scheduler.advance now e.scheduler).1 ≡ no_change
      → EngineInv (record e { scheduler = (Scheduler.advance now e.scheduler).0 })
  waited-Inv now e v h =
      ground (
        arith,
        v,
        advance_no_change now e.scheduler h,
        advance-Inv now e.scheduler v.core.scheduled,
      )

  moved-Core :
      (now : ℕ) (e : Engine Port)
      → EngineInv e
      → Core (record e { scheduler = (Scheduler.advance now e.scheduler).0 })
  moved-Core now e v = ground (arith, v.core, advance-Inv now e.scheduler v.core.scheduled)

  finished : Engine Port → Engine Port
  finished e = publish (
      if is_completed e.scheduler.state
      then clear_activity_timing (with_status message_completed e)
      else e)

  finished-Inv : (e : Engine Port) → EngineInv e → EngineInv (finished e)
  unfolding finished
  finished-Inv e v = ground (arith, v)

  finish_timer-Inv : (e : Engine Port) → EngineInv e → EngineInv (finish_timer b clock e)
  unfolding finish_timer finished
  finish_timer-Inv e v = schedule_timer-Inv b clock (finished e) (finished-Inv e v)

  advanced-Inv :
      (result : AdvanceResult) (e : Engine Port)
      → Core e
      → (result ≡ no_change → EngineInv e)
      → EngineInv (advanced b clock result e)
  unfolding advanced
  advanced-Inv faulted e c v = fault-Inv b clock missed_deadline e c
  advanced-Inv no_change e c v = finish_timer-Inv e (v refl)
  advanced-Inv transition e c v =
      let applied = apply_desired_lines-IsApplied b clock e c in
      if_both EngineInv _ _ _ (finish_timer-Inv _ applied.inv) applied.inv

  pub handle_timer-Inv : (e : Engine Port) → EngineInv e → EngineInv (handle_timer b clock e)
  unfolding handle_timer adapter_failure
  handle_timer-Inv e v =
      let timed = monotonic_now-Inv b clock e v in
      let now = sample b clock e in
      ground (
        arith,
        fault-Inv b clock (status_of (hardware e).fault adapter_failed) e v.core,
        fault-Inv b clock tune_inactive e v.core,
        watch_tune-Inv b clock now (monotonic_now b clock e) timed,
        advanced-Inv (Scheduler.advance now (monotonic_now b clock e).scheduler).1
            (record (monotonic_now b clock e) {
              scheduler = (Scheduler.advance now (monotonic_now b clock e).scheduler).0;
            })
            (moved-Core now (monotonic_now b clock e) timed)
            (waited-Inv now (monotonic_now b clock e) timed),
      )
