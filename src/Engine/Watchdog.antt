-- ===== src/Engine/Watchdog.antt =====
-- The watchdog of TUNE in the worker of src/desktop/transmit/direct_transmit_engine.cpp.
use cw_buddy.Base.{
  ◌≡◌, refl, ap, ◌∙◌, Bool, true, false, Option, some, ℕ, ◌+◌, ◌≤◌, Bool-cases, inl, inr, arith,
  Option-cases,
}
use cw_buddy.Scheduler.{is_running}
use cw_buddy.Keying.{Backend}
use cw_buddy.Keying.Lines.{IsQuiet}
use cw_buddy.Engine.{
  clock_failed, tune_inactive, tune_expired, status_of, adapter_failed, no_deadline, cannot_tune,
  Engine, Status, valid_engine_config, hardware, adapter_known_inactive, fault_engine,
  monotonic_now, adapter_failure, sampled, sample,
}
use cw_buddy.Engine.Calls.{
  assert_tune, start_tune_at, start_tune, close_blocking, watch_tune, handle_timer, port_error,
}
use cw_buddy.Engine.Invariant.{Core, EngineInv, fault_engine-IsAtRest, monotonic_now-Core}
use cw_buddy.Engine.Invariant.{fault_engine_tuning}
use cw_buddy.Engine.Runs.{
  Event, configures, opens, cancels_activity, stops_tune, releases_all, closes, fires, starts_plan,
  starts_tune, fails, happens,
}
use cw_buddy.Engine.Frames.{
  cancel-Frame, close_internal-Frame, configure-Frame, emergency_release-Frame, handle_timer-Frame,
  now-Frame, open_safe-Frame, start-Frame, start_tune_again, stop_tune-Frame, timer-Frame,
}
use cw_buddy.Engine.Calls.{tuned}

module _ (b : Backend) (clock : ℕ → Option ℕ) where
  open b use {Port}

  -- Nothing that happens while TUNE is on moves its deadline: if it is on before and after, the
  -- deadline is the same.
  pub happens_keeps_deadline :
      (event : Event) (e : Engine Port)
      → e.tuning ≡ true
      → (happens b clock event e).tuning ≡ true
      → (happens b clock event e).tune_deadline_ns ≡ e.tune_deadline_ns
  unfolding happens close_blocking port_error
  happens_keeps_deadline (configures config) e h k = ((configure-Frame b clock config e).kept k).1
  happens_keeps_deadline opens e h k = ((open_safe-Frame b clock e).kept k).1
  happens_keeps_deadline cancels_activity e h k = ((cancel-Frame b clock e).kept k).1
  happens_keeps_deadline stops_tune e h k = ((stop_tune-Frame b clock e).kept k).1
  happens_keeps_deadline releases_all e h k = ((emergency_release-Frame b clock e).kept k).1
  happens_keeps_deadline closes e h k = ((close_internal-Frame b clock false e).kept k).1
  happens_keeps_deadline fires e h k = ((handle_timer-Frame b clock e).kept k).1
  happens_keeps_deadline (starts_plan plan confirmed) e h k =
      ((start-Frame b clock plan confirmed e).kept k).1
  happens_keeps_deadline (starts_tune authorized) e h k = start_tune_again b clock authorized e h
  happens_keeps_deadline (fails error) e h k = refl

  read_now :
      (e : Engine Port) (now_ns : ℕ)
      → clock e.readings ≡ some now_ns
      → (monotonic_now b clock e ≡ sampled b clock e) × (sample b clock e ≡ now_ns)
  unfolding monotonic_now
  read_now e now_ns c = (rw (c, monotonic_now) refl, rw (c, sample) refl)

  Ended : Engine Port → Type 0
  Ended e = (e.tuning ≡ false) × IsQuiet e.adapter.snapshot

  fault-Ended : (error : Status) (e : Engine Port) → Core e → Ended (fault_engine b clock error e)
  unfolding Ended
  fault-Ended error e c =
      (fault_engine_tuning b clock error e, (fault_engine-IsAtRest b clock error e c).quiet)

  expired-Ended :
      (e : Engine Port) (now_ns : ℕ)
      → EngineInv e
      → e.tuning ≡ true
      → clock e.readings ≡ some now_ns
      → e.tune_deadline_ns ≤ now_ns
      → Ended (handle_timer b clock e)
  unfolding handle_timer adapter_failure watch_tune
  expired-Ended e now_ns v h c d =
      let (same, now) = read_now e now_ns c in
      let deadline : (monotonic_now b clock e).tune_deadline_ns ≡ e.tune_deadline_ns =
        ap (λ x. x.tune_deadline_ns) same in
      ground (
        arith,
        h,
        d,
        now,
        deadline,
        fault-Ended (status_of (hardware e).fault adapter_failed) e v.core,
        fault-Ended tune_inactive e v.core,
        fault-Ended tune_expired (monotonic_now b clock e) (monotonic_now-Core b clock e v.core),
      )

  -- Once the clock reads the deadline of TUNE or later when the timer fires, TUNE is over and neither
  -- line is active, however the port answers.
  pub handle_timer_expired :
      (e : Engine Port) (now_ns : ℕ)
      → EngineInv e
      → e.tuning ≡ true
      → clock e.readings ≡ some now_ns
      → e.tune_deadline_ns ≤ now_ns
      → ((handle_timer b clock e).tuning ≡ false)
        × IsQuiet (handle_timer b clock e).adapter.snapshot
  unfolding Ended
  handle_timer_expired e now_ns v h c d = expired-Ended e now_ns v h c d

  maximum_permitted :
      (e : Engine Port)
      → EngineInv e
      → adapter_known_inactive e ≡ true
      → e.config.maximum_tune_duration_ns ≤ 15000000000
  unfolding adapter_known_inactive valid_engine_config
  maximum_permitted e v h = ground (arith, v.core.configured, v.core.valid, h)

  assert_tune_same : (e : Engine Port) → (assert_tune b clock e).0.tuning ≡ e.tuning
  unfolding assert_tune
  assert_tune_same e = ground arith

  start_tune_at_deadline :
      (now_ns : ℕ) (e : Engine Port)
      → e.tuning ≡ false
      → (start_tune_at b clock now_ns e).0.tuning ≡ true
      → (e.fault ≡ false)
        × ((start_tune_at b clock now_ns e).0.tune_deadline_ns
            ≡ now_ns + e.config.maximum_tune_duration_ns)
  unfolding start_tune_at tuned
  start_tune_at_deadline now_ns e h k = ground (
    arith,
    h,
    k,
    fault_engine_tuning b clock no_deadline e,
    fault_engine_tuning b clock cannot_tune (assert_tune b clock e).0,
    (timer-Frame b clock
        (tuned b clock now_ns e.config.maximum_tune_duration_ns (assert_tune b clock e).0)).kept,
  )

  fault_engine_fault :
      (error : Status) (e : Engine Port) → (fault_engine b clock error e).fault ≡ true
  unfolding fault_engine
  fault_engine_fault error e = refl

  now_tuning : (e : Engine Port) → e.tuning ≡ false → (monotonic_now b clock e).tuning ≡ false
  now_tuning e h = elim (Bool-cases (monotonic_now b clock e).tuning) [
    | inl on ↦ absurd (cc (((now-Frame b clock e).kept on).0, h))
    | inr off ↦ off
  ]

  -- A clock that gave no fault was read.
  now_read :
      (e : Engine Port)
      → (monotonic_now b clock e).fault ≡ false
      → (clock e.readings ≡ some (sample b clock e)) × ((monotonic_now b clock e).config ≡ e.config)
  unfolding monotonic_now
  now_read e h = elim (Option-cases (clock e.readings)) [
    | inl n ↦
        absurd
          (cc (rw (n, monotonic_now) at h, fault_engine_fault clock_failed (sampled b clock e)))
    | inr (now, n) ↦ (rw (n, sample) refl, rw (n, monotonic_now) refl)
  ]

  start_tune_begins :
      (authorized : Bool) (e : Engine Port)
      → e.tuning ≡ false
      → (start_tune b clock authorized e).0.tuning ≡ true
      → (authorized ≡ true)
        × (adapter_known_inactive e ≡ true)
        × (is_running e.scheduler.state ≡ false)
        × ((start_tune_at b clock (sample b clock e) (monotonic_now b clock e)).0.tuning ≡ true)
        × ((start_tune b clock authorized e).0
            ≡ (start_tune_at b clock (sample b clock e) (monotonic_now b clock e)).0)
  unfolding start_tune
  start_tune_begins authorized e h k = ground (arith, h, k)

  -- TUNE begins only when the operator authorised it, no message runs and the open adapter has both
  -- lines inactive; its deadline is then the time that the clock read plus the configured duration,
  -- which is at most fifteen seconds.
  pub start_tune_lem :
      (authorized : Bool) (e : Engine Port)
      → EngineInv e
      → e.tuning ≡ false
      → (start_tune b clock authorized e).0.tuning ≡ true
      → (authorized ≡ true)
        × (adapter_known_inactive e ≡ true)
        × (is_running e.scheduler.state ≡ false)
        × (now_ns : ℕ) × (clock e.readings ≡ some now_ns)
        × ((start_tune b clock authorized e).0.tune_deadline_ns
            ≡ now_ns + e.config.maximum_tune_duration_ns)
        × (e.config.maximum_tune_duration_ns ≤ 15000000000)
  start_tune_lem authorized e v h k =
      let (granted, known, idle, on, same) = start_tune_begins authorized e h k in
      let (healthy, deadline) =
        start_tune_at_deadline (sample b clock e) (monotonic_now b clock e) (now_tuning e h) on in
      let (read, config) = now_read e healthy in
      (
        granted,
        known,
        idle,
        sample b clock e,
        read,
        ap (λ x. x.tune_deadline_ns) same
            ∙ deadline
            ∙ ap (λ c. sample b clock e + c.maximum_tune_duration_ns) config,
        maximum_permitted e v known,
      )
