-- ===== src/Engine/Invariant.antt =====
-- What holds of the worker of src/desktop/transmit/direct_transmit_engine.cpp between two calls.
use cw_buddy.Base.{
  if_both, ◌≡◌, refl, Bool, true, false, ◌||◌, Option, none, some, if◌then◌else◌, ℕ, inl, inr,
  arith, Option-cases,
}
use cw_buddy.Scheduler
use cw_buddy.Scheduler.{
  Scheduler, Config, is_running, new_scheduler, starts, advances, cancels, releases, resets, step,
}
use cw_buddy.Scheduler.Invariant.{Inv, step-Inv}
use cw_buddy.Keying.{is_active, Backend, Adapter, release_all, close}
use cw_buddy.Keying.Lines.{IsQuiet, release_all-IsQuiet, release_all_safe, close-IsClosed}
use cw_buddy.Engine.{
  clock_failed, Engine, Status, valid_engine_config, hardware, publish, stop_activity,
  advance_pending, fault_engine, monotonic_now, settle, apply_lines, apply_desired_lines,
  advance_now, drain_scheduler_release, close_internal, schedule_timer, sampled, sample,
}
use cw_buddy.Engine.Apply.{Writes, apply_lines-Writes}

module _ {Port : Type 0} where
  -- What holds even in the middle of a call.
  pub record Core (e : Engine Port) : Type 0 where
    pub scheduled : Inv e.scheduler
    pub configured : e.adapter.snapshot.open_safe ≡ true → e.configured ≡ true
    pub valid : e.configured ≡ valid_engine_config e.config

  pub record EngineInv (e : Engine Port) : Type 0 where
    pub core : Core e
    pub key_with_ptt :
        is_active e.adapter.snapshot.key ≡ true → is_active e.adapter.snapshot.ptt ≡ true
    pub key_wanted :
        is_active e.adapter.snapshot.key ≡ true → (e.tuning || e.scheduler.lines.key) ≡ true
    pub ptt_wanted :
        is_active e.adapter.snapshot.ptt ≡ true → (e.tuning || e.scheduler.lines.ptt) ≡ true

  -- A worker whose lines are off.
  pub record IsAtRest (e : Engine Port) : Type 0 where
    pub core : Core e
    pub quiet : IsQuiet e.adapter.snapshot

  pub IsAtRest-Inv : (e : Engine Port) → IsAtRest e → EngineInv e
  IsAtRest-Inv e r = ground (arith, r.core.scheduled)

pub advance-Inv : (now : ℕ) (s : Scheduler) → Inv s → Inv (Scheduler.advance now s).0
unfolding step
advance-Inv now s v = step-Inv (advances now) s v

pub release-Inv : (s : Scheduler) → Inv s → Inv (Scheduler.emergency_release s)
unfolding step
release-Inv s v = step-Inv releases s v

module _ (b : Backend) (clock : ℕ → Option ℕ) where
  open b use {Port}

  advance_pending-IsAtRest : (e : Engine Port) → IsAtRest e → IsAtRest (advance_pending b clock e)
  unfolding advance_pending
  advance_pending-IsAtRest e r =
      ground (arith, advance-Inv (sample b clock e) e.scheduler r.core.scheduled)

  released-IsAtRest :
      (e : Engine Port)
      → Core e
      → IsAtRest (record (stop_activity e) {
        scheduler = Scheduler.emergency_release e.scheduler;
        adapter = (release_all b e.adapter).0;
      })
  released-IsAtRest e c = ground (
    arith,
    release_all-IsQuiet b e.adapter,
    release_all_safe b e.adapter,
    release-Inv e.scheduler c.scheduled,
    c.valid,
  )

  -- A fault leaves the lines off, whatever was the case.
  pub fault_engine-IsAtRest :
      (error : Status) (e : Engine Port) → Core e → IsAtRest (fault_engine b clock error e)
  unfolding fault_engine
  fault_engine-IsAtRest error e c =
      ground (arith, advance_pending-IsAtRest _ (released-IsAtRest e c))

  fault_engine-Inv :
      (error : Status) (e : Engine Port) → Core e → EngineInv (fault_engine b clock error e)
  fault_engine-Inv error e c = IsAtRest-Inv _ (fault_engine-IsAtRest error e c)

  -- A reading of the clock is a fault or changes nothing but the count of readings.
  pub monotonic_now-Inv : (e : Engine Port) → EngineInv e → EngineInv (monotonic_now b clock e)
  unfolding monotonic_now
  monotonic_now-Inv e v = elim (Option-cases (clock e.readings)) [
    | inl n ↦
        rw (n, monotonic_now) (fault_engine-Inv _ (sampled b clock e) (ground (arith, v.core)))
    | inr (now, n) ↦ rw (n, monotonic_now) (ground (arith, v))
  ]

  pub monotonic_now-IsAtRest : (e : Engine Port) → IsAtRest e → IsAtRest (monotonic_now b clock e)
  unfolding monotonic_now
  monotonic_now-IsAtRest e v = elim (Option-cases (clock e.readings)) [
    | inl n ↦
        rw (n, monotonic_now) (fault_engine-IsAtRest _ (sampled b clock e) (ground (arith, v.core)))
    | inr (now, n) ↦ rw (n, monotonic_now) (ground (arith, v))
  ]

  pub record IsApplied (e : Engine Port) (r : Engine Port × Bool) : Type 0 where
    pub inv : EngineInv r.0
    pub failed : r.1 ≡ false → IsAtRest r.0
    pub same : r.1 ≡ true → r.0 ≡ record e { adapter = (r.0).adapter }

  key_with_ptt_of : (s : Scheduler) → Inv s → s.lines.key ≡ true → s.lines.ptt ≡ true
  key_with_ptt_of s v h = ground arith

  settle-IsApplied :
      (e : Engine Port) (w : Adapter Port × Option Status)
      → Core e
      → Writes b clock e.adapter w e.scheduler.lines.ptt e.scheduler.lines.key
      → IsApplied e (settle b clock e w)
  unfolding settle
  settle-IsApplied e (a, none) f w =
      ground (arith, w.ptt refl, w.key refl, key_with_ptt_of e.scheduler f.scheduled)
  settle-IsApplied e (a, some error) f w =
      let rests =
        fault_engine-IsAtRest error (record e { adapter = a }) (ground (arith, f.valid)) in
      record { inv = IsAtRest-Inv _ rests; failed = λ _. rests; same = λ h. absurd (cc h) }

  -- Applied lines are those of the scheduler, or the worker is at rest.
  pub apply_desired_lines-IsApplied :
      (e : Engine Port) → Core e → IsApplied e (apply_desired_lines b clock e)
  unfolding apply_desired_lines
  apply_desired_lines-IsApplied e f =
      settle-IsApplied e _ f (apply_lines-Writes b clock e.scheduler.lines e.adapter)

  pub IsApplied-Core : (e : Engine Port) (r : Engine Port × Bool) → IsApplied e r → Core r.0
  IsApplied-Core e r a = a.inv.core

  pub monotonic_now-Core : (e : Engine Port) → Core e → Core (monotonic_now b clock e)
  unfolding monotonic_now
  monotonic_now-Core e f = elim (Option-cases (clock e.readings)) [
    | inl n ↦
        let rests = fault_engine-IsAtRest _ (sampled b clock e) (ground (arith, f)) in
        rw (n, monotonic_now) rests.core
    | inr (now, n) ↦ rw (n, monotonic_now) (ground (arith, f))
  ]

  advanced-Core :
      (now : ℕ) (e : Engine Port)
      → Core e
      → Core (record e { scheduler = (Scheduler.advance now e.scheduler).0 })
  advanced-Core now e f = ground (arith, f, advance-Inv now e.scheduler f.scheduled)

  pub advance_now-Core : (e : Engine Port) → Core e → Core (advance_now b clock e)
  unfolding advance_now
  advance_now-Core e f =
      advanced-Core (sample b clock e) (monotonic_now b clock e) (monotonic_now-Core e f)

  release-Core :
      (e : Engine Port)
      → Core e
      → Core (record e { scheduler = Scheduler.emergency_release e.scheduler })
  release-Core e f = ground (arith, f, release-Inv e.scheduler f.scheduled)

  apply-Core : (e : Engine Port) → Core e → Core (apply_desired_lines b clock e).0
  apply-Core e f = IsApplied-Core e _ (apply_desired_lines-IsApplied e f)

  pub drain-Core : (e : Engine Port) → Core e → Core (drain_scheduler_release b clock e)
  unfolding drain_scheduler_release
  drain-Core e f =
      let released =
        if_both Core (is_running e.scheduler.state)
          (apply_desired_lines b clock
            (record e { scheduler = Scheduler.emergency_release e.scheduler })).0
          e (apply-Core _ (release-Core e f)) f in
      if_both Core _ _ _ (apply-Core _ (advance_now-Core _ released)) released

  stopped-Core : (e : Engine Port) → Core e → Core (stop_activity e)
  stopped-Core e c = ground (arith, c)

  closed-IsAtRest :
      (e : Engine Port) (fault : Bool) (status : Status)
      → Core e
      → IsAtRest (record e { adapter = close b e.adapter; fault = fault; status = status })
  closed-IsAtRest e fault status f = ground (arith, f, close-IsClosed b e.adapter)

  pub close_internal-IsAtRest :
      (preserve : Bool) (e : Engine Port) → Core e → IsAtRest (close_internal b clock preserve e)
  unfolding close_internal
  close_internal-IsAtRest preserve e c =
      let stopped = stopped-Core e c in
      closed-IsAtRest _ _ _
        (if_both Core (hardware (stop_activity e)).open_safe _ _ (drain-Core _ stopped) stopped)

  pub schedule_timer-Inv : (e : Engine Port) → EngineInv e → EngineInv (schedule_timer b clock e)
  unfolding schedule_timer
  schedule_timer-Inv e v = ground (arith, v, monotonic_now-Inv e v)

  pub fault_engine_tuning :
      (error : Status) (e : Engine Port) → (fault_engine b clock error e).tuning ≡ false
  unfolding fault_engine advance_pending
  fault_engine_tuning error e = ground arith

  pub close_internal_closed :
      (preserve : Bool) (e : Engine Port)
      → (close_internal b clock preserve e).adapter.snapshot.open_safe ≡ false
  unfolding close_internal
  close_internal_closed preserve e = (close-IsClosed b _).open_safe

  -- The configuration, which only `configure` changes.
  pub record Keeps (e after : Engine Port) : Type 0 where
    pub configured : after.configured ≡ e.configured
    pub config : after.config ≡ e.config

  pub fault_engine-Keeps :
      (error : Status) (e : Engine Port) → Keeps e (fault_engine b clock error e)
  unfolding fault_engine advance_pending
  fault_engine-Keeps error e = ground arith

  monotonic_now-Keeps : (e : Engine Port) → Keeps e (monotonic_now b clock e)
  unfolding monotonic_now
  monotonic_now-Keeps e = elim (Option-cases (clock e.readings)) [
    | inl n ↦
        rw (n, monotonic_now) (ground (arith, fault_engine-Keeps clock_failed (sampled b clock e)))
    | inr (now, n) ↦ rw (n, monotonic_now) (ground arith)
  ]

  settle-Keeps :
      (e : Engine Port) (w : Adapter Port × Option Status) → Keeps e (settle b clock e w).0
  unfolding settle
  settle-Keeps e (a, none) = ground arith
  settle-Keeps e (a, some error) =
      ground (arith, fault_engine-Keeps error (record e { adapter = a }))

  apply-Keeps : (e : Engine Port) → Keeps e (apply_desired_lines b clock e).0
  unfolding apply_desired_lines
  apply-Keeps e = settle-Keeps e (apply_lines b clock e.scheduler.lines e.adapter)

  advance_now-Keeps : (e : Engine Port) → Keeps e (advance_now b clock e)
  unfolding advance_now
  advance_now-Keeps e = ground (arith, monotonic_now-Keeps e)

  Keeps-trans : (e m after : Engine Port) → Keeps e m → Keeps m after → Keeps e after
  Keeps-trans e m after h k = ground (arith, h, k)

  pub drain-Keeps : (e : Engine Port) → Keeps e (drain_scheduler_release b clock e)
  unfolding drain_scheduler_release
  drain-Keeps e =
      let released = record e { scheduler = Scheduler.emergency_release e.scheduler } in
      let first : Keeps e
          (if is_running e.scheduler.state then (apply_desired_lines b clock released).0 else e) =
        if_both (Keeps e) (is_running e.scheduler.state) _ e (ground (arith, apply-Keeps released))
          (ground arith) in
      if_both (Keeps e) _ _ _
        (Keeps-trans e _ _ first (Keeps-trans _ _ _ (advance_now-Keeps _) (apply-Keeps _))) first

  pub fault-Inv :
      (error : Status) (e : Engine Port) → Core e → EngineInv (fault_engine b clock error e)
  fault-Inv error e c = IsAtRest-Inv _ (fault_engine-IsAtRest error e c)

  pub publish-Inv : (e : Engine Port) → EngineInv e → EngineInv (publish e)
  publish-Inv e v = ground (arith, v)
