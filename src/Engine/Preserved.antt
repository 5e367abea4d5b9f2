-- ===== src/Engine/Preserved.antt =====
-- What the worker of src/desktop/transmit/direct_transmit_engine.cpp keeps of its adapter, where each
-- write and each release of the adapter keeps it.
use cw_buddy.Base.{
  if_both, Bool, true, false, Option, none, some, if◌then◌else◌, ℕ, inl, inr, Option-cases,
}
use cw_buddy.Scheduler
use cw_buddy.Scheduler.{AdvanceResult, no_change, transition, faulted, is_running, LineState}
use cw_buddy.Keying.{Backend, Adapter, Role, ptt_role, key_role, set_logical_line, release_all}
use cw_buddy.Engine.{
  Engine, Status, Written, write_line, assert_ptt, remove_key, assert_key, remove_ptt, and_then,
  apply_lines, settle, apply_desired_lines, advance_now, drain_scheduler_release, fault_engine,
  advance_pending, monotonic_now, schedule_timer, sampled,
}
use cw_buddy.Engine.Calls.{emergency_release}

module _ (b : Backend) (clock : ℕ → Option ℕ) (P : Adapter b.Port → Type 0)
    (writes : (role : Role) (asserted : Bool) (a : Adapter b.Port)
      → P a
      → P (set_logical_line b role asserted a).0)
    (releases : (a : Adapter b.Port) → P a → P (release_all b a).0) where
  open b use {Port}

  abbrev On : Engine Port → Type 0
  On e = P e.adapter

  abbrev Done : Engine Port × Bool → Type 0
  Done w = On w.0

  abbrev Kept : Written b clock → Type 0
  Kept w = P w.0

  pub fault_engine_keeps :
      (error : Status) (e : Engine Port) → On e → On (fault_engine b clock error e)
  unfolding fault_engine advance_pending
  fault_engine_keeps error e h =
      let released = releases e.adapter h in if_both On _ _ _ released released

  pub monotonic_now_keeps : (e : Engine Port) → On e → On (monotonic_now b clock e)
  unfolding monotonic_now
  monotonic_now_keeps e h = elim (Option-cases (clock e.readings)) [
    | inl n ↦ rw (n, monotonic_now) (fault_engine_keeps _ (sampled b clock e) h)
    | inr (now, n) ↦ rw (n, monotonic_now) h
  ]

  write_line_keeps :
      (role : Role) (asserted : Bool) (a : Adapter Port)
      → P a
      → Kept (write_line b clock role asserted a)
  unfolding write_line
  write_line_keeps role asserted a h = writes role asserted a h

  and_then_keeps :
      (w : Written b clock) (next : Adapter Port → Written b clock)
      → Kept w
      → ((a : Adapter Port) → P a → Kept (next a))
      → Kept (and_then b clock w next)
  and_then_keeps (a, none) next h further = further a h
  and_then_keeps (a, some error) next h further = h

  assert_ptt_keeps :
      (desired : LineState) (a : Adapter Port) → P a → Kept (assert_ptt b clock desired a)
  unfolding assert_ptt
  assert_ptt_keeps desired a h = if_both Kept _ _ _ (write_line_keeps ptt_role true a h) h

  remove_key_keeps :
      (desired : LineState) (a : Adapter Port) → P a → Kept (remove_key b clock desired a)
  unfolding remove_key
  remove_key_keeps desired a h = if_both Kept _ _ _ (write_line_keeps key_role false a h) h

  assert_key_keeps :
      (desired : LineState) (a : Adapter Port) → P a → Kept (assert_key b clock desired a)
  unfolding assert_key
  assert_key_keeps desired a h =
      if_both Kept _ _ _ (if_both Kept _ _ _ h (write_line_keeps key_role true a h)) h

  remove_ptt_keeps :
      (desired : LineState) (a : Adapter Port) → P a → Kept (remove_ptt b clock desired a)
  unfolding remove_ptt
  remove_ptt_keeps desired a h =
      if_both Kept _ _ _ (if_both Kept _ _ _ h (write_line_keeps ptt_role false a h)) h

  apply_lines_keeps :
      (desired : LineState) (a : Adapter Port) → P a → Kept (apply_lines b clock desired a)
  unfolding apply_lines
  apply_lines_keeps desired a h =
      let ptt = assert_ptt b clock desired a in
      let up = and_then b clock ptt (remove_key b clock desired) in
      let down = and_then b clock up (assert_key b clock desired) in
      let up_keeps =
        and_then_keeps ptt (remove_key b clock desired) (assert_ptt_keeps desired a h)
          (remove_key_keeps desired) in
      let down_keeps =
        and_then_keeps up (assert_key b clock desired) up_keeps (assert_key_keeps desired) in
      if_both Kept _ _ _ h
        (and_then_keeps down (remove_ptt b clock desired) down_keeps (remove_ptt_keeps desired))

  settle_keeps : (e : Engine Port) (w : Written b clock) → Kept w → Done (settle b clock e w)
  unfolding settle
  settle_keeps e (a, none) h = h
  settle_keeps e (a, some error) h = fault_engine_keeps error (record e { adapter = a }) h

  pub apply_desired_lines_keeps : (e : Engine Port) → On e → Done (apply_desired_lines b clock e)
  unfolding apply_desired_lines
  apply_desired_lines_keeps e h = settle_keeps e _ (apply_lines_keeps e.scheduler.lines e.adapter h)

  advance_now_keeps : (e : Engine Port) → On e → On (advance_now b clock e)
  unfolding advance_now
  advance_now_keeps e h = monotonic_now_keeps e h

  pub applied_later :
      (e : Engine Port) → On e → Done (apply_desired_lines b clock (advance_now b clock e))
  applied_later e h = apply_desired_lines_keeps _ (advance_now_keeps e h)

  pub drain_keeps : (e : Engine Port) → On e → On (drain_scheduler_release b clock e)
  unfolding drain_scheduler_release
  drain_keeps e h =
      let released = record e { scheduler = Scheduler.emergency_release e.scheduler } in
      let first : On
          (if is_running e.scheduler.state then (apply_desired_lines b clock released).0 else e) =
        if_both On _ _ _ (apply_desired_lines_keeps released h) h in
      if_both On _ _ _ (applied_later _ first) first

  pub schedule_timer_keeps : (e : Engine Port) → On e → On (schedule_timer b clock e)
  unfolding schedule_timer
  schedule_timer_keeps e h =
      let now = monotonic_now_keeps e h in if_both On _ _ _ now (if_both On _ _ _ h now)

  -- An emergency release, whose last step releases both lines.
  pub emergency_release_keeps : (e : Engine Port) → On e → On (emergency_release b clock e)
  unfolding emergency_release
  emergency_release_keeps e h = releases _ (applied_later _ (apply_desired_lines_keeps _ h))
