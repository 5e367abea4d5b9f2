-- ===== src/Engine/Tuning.antt =====
-- The invariant of the worker of src/desktop/transmit/direct_transmit_engine.cpp:
-- tUNE begins, is watched and ends.
use cw_buddy.Base.{◌≡◌, Bool, true, false, Option, none, ℕ, arith}
use cw_buddy.Keying.{ptt_role, key_role, is_active, Backend, release_all, set_ptt}
use cw_buddy.Keying.Lines.{
  release_all-IsQuiet, release_all_safe, set_logical_line_set, set_logical_line_safe,
}
use cw_buddy.Engine.{
  tune_expired, no_deadline, cannot_tune, cannot_release_tune, Engine, publish, monotonic_now,
  sample,
}
use cw_buddy.Engine.Calls.{stop_tune, assert_tune, start_tune_at, start_tune, watch_tune}
use cw_buddy.Engine.Invariant.{
  Core, EngineInv, IsAtRest, IsAtRest-Inv, monotonic_now-Inv, schedule_timer-Inv,
}
use cw_buddy.Engine.Invariant.{fault-Inv, publish-Inv}
use cw_buddy.Engine.Calls.{tuned}

module _ (b : Backend) (clock : ℕ → Option ℕ) where
  open b use {Port}

  stopped_tune : Engine Port → Engine Port
  stopped_tune e = record e {
    timer = none;
    tuning = false;
    tune_deadline_ns = 0;
    adapter = (release_all b e.adapter).0;
  }

  stopped_tune-IsAtRest : (e : Engine Port) → EngineInv e → IsAtRest (stopped_tune e)
  unfolding stopped_tune
  stopped_tune-IsAtRest e v =
      ground (arith, v, release_all-IsQuiet b e.adapter, release_all_safe b e.adapter)

  pub stop_tune-Inv : (e : Engine Port) → EngineInv e → EngineInv (stop_tune b clock e).0
  unfolding stop_tune stopped_tune
  stop_tune-Inv e v = ground (
    arith,
    v,
    stopped_tune-IsAtRest e v,
    IsAtRest-Inv (stopped_tune e),
    fault-Inv b clock cannot_release_tune (stopped_tune e),
  )

  assert_tune-Core : (e : Engine Port) → Core e → Core (assert_tune b clock e).0
  unfolding assert_tune
  assert_tune-Core e c = ground (
    arith,
    c,
    set_logical_line_safe b ptt_role true e.adapter,
    set_logical_line_safe b key_role true (set_ptt b true e.adapter).0,
  )

  -- Both lines are on, PTT having been first.
  assert_tune_lem :
      (e : Engine Port)
      → (assert_tune b clock e).1 ≡ true
      → is_active (assert_tune b clock e).0.adapter.snapshot.ptt ≡ true
  unfolding assert_tune
  assert_tune_lem e h = ground (
    arith,
    h,
    set_logical_line_set b ptt_role true e.adapter,
    set_logical_line_set b key_role true (set_ptt b true e.adapter).0,
  )

  tuned-Inv :
      (now_ns maximum : ℕ) (e : Engine Port)
      → Core e
      → is_active e.adapter.snapshot.ptt ≡ true
      → EngineInv (tuned b clock now_ns maximum e)
  unfolding tuned
  tuned-Inv now_ns maximum e c h = ground (arith, c, h)

  start_tune_at-Inv :
      (now_ns : ℕ) (e : Engine Port) → EngineInv e → EngineInv (start_tune_at b clock now_ns e).0
  unfolding start_tune_at tuned
  start_tune_at-Inv now_ns e v =
      let core = assert_tune-Core e v.core in
      ground (
        arith,
        fault-Inv b clock no_deadline e v.core,
        fault-Inv b clock cannot_tune (assert_tune b clock e).0 core,
        assert_tune_lem e,
        tuned-Inv now_ns e.config.maximum_tune_duration_ns (assert_tune b clock e).0 core,
        schedule_timer-Inv b clock
            (tuned b clock now_ns e.config.maximum_tune_duration_ns (assert_tune b clock e).0),
      )

  pub start_tune-Inv :
      (authorized : Bool) (e : Engine Port)
      → EngineInv e
      → EngineInv (start_tune b clock authorized e).0
  unfolding start_tune
  start_tune-Inv authorized e v = ground (
    arith,
    v,
    monotonic_now-Inv b clock e v,
    start_tune_at-Inv (sample b clock e) (monotonic_now b clock e),
  )

  pub watch_tune-Inv :
      (now_ns : ℕ) (e : Engine Port) → EngineInv e → EngineInv (watch_tune b clock now_ns e)
  unfolding watch_tune
  watch_tune-Inv now_ns e v = ground (
    arith,
    fault-Inv b clock tune_expired e v.core,
    schedule_timer-Inv b clock (publish e) (publish-Inv b clock e v),
  )
