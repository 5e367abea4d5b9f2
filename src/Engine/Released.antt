-- ===== src/Engine/Released.antt =====
-- What an emergency release of the worker of src/desktop/transmit/direct_transmit_engine.cpp leaves.
use cw_buddy.Base.{
  ◌≡◌, refl, Bool, true, false, ◌||◌, Option, ℕ, List, ◌⊎◌, inl, inr, arith, Option-cases,
  Bool-cases, [],
}
use cw_buddy.Encoder.{Plan}
use cw_buddy.Scheduler
use cw_buddy.Keying.{
  Line, LineLevel, unknown, inactive, active, key_role, Backend, Adapter, release_all,
  finish_release, release_line, is_active, is_unknown,
}
use cw_buddy.Keying.Lines.{release_all-IsQuiet}
use cw_buddy.Keying.Wire.{IsWired, IsTruthful}
use cw_buddy.Engine.{Engine, monotonic_now, fault_engine, sample}
use cw_buddy.Engine.Calls.{
  new_engine, emergency_release, start, start_idle, start_tune, start_tune_at,
}
use cw_buddy.Engine.Runs.{Event, after}
use cw_buddy.Engine.Truthful.{after-Truthful, new_engine-Truthful, emergency_release-Truthful}

module _ (b : Backend) (level : Line → b.Port → Bool) where
  open b use {Port, is_open, set_line}

  -- Why a line may not be known to be low: the port is not open, or it may fail to write the line.
  abbrev pub Why : Line → Adapter Port → Type 0
  Why line a = (is_open a.port ≡ false) ⊎ ((p : Port) × ((set_line line false p).1 ≡ false))

  -- The line is low and reported as inactive, or it is reported as unknown for such a reason, and the
  -- adapter says that something is wrong.
  abbrev pub IsOff : LineLevel → Line → Adapter Port → Type 0
  IsOff reported line a =
      ((reported ≡ inactive) × (level line a.port ≡ false))
      ⊎ ((reported ≡ unknown) × (a.snapshot.fault_or_unknown ≡ true) × Why line a)

  abbrev pub IsReleased : Adapter Port → Type 0
  IsReleased a = IsOff a.snapshot.ptt a.config.ptt_line a × IsOff a.snapshot.key a.config.key_line a

  release_all_flag :
      (a : Adapter Port)
      → (is_unknown (release_all b a).0.snapshot.ptt || is_unknown (release_all b a).0.snapshot.key)
        ≡ true
      → (release_all b a).0.snapshot.fault_or_unknown ≡ true
  unfolding release_all finish_release
  release_all_flag a h = ground (arith, h)

  closed_port :
      (a : Adapter Port) → is_open a.port ≡ false → is_open (release_all b a).0.port ≡ false
  unfolding release_all
  closed_port a e = ground (arith, e)

  ptt_write :
      (a : Adapter Port)
      → is_open a.port ≡ true
      → ((release_all b a).0.snapshot.ptt ≡ inactive)
        ⊎ ((set_line
              (release_all b a).0.config.ptt_line
              false
              (release_line b key_role (a, true, [])).0.port).1
            ≡ false)
  unfolding release_all finish_release release_line
  ptt_write a e = ground (arith, e)

  key_write :
      (a : Adapter Port)
      → is_open a.port ≡ true
      → ((release_all b a).0.snapshot.key ≡ inactive)
        ⊎ ((set_line (release_all b a).0.config.key_line false a.port).1 ≡ false)
  unfolding release_all finish_release release_line
  key_write a e = ground (arith, e)

  Why-ptt :
      (a : Adapter Port)
      → ((release_all b a).0.snapshot.ptt ≡ inactive)
        ⊎ Why (release_all b a).0.config.ptt_line (release_all b a).0
  Why-ptt a = elim (Bool-cases (is_open a.port)) [
    | inr e ↦ inr (inl (closed_port a e))
    | inl e ↦ elim (ptt_write a e) [ inl i ↦ inl i | inr f ↦ inr (inr (_, f)) ]
  ]

  Why-key :
      (a : Adapter Port)
      → ((release_all b a).0.snapshot.key ≡ inactive)
        ⊎ Why (release_all b a).0.config.key_line (release_all b a).0
  Why-key a = elim (Bool-cases (is_open a.port)) [
    | inr e ↦ inr (inl (closed_port a e))
    | inl e ↦ elim (key_write a e) [ inl i ↦ inl i | inr f ↦ inr (inr (_, f)) ]
  ]

  IsOff-of :
      (reported : LineLevel) (line : Line) (a : Adapter Port)
      → (is_unknown reported ≡ false → level line a.port ≡ is_active reported)
      → is_active reported ≡ false
      → (is_unknown reported ≡ true → a.snapshot.fault_or_unknown ≡ true)
      → (reported ≡ inactive) ⊎ Why line a
      → IsOff reported line a
  IsOff-of unknown line a told quiet flag (inl i) = absurd (cc i)
  IsOff-of unknown line a told quiet flag (inr why) = inr (refl, flag refl, why)
  IsOff-of inactive line a told quiet flag why = inl (refl, told refl)
  IsOff-of active line a told quiet flag why = absurd (cc quiet)

  release_all-IsReleased :
      (wired : IsWired b level) (a : Adapter Port)
      → IsTruthful b level wired (release_all b a).0
      → IsReleased (release_all b a).0
  release_all-IsReleased wired a told =
      let quiet = release_all-IsQuiet b a in
      let later = (release_all b a).0 in
      (
        IsOff-of later.snapshot.ptt later.config.ptt_line later told.ptt quiet.ptt
            (λ h. release_all_flag a (ground (arith, h))) (Why-ptt a),
        IsOff-of later.snapshot.key later.config.key_line later told.key quiet.key
            (λ h. release_all_flag a (ground (arith, h))) (Why-key a),
      )

module _ (b : Backend) (clock : ℕ → Option ℕ) where
  open b use {Port}

  stays_faulted : (e : Engine Port) → e.fault ≡ true → (monotonic_now b clock e).fault ≡ true
  unfolding monotonic_now fault_engine
  stays_faulted e h = elim (Option-cases (clock e.readings)) [
    | inl n ↦ rw (n, monotonic_now) refl
    | inr (now, n) ↦ rw (n, monotonic_now) h
  ]

  start_idle_refused :
      (plan : Plan) (e : Engine Port) → e.fault ≡ true → (start_idle b clock plan e).1 ≡ false
  unfolding start_idle
  start_idle_refused plan e h = ground (arith, stays_faulted e h)

  start_refused :
      (plan : Plan) (confirmed : Bool) (e : Engine Port)
      → e.fault ≡ true
      → (start b clock plan confirmed e).1 ≡ false
  unfolding start
  start_refused plan confirmed e h =
      let was_reset = record e { scheduler = (Scheduler.reset e.scheduler).0 } in
      ground (arith, start_idle_refused plan e h, start_idle_refused plan was_reset h)

  start_tune_at_refused :
      (now_ns : ℕ) (e : Engine Port) → e.fault ≡ true → (start_tune_at b clock now_ns e).1 ≡ false
  unfolding start_tune_at
  start_tune_at_refused now_ns e h = ground (arith, h)

  start_tune_refused :
      (authorized : Bool) (e : Engine Port)
      → e.fault ≡ true
      → (start_tune b clock authorized e).1 ≡ false
  unfolding start_tune
  start_tune_refused authorized e h = ground (
    arith,
    start_tune_at_refused (sample b clock e) (monotonic_now b clock e) (stays_faulted e h),
  )

-- Whatever happened to a new worker before, on a port where a write that the port reports as done
-- sets its line and no write moves the other line: after an emergency release each line is low and
-- reported as inactive, unless the port is not open or has a state in which it fails to set that line
-- low. Such a line is reported as unknown, and the adapter says that something is wrong. Right after
-- the release no message and no TUNE starts.
pub emergency_release-IsReleased :
    (b : Backend) (clock : ℕ → Option ℕ) (level : Line → b.Port → Bool) (wired : IsWired b level)
    (port : b.Port) (events : List Event) (plan : Plan) (confirmed authorized : Bool)
    → let e = emergency_release b clock (after b clock events (new_engine b clock port)) in
      IsReleased b level e.adapter
      × ((start b clock plan confirmed e).1 ≡ false)
      × ((start_tune b clock authorized e).1 ≡ false)
unfolding emergency_release
emergency_release-IsReleased b clock level wired port events plan confirmed authorized =
    let before = after b clock events (new_engine b clock port) in
    let told =
      after-Truthful b clock level wired events (new_engine b clock port)
        (new_engine-Truthful b clock level wired port) in
    let e = emergency_release b clock before in
    (
      release_all-IsReleased b level wired _
          (emergency_release-Truthful b clock level wired before told),
      start_refused b clock plan confirmed e refl,
      start_tune_refused b clock authorized e refl,
    )
