-- ===== src/Engine/Apply.antt =====
-- How the worker of src/desktop/transmit/direct_transmit_engine.cpp applies the lines that the
-- scheduler wants.
use cw_buddy.Base.{
  ◌≡◌, refl, Bool, true, false, ◌&&◌, ◌||◌, not, Option, none, some, ℕ, Bool-cases, inl, inr, arith,
}
use cw_buddy.Scheduler.{LineState}
use cw_buddy.Keying.{is_active, Snapshot, Backend, Adapter, ptt_role, key_role}
use cw_buddy.Keying.Lines.{set_logical_line_set, set_logical_line_safe}
use cw_buddy.Engine.{
  Status, write_line, assert_ptt, remove_key, assert_key, remove_ptt, and_then, apply_lines,
}

-- KEY is not active without PTT.
abbrev pub is_ordered : Snapshot → Bool
is_ordered sn = not (is_active sn.key) || is_active sn.ptt

module _ (b : Backend) (clock : ℕ → Option ℕ) where
  open b use {Port}

  -- What writes do to the activity of the lines, where they succeed.
  pub record Writes (before : Adapter Port) (w : Adapter Port × Option Status) (on down : Bool)
      : Type 0 where
    pub safe : w.0.snapshot.open_safe ≡ true → before.snapshot.open_safe ≡ true
    pub ptt : w.1 ≡ none → is_active w.0.snapshot.ptt ≡ on
    pub key : w.1 ≡ none → is_active w.0.snapshot.key ≡ down

  then-Writes :
      (a : Adapter Port) (w : Adapter Port × Option Status)
      (next : Adapter Port → Adapter Port × Option Status) (on down on2 down2 : Bool)
      → Writes a w on down
      → ((m : Adapter Port)
          → is_active m.snapshot.ptt ≡ on
          → is_active m.snapshot.key ≡ down
          → Writes m (next m) on2 down2)
      → Writes a (and_then b clock w next) on2 down2
  then-Writes a (m, none) next on down on2 down2 v further =
      let n = further m (v.ptt refl) (v.key refl) in
      record { safe = λ h. v.safe (n.safe h); ptt = n.ptt; key = n.key }
  then-Writes a (m, some error) next on down on2 down2 v further = record {
    safe = v.safe;
    ptt = λ h. absurd (cc h);
    key = λ h. absurd (cc h);
  }

  write_line-ptt :
      (asserted : Bool) (a : Adapter Port)
      → Writes a (write_line b clock ptt_role asserted a) asserted (is_active a.snapshot.key)
  unfolding write_line
  write_line-ptt asserted a = ground (
    arith,
    set_logical_line_set b ptt_role asserted a,
    set_logical_line_safe b ptt_role asserted a,
  )

  write_line-key :
      (asserted : Bool) (a : Adapter Port)
      → Writes a (write_line b clock key_role asserted a) (is_active a.snapshot.ptt) asserted
  unfolding write_line
  write_line-key asserted a = ground (
    arith,
    set_logical_line_set b key_role asserted a,
    set_logical_line_safe b key_role asserted a,
  )

  assert_ptt_lem :
      (desired : LineState) (a : Adapter Port)
      → Writes a
          (assert_ptt b clock desired a)
          (desired.ptt || is_active a.snapshot.ptt)
          (is_active a.snapshot.key)
  unfolding assert_ptt
  assert_ptt_lem desired a = ground (arith, write_line-ptt true a)

  remove_key_lem :
      (desired : LineState) (a : Adapter Port)
      → Writes a
          (remove_key b clock desired a)
          (is_active a.snapshot.ptt)
          (desired.key && is_active a.snapshot.key)
  unfolding remove_key
  remove_key_lem desired a = ground (arith, write_line-key false a)

  assert_key_lem :
      (desired : LineState) (a : Adapter Port)
      → Writes a
          (assert_key b clock desired a)
          (is_active a.snapshot.ptt)
          (desired.key || is_active a.snapshot.key)
  unfolding assert_key
  assert_key_lem desired a = ground (arith, write_line-key true a)

  remove_ptt_lem :
      (desired : LineState) (a : Adapter Port)
      → Writes a
          (remove_ptt b clock desired a)
          (desired.ptt && is_active a.snapshot.ptt)
          (is_active a.snapshot.key)
  unfolding remove_ptt
  remove_ptt_lem desired a = ground (arith, write_line-ptt false a)

  -- All four writes, past the test of the adapter.
  chain_lem :
      (desired : LineState) (a : Adapter Port)
      → Writes a
          (and_then b clock
            (and_then b clock
              (and_then b clock (assert_ptt b clock desired a) (remove_key b clock desired))
              (assert_key b clock desired))
            (remove_ptt b clock desired))
          desired.ptt
          desired.key
  chain_lem desired a =
      let first = assert_ptt_lem desired a in
      let second =
        then-Writes a (assert_ptt b clock desired a) (remove_key b clock desired)
          (desired.ptt || is_active a.snapshot.ptt) (is_active a.snapshot.key)
          (desired.ptt || is_active a.snapshot.ptt) (desired.key && is_active a.snapshot.key) first
          (λ m p k. ground (arith, remove_key_lem desired m, p, k)) in
      let third =
        then-Writes a _ (assert_key b clock desired) (desired.ptt || is_active a.snapshot.ptt)
          (desired.key && is_active a.snapshot.key) (desired.ptt || is_active a.snapshot.ptt)
          desired.key second (λ m p k. ground (arith, assert_key_lem desired m, p, k)) in
      then-Writes a _ (remove_ptt b clock desired) (desired.ptt || is_active a.snapshot.ptt)
        desired.key desired.ptt desired.key third
        (λ m p k. ground (arith, remove_ptt_lem desired m, p, k))

  -- Where no write fails, the lines of the adapter are those that the scheduler wants.
  pub apply_lines-Writes :
      (desired : LineState) (a : Adapter Port)
      → Writes a (apply_lines b clock desired a) desired.ptt desired.key
  unfolding apply_lines
  apply_lines-Writes desired a =
      elim (Bool-cases (a.snapshot.fault_or_unknown || not a.snapshot.open_safe)) [
        | inl e ↦
            rw e (record { safe = λ h. h; ptt = λ h. absurd (cc h); key = λ h. absurd (cc h) })
        | inr e ↦ rw e (chain_lem desired a)
      ]
