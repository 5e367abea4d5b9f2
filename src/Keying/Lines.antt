-- ===== src/Keying/Lines.antt =====
-- The states of the two lines after each call of the adapter.
use cw_buddy.Base.{◌≡◌, refl, Bool, true, false, ◌||◌, not, none, Bool-cases, inl, inr, arith}
use cw_buddy.Keying.{
  unknown, inactive, Fault, KeyingConfig, Snapshot, Backend, Adapter, Role, ptt_role, key_role,
  is_active, level_of, line_eq, refused, no_port, same_lines, not_active_high, is_blank,
  release_line, finish_release, release_all, close, fault_and_close, initialize_lines,
  open_acquired, open_closed, open_adapter, set_logical_line,
}

-- Neither line is active.
pub record IsQuiet (sn : Snapshot) : Type 0 where
  pub ptt : is_active sn.ptt ≡ false
  pub key : is_active sn.key ≡ false

-- The port is open, nothing is wrong, and both lines are inactive.
pub record IsKnownInactive (sn : Snapshot) : Type 0 where
  pub open_safe : sn.open_safe ≡ true
  pub ptt : sn.ptt ≡ inactive
  pub key : sn.key ≡ inactive
  pub fault_or_unknown : sn.fault_or_unknown ≡ false
  pub fault : sn.fault ≡ none

pub record IsClosed (sn : Snapshot) : Type 0 where
  pub open_safe : sn.open_safe ≡ false
  pub ptt : sn.ptt ≡ unknown
  pub key : sn.key ≡ unknown
  pub fault_or_unknown : sn.fault_or_unknown ≡ true

abbrev pub other_role : Role → Role
other_role ptt_role = key_role
other_role key_role = ptt_role

-- What `open` leaves, by its result.
abbrev pub IsOutcome : Bool → Snapshot → Type 0
IsOutcome true sn = IsKnownInactive sn
IsOutcome false sn = IsClosed sn

module _ (b : Backend) where
  open b use {Port, acquire}

  -- After a release no line is active, and after one without error both are inactive.
  pub release_all-IsQuiet : (a : Adapter Port) → IsQuiet (release_all b a).0.snapshot
  unfolding release_all finish_release release_line
  release_all-IsQuiet a = ground arith

  pub release_all_released :
      (a : Adapter Port)
      → (release_all b a).1 ≡ true
      → ((release_all b a).0.snapshot.ptt ≡ inactive)
        × ((release_all b a).0.snapshot.key ≡ inactive)
        × ((release_all b a).0.snapshot.fault ≡ a.snapshot.fault)
        × ((release_all b a).0.snapshot.open_safe ≡ a.snapshot.open_safe)
  unfolding release_all finish_release release_line
  release_all_released a h = ground (arith, h)

  pub close-IsClosed : (a : Adapter Port) → IsClosed (close b a).snapshot
  unfolding close
  close-IsClosed a = ground arith

  pub fault_and_close-IsClosed :
      (error : Fault) (release : Bool) (a : Adapter Port)
      → IsClosed (fault_and_close b error release a).snapshot
  unfolding fault_and_close
  fault_and_close-IsClosed error release a = ground arith

  IsOpened : Adapter Port × Bool → Type 0
  IsOpened (a, opened) = IsOutcome opened a.snapshot

  initialize_lines_lem :
      (a : Adapter Port) → a.snapshot.fault ≡ none → IsOpened (initialize_lines b a)
  unfolding initialize_lines IsOpened
  initialize_lines_lem a h = elim (Bool-cases (release_all b a).1) [
    | inl e ↦ rw e (ground (arith, release_all_released a e, h))
    | inr e ↦ rw e (fault_and_close-IsClosed _ _ _)
  ]

  open_acquired_lem : (a : Adapter Port) → a.snapshot.fault ≡ none → IsOpened (open_acquired b a)
  unfolding open_acquired IsOpened
  open_acquired_lem a h = elim (Bool-cases (b.open_port a.port).1) [
    | inl e ↦ rw e (initialize_lines_lem _ h)
    | inr e ↦ rw e (ground arith)
  ]

  refused-IsClosed :
      (fault : Fault) (a : Adapter Port) → IsClosed a.snapshot → IsOpened (refused fault a)
  unfolding refused IsOpened
  refused-IsClosed fault a h = ground (arith, h)

  open_closed_lem :
      (config : KeyingConfig) (a : Adapter Port)
      → a.snapshot.fault ≡ none
      → IsClosed a.snapshot
      → IsOpened (open_closed b config a)
  unfolding open_closed
  open_closed_lem config a h c = elim (Bool-cases (is_blank config.port_name)) [
    | inl e ↦ rw e (refused-IsClosed no_port a c)
    | inr e ↦ rw e (elim (Bool-cases (line_eq config.ptt_line config.key_line)) [
      | inl l ↦ rw l (refused-IsClosed same_lines a c)
      | inr l ↦ rw l (elim (Bool-cases (not config.ptt_active_high || not config.key_active_high)) [
        | inl p ↦ rw p (refused-IsClosed not_active_high a c)
        | inr p ↦ rw p (elim (Bool-cases (acquire config.port_name a.port).1) [
          | inl q ↦ rw q (open_acquired_lem _ h)
          | inr q ↦ rw q (refused-IsClosed _ _ c)
        ])
      ])
    ])
  ]

  -- The adapter opens with both lines inactive, or it is closed.
  pub open_adapter_lem :
      (config : KeyingConfig) (a : Adapter Port)
      → IsOutcome (open_adapter b config a).1 (open_adapter b config a).0.snapshot
  unfolding open_adapter IsOpened
  open_adapter_lem config a = open_closed_lem config _ refl (ground (arith, close-IsClosed a))

  -- A write that succeeds sets its line and leaves the other.
  pub set_logical_line_set :
      (role : Role) (asserted : Bool) (a : Adapter Port)
      → (set_logical_line b role asserted a).1 ≡ true
      → (is_active (level_of role (set_logical_line b role asserted a).0.snapshot) ≡ asserted)
        × (level_of (other_role role) (set_logical_line b role asserted a).0.snapshot
            ≡ level_of (other_role role) a.snapshot)
        × ((set_logical_line b role asserted a).0.snapshot.open_safe ≡ true)
        × (a.snapshot.open_safe ≡ true)
  unfolding set_logical_line
  set_logical_line_set ptt_role true a h = ground (arith, h)
  set_logical_line_set ptt_role false a h = ground (arith, h)
  set_logical_line_set key_role true a h = ground (arith, h)
  set_logical_line_set key_role false a h = ground (arith, h)

  -- No call but `open` makes the port safe.
  pub set_logical_line_safe :
      (role : Role) (asserted : Bool) (a : Adapter Port)
      → (set_logical_line b role asserted a).0.snapshot.open_safe ≡ true
      → a.snapshot.open_safe ≡ true
  unfolding set_logical_line
  set_logical_line_safe role asserted a h = ground (arith, h)

  pub release_all_safe :
      (a : Adapter Port)
      → (release_all b a).0.snapshot.open_safe ≡ true
      → a.snapshot.open_safe ≡ true
  unfolding release_all finish_release release_line
  release_all_safe a h = ground (arith, h)
