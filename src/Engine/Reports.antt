-- ===== src/Engine/Reports.antt =====
-- src/desktop/transmit/direct_transmit_engine.cpp: the state that the worker reports, and the copy
-- of it that the engine keeps in the thread of its user. Reports reach that thread by two ways, as
-- the results of calls and as queued signals, so that they may come late and more than once.
use cw_buddy.Base.{
  ◌≡◌, refl, Bool, ◌&&◌, ◌||◌, not, List, [], ◌∷◌, ℕ, ◌-◌, ◌≤◌, min, ltb, leb, if◌then◌else◌, arith,
  ◌⊎◌, inl, inr, Bool-cases, is_none, All, ◌+◌,
}
use cw_buddy.Scheduler.{is_running}
use cw_buddy.Keying.{is_active}
use cw_buddy.Engine.{Engine, Status, hardware}

-- `WorkerState`; `D` is the type of the progress.
pub record WorkerState (D : Type 0) : Type 0 where
  pub revision : ℕ
  pub available : Bool
  pub open_safe : Bool
  pub busy : Bool
  pub ptt : Bool
  pub key : Bool
  pub fault : Bool
  pub status : Status
  pub elapsed_ns : ℕ
  pub remaining_ns : ℕ
  pub progress : D

module _ {D : Type 0} (no_progress : D) (ratio : ℕ → ℕ → D) {Port : Type 0} where
  -- The time since the start of the activity, at most its length.
  abbrev pub elapsed_at : ℕ → Engine Port → ℕ
  elapsed_at now_ns e =
      if ltb e.activity_start_ns now_ns
      then min (now_ns - e.activity_start_ns) e.activity_total_ns
      else 0

  -- `state`, with a reading of the clock, which is 0 for a negative one.
  unfoldable pub worker_state : ℕ → Engine Port → WorkerState D
  worker_state now_ns e =
      let timed = ltb 0 e.activity_total_ns in
      record {
        revision = e.revision;
        available = e.configured;
        open_safe = (hardware e).open_safe && (not (hardware e).fault_or_unknown && not e.fault);
        busy = e.tuning || is_running e.scheduler.state;
        ptt = is_active (hardware e).ptt;
        key = is_active (hardware e).key;
        fault = e.fault || not (is_none (hardware e).fault);
        status = e.status;
        elapsed_ns = if timed then elapsed_at now_ns e else 0;
        remaining_ns = if timed then e.activity_total_ns - elapsed_at now_ns e else 0;
        progress = if timed then ratio (elapsed_at now_ns e) e.activity_total_ns else no_progress;
      }

  -- A report never has more time elapsed or left than the activity takes, and together they are
  -- its length.
  worker_state_times :
      (now_ns : ℕ) (e : Engine Port)
      → (worker_state now_ns e).remaining_ns + (worker_state now_ns e).elapsed_ns
        ≡ e.activity_total_ns
  unfolding worker_state
  worker_state_times now_ns e = ground arith

module _ {D : Type 0} where
  -- The copy, after a report.
  unfoldable pub update_cached_state : WorkerState D → WorkerState D → WorkerState D
  update_cached_state report cached = if leb report.revision cached.revision then cached else report

  unfoldable pub update_all : List (WorkerState D) → WorkerState D → WorkerState D
  update_all [] cached = cached
  update_all (report ∷ reports) cached = update_all reports (update_cached_state report cached)

  -- The copy is one of the reports or what it was before.
  pub Comes : WorkerState D → List (WorkerState D) → WorkerState D → Type 0
  Comes before [] after = after ≡ before
  Comes before (report ∷ reports) after = (after ≡ report) ⊎ Comes before reports after

  abbrev pub Newest : List (WorkerState D) → WorkerState D → Type 0
  Newest reports after = All (λ r. r.revision ≤ after.revision) reports

  Comes-update :
      (report before after : WorkerState D) (reports : List (WorkerState D))
      → Comes (update_cached_state report before) reports after
      → Comes before (report ∷ reports) after
  unfolding update_cached_state Comes
  Comes-update report before after [] c = elim (Bool-cases (leb report.revision before.revision)) [
    | inl e ↦ inr (ground (arith, c, e))
    | inr e ↦ inl (ground (arith, c, e))
  ]
  Comes-update report before after (r ∷ reports) (inl e) = inr (inl e)
  Comes-update report before after (r ∷ reports) (inr c) =
      elim (Comes-update report before after reports c) [ inl e ↦ inl e | inr e ↦ inr (inr e) ]

  -- However the reports of a worker arrive, late, repeated or in another order, the copy that the
  -- engine keeps afterwards is one of them or what it was before, and no report that arrived is
  -- newer than it; it is never older than before.
  pub update_all-Newest :
      (reports : List (WorkerState D)) (cached : WorkerState D)
      → (cached.revision ≤ (update_all reports cached).revision)
        × (Newest reports (update_all reports cached)
            × Comes cached reports (update_all reports cached))
  unfolding update_all update_cached_state Comes
  update_all-Newest [] cached = (omega arith, (tt, refl))
  update_all-Newest (report ∷ reports) cached =
      let (grows, (newest, comes)) =
        update_all-Newest reports (update_cached_state report cached) in
      (
        ground (arith, grows),
        ((ground (arith, grows), newest), Comes-update report cached _ reports comes),
      )
