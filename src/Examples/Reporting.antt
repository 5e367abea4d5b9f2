-- ===== src/Examples/Reporting.antt =====
-- Reports of the worker of src/desktop/transmit/direct_transmit_engine.cpp that arrive out of order.
use cw_buddy.Base.{◌≡◌, refl, Bool, true, false, List, [], ◌∷◌, ℕ, ◌≤◌}
use cw_buddy.Engine.{Status, adapter_closed, tune_active}
use cw_buddy.Engine.Reports.{
  WorkerState, update_cached_state, update_all, Comes, Newest, update_all-Newest,
}

abbrev report : ℕ → Bool → Status → WorkerState ℕ
report revision busy status = record {
  revision = revision;
  available = true;
  open_safe = true;
  busy = busy;
  ptt = busy;
  key = busy;
  fault = false;
  status = status;
  elapsed_ns = 0;
  remaining_ns = 0;
  progress = 0;
}

-- The result of a call, and then the signals that were queued before it.
abbrev late_reports : List (WorkerState ℕ)
late_reports =
    report 5 false adapter_closed ∷ report 4 true tune_active ∷ report 5 false adapter_closed ∷ []

abbrev shown : WorkerState ℕ
shown = report 3 true tune_active

late_ignored : update_all late_reports shown ≡ report 5 false adapter_closed
unfolding update_all update_cached_state
late_ignored = refl

update_all-Newest_example :
    (shown.revision ≤ (update_all late_reports shown).revision)
    × (Newest late_reports (update_all late_reports shown)
        × Comes shown late_reports (update_all late_reports shown))
update_all-Newest_example = update_all-Newest late_reports shown
