-- ===== src/Acceptance/Confirmed.antt =====
-- The three confirmations of src/core/src/hardware_acceptance.cpp: what each demands and what it
-- leaves.
use cw_buddy.Base.{
  ◌≡◌, Bool, true, false, ◌&&◌, not, ℕ, ◌==◌, leb, if◌then◌else◌, arith, Option, some, none, subst,
}
use cw_buddy.Acceptance.Record.{HardwareAcceptanceRecord, valid_record_prefix}
use cw_buddy.Acceptance.{
  HardwareAcceptanceWorkflow, HardwareAcceptanceStatus, DisconnectedLineEvidence,
  PhysicalLoopbackEvidence, DummyLoadEvidence, status, status_eq, configuration_required,
  disconnected_line_required, physical_loopback_required, dummy_load_required, accepted, no_failure,
  HardwareAcceptanceFailure,
}
use cw_buddy.Acceptance.Evidence.{Inv}
use cw_buddy.Acceptance.Steps.{
  Outcome, confirm_disconnected_line, confirm_physical_loopback, confirm_dummy_load, Call,
  configures, clears, confirms_disconnected_line, confirms_physical_loopback, confirms_dummy_load,
  restores, step,
}

-- The status in which a confirmation is due.
abbrev pub due_status : Call → Option HardwareAcceptanceStatus
due_status (configures sha platform) = none
due_status clears = none
due_status (confirms_disconnected_line e t) = some disconnected_line_required
due_status (confirms_physical_loopback e t) = some physical_loopback_required
due_status (confirms_dummy_load e t) = some dummy_load_required
due_status (restores r) = none

abbrev pub is_complete : Call → HardwareAcceptanceRecord → Bool
is_complete (configures sha platform) r = true
is_complete clears r = true
is_complete (confirms_disconnected_line e t) r =
    not (t == 0)
    && (e.radio_disconnected
        && (e.ptt_inactive_observed
            && (e.key_inactive_observed && e.independent_release_available)))
is_complete (confirms_physical_loopback e t) r =
    leb r.disconnected_line_utc_seconds t
    && (e.radio_disconnected
        && (e.ptt_transition_observed
            && (e.key_transition_observed && e.both_lines_returned_inactive)))
is_complete (confirms_dummy_load e t) r =
    leb r.physical_loopback_utc_seconds t
    && (e.dummy_load_connected
        && (e.minimum_power_selected
            && (e.message_keying_observed
                && (e.cancellation_release_observed
                    && (e.watchdog_release_observed && e.emergency_release_observed)))))
is_complete (restores r') r = true

abbrev pub next_status : HardwareAcceptanceStatus → HardwareAcceptanceStatus
next_status configuration_required = disconnected_line_required
next_status disconnected_line_required = physical_loopback_required
next_status physical_loopback_required = dummy_load_required
next_status dummy_load_required = accepted
next_status accepted = accepted

abbrev pub has_failed : HardwareAcceptanceFailure → Bool
has_failed no_failure = false
has_failed f = true

-- A confirmation succeeds exactly in its status with its evidence, and goes one status on;
-- otherwise it keeps the record and names a failure.
abbrev pub IsStep : HardwareAcceptanceStatus → Bool → HardwareAcceptanceWorkflow → Outcome → Type 0
IsStep s complete w (w', ok) =
    (ok ≡ (status_eq (status w) s && complete))
    × (status w' ≡ (if ok then next_status s else status w))
    × (w.record_ ≡ (if ok then w.record_ else w'.record_))
    × (has_failed w'.last_failure ≡ not ok)

disconnected-IsStep :
    (e : DisconnectedLineEvidence) (t : ℕ) (w : HardwareAcceptanceWorkflow)
    → Inv w
    → IsStep disconnected_line_required
        (is_complete (confirms_disconnected_line e t) w.record_)
        w
        (confirm_disconnected_line e t w)
unfolding confirm_disconnected_line status valid_record_prefix
disconnected-IsStep e t w i = ground (arith, i)

loopback-IsStep :
    (e : PhysicalLoopbackEvidence) (t : ℕ) (w : HardwareAcceptanceWorkflow)
    → Inv w
    → IsStep physical_loopback_required
        (is_complete (confirms_physical_loopback e t) w.record_)
        w
        (confirm_physical_loopback e t w)
unfolding confirm_physical_loopback status valid_record_prefix
loopback-IsStep e t w i = ground (arith, i)

dummy_load-IsStep :
    (e : DummyLoadEvidence) (t : ℕ) (w : HardwareAcceptanceWorkflow)
    → Inv w
    → IsStep dummy_load_required
        (is_complete (confirms_dummy_load e t) w.record_)
        w
        (confirm_dummy_load e t w)
unfolding confirm_dummy_load status valid_record_prefix
dummy_load-IsStep e t w i = ground (arith, i)

-- Each of the three confirmations succeeds exactly in its own status and with all of its evidence,
-- a time of observation that is no earlier than the step before included, if the
-- workflow is well formed. Then the workflow is in
-- the next status; otherwise the record is as it was and a failure is named.
pub confirmation-IsStep :
    (c : Call) (s : HardwareAcceptanceStatus) (w : HardwareAcceptanceWorkflow)
    → Inv w
    → due_status c ≡ some s
    → IsStep s (is_complete c w.record_) w (step c w)
unfolding step
confirmation-IsStep (configures sha platform) s w i d = absurd (cc d)
confirmation-IsStep clears s w i d = absurd (cc d)
confirmation-IsStep (confirms_disconnected_line e t) s w i d =
    subst
      (λ x.
        IsStep x (is_complete (confirms_disconnected_line e t) w.record_) w
          (confirm_disconnected_line e t w))
      (cc d) (disconnected-IsStep e t w i)
confirmation-IsStep (confirms_physical_loopback e t) s w i d =
    subst
      (λ x.
        IsStep x (is_complete (confirms_physical_loopback e t) w.record_) w
          (confirm_physical_loopback e t w))
      (cc d) (loopback-IsStep e t w i)
confirmation-IsStep (confirms_dummy_load e t) s w i d =
    subst
      (λ x. IsStep x (is_complete (confirms_dummy_load e t) w.record_) w (confirm_dummy_load e t w))
      (cc d) (dummy_load-IsStep e t w i)
confirmation-IsStep (restores r) s w i d = absurd (cc d)
