-- ===== src/Acceptance/Evidence.antt =====
-- What the operations of src/core/src/hardware_acceptance.cpp demand, and what an accepted workflow
-- rests on.
use cw_buddy.Base.{◌≡◌, refl, true, false, List, [], ◌∷◌, ℕ, arith, ◌⊎◌, inl}
use cw_buddy.Text.{Text}
use cw_buddy.Acceptance.Record.{
  HardwareAcceptanceRecord, HardwareAcceptancePlatform, valid_fingerprint, valid_record_prefix,
}
use cw_buddy.Acceptance.{
  HardwareAcceptanceWorkflow, DisconnectedLineEvidence, PhysicalLoopbackEvidence, DummyLoadEvidence,
  clear, clear_evidence, status,
}
use cw_buddy.Acceptance.Steps.{
  set_configuration, confirm_disconnected_line, confirm_physical_loopback, confirm_dummy_load,
  restore, Call, configures, clears, confirms_disconnected_line, confirms_physical_loopback,
  confirms_dummy_load, restores, step, after,
}

-- No configuration is selected and there is no evidence.
abbrev pub IsBlank : HardwareAcceptanceRecord → Type 0
IsBlank r =
    (valid_fingerprint r.configuration_sha256 ≡ false)
    × (r.disconnected_line_utc_seconds ≡ 0)
    × (r.physical_loopback_utc_seconds ≡ 0)
    × (r.dummy_load_utc_seconds ≡ 0)

-- Without a configuration there is no evidence; otherwise the record could be stored and restored.
abbrev pub Inv : HardwareAcceptanceWorkflow → Type 0
Inv w = IsBlank w.record_ ⊎ (valid_record_prefix w.record_ ≡ true)

clear-Inv : (w : HardwareAcceptanceWorkflow) → Inv (clear w)
unfolding clear valid_fingerprint
clear-Inv w = inl (refl, refl, refl, refl)

set_configuration-Inv :
    (sha : Text) (platform : HardwareAcceptancePlatform) (w : HardwareAcceptanceWorkflow)
    → Inv w
    → Inv (set_configuration sha platform w).0
unfolding set_configuration
set_configuration-Inv sha platform w i =
    unfold valid_record_prefix in ground (arith, clear-Inv w, i)

confirm_disconnected_line-Inv :
    (e : DisconnectedLineEvidence) (t : ℕ) (w : HardwareAcceptanceWorkflow)
    → Inv w
    → Inv (confirm_disconnected_line e t w).0
unfolding confirm_disconnected_line status valid_record_prefix
confirm_disconnected_line-Inv e t w i = ground (arith, i)

confirm_physical_loopback-Inv :
    (e : PhysicalLoopbackEvidence) (t : ℕ) (w : HardwareAcceptanceWorkflow)
    → Inv w
    → Inv (confirm_physical_loopback e t w).0
unfolding confirm_physical_loopback status valid_record_prefix
confirm_physical_loopback-Inv e t w i = ground (arith, i)

confirm_dummy_load-Inv :
    (e : DummyLoadEvidence) (t : ℕ) (w : HardwareAcceptanceWorkflow)
    → Inv w
    → Inv (confirm_dummy_load e t w).0
unfolding confirm_dummy_load status valid_record_prefix
confirm_dummy_load-Inv e t w i = ground (arith, i)

restore-Inv :
    (r : HardwareAcceptanceRecord) (w : HardwareAcceptanceWorkflow) → Inv w → Inv (restore r w).0
unfolding restore clear_evidence valid_record_prefix
restore-Inv r w i = ground (arith, i)

pub step-Inv : (c : Call) (w : HardwareAcceptanceWorkflow) → Inv w → Inv (step c w).0
unfolding step
step-Inv (configures sha platform) w i = set_configuration-Inv sha platform w i
step-Inv clears w i = clear-Inv w
step-Inv (confirms_disconnected_line e t) w i = confirm_disconnected_line-Inv e t w i
step-Inv (confirms_physical_loopback e t) w i = confirm_physical_loopback-Inv e t w i
step-Inv (confirms_dummy_load e t) w i = confirm_dummy_load-Inv e t w i
step-Inv (restores r) w i = restore-Inv r w i

-- After any history of calls a configured workflow holds a record that `restore` would take back
-- under the same configuration, and an unconfigured one holds no evidence.
pub history-IsOrdered : (h : List Call) → Inv (after h)
unfolding after
history-IsOrdered [] = unfold valid_fingerprint in inl (refl, refl, refl, refl)
history-IsOrdered (c ∷ h) = step-Inv c (after h) (history-IsOrdered h)
