-- ===== src/Acceptance/Passed.antt =====
-- What stands in the history of a workflow of src/core/src/hardware_acceptance.cpp that has passed
-- a step.
use cw_buddy.Base.{
  ◌≡◌, refl, sym, Bool, true, false, ◌&&◌, not, List, [], ◌∷◌, ℕ, ◌==◌, arith, ◌⊎◌, inl, ◌∙◌, inr,
}
use cw_buddy.Text.{Text, text_eq}
use cw_buddy.Acceptance.Record.{
  HardwareAcceptanceRecord, HardwareAcceptancePlatform, platform_eq, valid_record_prefix,
}
use cw_buddy.Acceptance.{
  HardwareAcceptanceWorkflow, DisconnectedLineEvidence, PhysicalLoopbackEvidence, DummyLoadEvidence,
  clear, clear_evidence, status, status_eq, accepted_for_on_air_use, ready_for_safe_hardware_open,
  disconnected_line_required, physical_loopback_required, dummy_load_required,
}
use cw_buddy.Acceptance.Steps.{
  set_configuration, confirm_disconnected_line, confirm_physical_loopback, confirm_dummy_load,
  restore, Call, configures, clears, confirms_disconnected_line, confirms_physical_loopback,
  confirms_dummy_load, restores, step, after,
}
use cw_buddy.Acceptance.Confirmed.{is_complete}

pub data Gate : Type 0 where
  disconnected_gate loopback_gate dummy_load_gate : Gate

abbrev pub stamp : Gate → HardwareAcceptanceRecord → ℕ
stamp disconnected_gate r = r.disconnected_line_utc_seconds
stamp loopback_gate r = r.physical_loopback_utc_seconds
stamp dummy_load_gate r = r.dummy_load_utc_seconds

-- The workflow has passed the step.
abbrev pub has_passed : Gate → HardwareAcceptanceWorkflow → Bool
has_passed g w = not (stamp g w.record_ == 0)

-- The call passes the step in this workflow: its confirmation, due and complete, or a stored record
-- of the same configuration that has passed it.
abbrev pub passes : Gate → Call → HardwareAcceptanceWorkflow → Bool
passes disconnected_gate (confirms_disconnected_line e t) w =
    status_eq (status w) disconnected_line_required
    && is_complete (confirms_disconnected_line e t) w.record_
passes loopback_gate (confirms_physical_loopback e t) w =
    status_eq (status w) physical_loopback_required
    && is_complete (confirms_physical_loopback e t) w.record_
passes dummy_load_gate (confirms_dummy_load e t) w =
    status_eq (status w) dummy_load_required && is_complete (confirms_dummy_load e t) w.record_
passes g (restores r) w =
    valid_record_prefix r
    && (text_eq r.configuration_sha256 w.record_.configuration_sha256
        && (platform_eq r.platform w.record_.platform && not (stamp g r == 0)))
passes g c w = false

abbrev pub IsFor : Text → HardwareAcceptancePlatform → HardwareAcceptanceRecord → Type 0
IsFor sha platform r = (r.configuration_sha256 ≡ sha) × (r.platform ≡ platform)

-- A call of the history passed the step, and the configuration has been this one ever since.
abbrev pub Passed : Gate → Text → HardwareAcceptancePlatform → List Call → Type 0
Passed g sha platform [] = ⊥
Passed g sha platform (c ∷ h) =
    IsFor sha platform (after (c ∷ h)).record_
    × ((passes g c (after h) ≡ true) ⊎ Passed g sha platform h)

-- A step that is passed after a call was passed by it, or before it under the same configuration.
abbrev pub Kept : Gate → Call → HardwareAcceptanceWorkflow → Type 0
Kept g c w =
    has_passed g (step c w).0 ≡ true
    → (passes g c w ≡ true)
      ⊎ ((has_passed g w ≡ true)
          × IsFor w.record_.configuration_sha256 w.record_.platform (step c w).0.record_)

configures-Kept :
    (g : Gate) (sha : Text) (p : HardwareAcceptancePlatform) (w : HardwareAcceptanceWorkflow)
    → Kept g (configures sha p) w
unfolding step set_configuration clear
configures-Kept disconnected_gate sha p w = ground arith
configures-Kept loopback_gate sha p w = ground arith
configures-Kept dummy_load_gate sha p w = ground arith

disconnected-Kept :
    (g : Gate) (e : DisconnectedLineEvidence) (t : ℕ) (w : HardwareAcceptanceWorkflow)
    → Kept g (confirms_disconnected_line e t) w
unfolding step confirm_disconnected_line
disconnected-Kept disconnected_gate e t w = ground arith
disconnected-Kept loopback_gate e t w = ground arith
disconnected-Kept dummy_load_gate e t w = ground arith

loopback-Kept :
    (g : Gate) (e : PhysicalLoopbackEvidence) (t : ℕ) (w : HardwareAcceptanceWorkflow)
    → Kept g (confirms_physical_loopback e t) w
unfolding step confirm_physical_loopback
loopback-Kept disconnected_gate e t w = ground arith
loopback-Kept loopback_gate e t w = ground arith
loopback-Kept dummy_load_gate e t w = ground arith

dummy_load-Kept :
    (g : Gate) (e : DummyLoadEvidence) (t : ℕ) (w : HardwareAcceptanceWorkflow)
    → Kept g (confirms_dummy_load e t) w
unfolding step confirm_dummy_load
dummy_load-Kept disconnected_gate e t w = ground arith
dummy_load-Kept loopback_gate e t w = ground arith
dummy_load-Kept dummy_load_gate e t w = ground arith

restores-Kept :
    (g : Gate) (r : HardwareAcceptanceRecord) (w : HardwareAcceptanceWorkflow)
    → Kept g (restores r) w
unfolding step restore clear_evidence
restores-Kept disconnected_gate r w = ground arith
restores-Kept loopback_gate r w = ground arith
restores-Kept dummy_load_gate r w = ground arith

clears-Kept : (g : Gate) (w : HardwareAcceptanceWorkflow) → Kept g clears w
unfolding step clear
clears-Kept disconnected_gate w = ground arith
clears-Kept loopback_gate w = ground arith
clears-Kept dummy_load_gate w = ground arith

step-Kept : (g : Gate) (c : Call) (w : HardwareAcceptanceWorkflow) → Kept g c w
step-Kept g (configures sha p) w = configures-Kept g sha p w
step-Kept g clears w = clears-Kept g w
step-Kept g (confirms_disconnected_line e t) w = disconnected-Kept g e t w
step-Kept g (confirms_physical_loopback e t) w = loopback-Kept g e t w
step-Kept g (confirms_dummy_load e t) w = dummy_load-Kept g e t w
step-Kept g (restores r) w = restores-Kept g r w

Passed-history :
    (g : Gate) (sha : Text) (p : HardwareAcceptancePlatform) (h : List Call)
    → IsFor sha p (after h).record_
    → has_passed g (after h) ≡ true
    → Passed g sha p h
unfolding after
Passed-history disconnected_gate sha p [] f k = absurd (cc k)
Passed-history loopback_gate sha p [] f k = absurd (cc k)
Passed-history dummy_load_gate sha p [] f k = absurd (cc k)
Passed-history g sha p (c ∷ h) f k = elim (step-Kept g c (after h) k) [
  | inl o ↦ (f, inl o)
  | inr (k', same) ↦ (f, inr (Passed-history g sha p h (sym same.0 ∙ f.0, sym same.1 ∙ f.1) k'))
]

accepted-has_passed :
    (g : Gate) (w : HardwareAcceptanceWorkflow)
    → accepted_for_on_air_use w ≡ true
    → has_passed g w ≡ true
unfolding accepted_for_on_air_use status
accepted-has_passed disconnected_gate w a = ground (arith, a)
accepted-has_passed loopback_gate w a = ground (arith, a)
accepted-has_passed dummy_load_gate w a = ground (arith, a)

-- The steps with the radio disconnected.
abbrev pub is_bench_gate : Gate → Bool
is_bench_gate disconnected_gate = true
is_bench_gate loopback_gate = true
is_bench_gate dummy_load_gate = false

ready-has_passed :
    (g : Gate) (w : HardwareAcceptanceWorkflow)
    → is_bench_gate g ≡ true
    → ready_for_safe_hardware_open w ≡ true
    → has_passed g w ≡ true
unfolding ready_for_safe_hardware_open status
ready-has_passed disconnected_gate w b a = ground (arith, a)
ready-has_passed loopback_gate w b a = ground (arith, a)
ready-has_passed dummy_load_gate w b a = absurd (cc b)

-- If a history of calls ends in a workflow that is accepted for use on the air, then each of the
-- three steps was passed in it, by its complete confirmation when it was due or by restoring a well
-- formed record that had passed it, and the configuration has stayed the accepted one since.
pub accepted_rests_on_evidence :
    (g : Gate) (h : List Call)
    → accepted_for_on_air_use (after h) ≡ true
    → Passed g (after h).record_.configuration_sha256 (after h).record_.platform h
accepted_rests_on_evidence g h a =
    Passed-history g (after h).record_.configuration_sha256 (after h).record_.platform h
      (refl, refl) (accepted-has_passed g (after h) a)

-- If a history of calls ends in a workflow that is ready for opening the hardware, then both steps
-- with the radio disconnected were passed in it under the configuration that it has ended in.
pub ready_rests_on_evidence :
    (g : Gate) (h : List Call)
    → is_bench_gate g ≡ true
    → ready_for_safe_hardware_open (after h) ≡ true
    → Passed g (after h).record_.configuration_sha256 (after h).record_.platform h
ready_rests_on_evidence g h b a =
    Passed-history g (after h).record_.configuration_sha256 (after h).record_.platform h
      (refl, refl) (ready-has_passed g (after h) b a)
