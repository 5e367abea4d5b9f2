-- ===== src/Engine/Scheduled.antt =====
-- The scheduler in the worker of src/desktop/transmit/direct_transmit_engine.cpp.
use cw_buddy.Base.{◌≢◌, ltb, ◌≡◌, Bool, true, false, ℕ, ◌+◌, Bool-cases, inl, inr, arith}
use cw_buddy.Encoder.{Plan}
use cw_buddy.Scheduler
use cw_buddy.Scheduler.{
  Phase, lead, spans_phase, hang, no_phase, default_config, Scheduler, Config, AdvanceResult,
  no_change, transition, faulted, is_running, is_idle, new_scheduler, starts, advances, cancels,
  releases, resets, step,
}
use cw_buddy.Scheduler.Invariant.{Inv, step-Inv}

pub reported_changes : (r : Scheduler × Bool) → (Scheduler.reported r).1 ≢ no_change
reported_changes (s, true) = λ h. absurd (cc h)
reported_changes (s, false) = λ h. absurd (cc h)

pub advance_phase_changes :
    (ph : Phase) (s : Scheduler) → (Scheduler.advance_phase ph s).1 ≢ no_change
unfolding Scheduler.advance_phase
advance_phase_changes lead s = reported_changes _
advance_phase_changes spans_phase s =
    elim (Bool-cases (ltb (s.span_index + 1) (Scheduler.plan_size s.plan))) [
      | inl e ↦ rw e (reported_changes _)
      | inr e ↦ rw e (reported_changes _)
    ]
advance_phase_changes hang s = λ h. absurd (cc h)
advance_phase_changes no_phase s = λ h. absurd (cc h)

-- An advance that reports no change leaves the lines.
pub advance_no_change :
    (now : ℕ) (s : Scheduler)
    → (Scheduler.advance now s).1 ≡ no_change
    → (Scheduler.advance now s).0.lines ≡ s.lines
unfolding Scheduler.advance Scheduler.advance_running
advance_no_change now s h =
    ground (arith, h, advance_phase_changes s.phase (record s { last_advance_ns = now }))

pub cancel-Inv : (s : Scheduler) → Inv s → Inv (Scheduler.cancel s).0
unfolding step
cancel-Inv s v = step-Inv cancels s v

pub start-Inv : (p : Plan) (now : ℕ) (s : Scheduler) → Inv s → Inv (Scheduler.start p now s).0
unfolding step
start-Inv p now s v = step-Inv (starts p now) s v

pub reset-Inv : (s : Scheduler) → Inv s → Inv (Scheduler.reset s).0
unfolding step
reset-Inv s v = step-Inv resets s v
