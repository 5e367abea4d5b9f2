-- ===== src/Scheduler/Durations.antt =====
-- What an accepted plan and a successful `start` of src/core/src/cw_transmit_scheduler.cpp say of
-- durations.
use cw_buddy.Base.{
  u64, u64_max, ◌≡◌, sym, ◌∙◌, Bool, true, false, ◌||◌, not, List, [], ◌∷◌, ℕ, ◌+◌, ◌*◌, ◌/◌, ◌≤◌,
  ◌<◌, some, arith, inl, inr, Option-cases, Bool-cases,
}
use native.Mathlib.Nat.{le-div_iff_mul-le}
use cw_buddy.Encoder.{Span, Plan, front_key_down}
use cw_buddy.Encoder.Loops.{units}
use cw_buddy.Scheduler.Invariant.{validate_plan-facts}
use cw_buddy.Scheduler.{
  Config, Scheduler, lead, validate_plan, check_spans, refuses_span, start, started, overflows,
  valid_config, is_idle,
}
use cw_buddy.Scheduler.Clock.{Runs, set_next_transition_lem}

check_spans-units :
    (dot : ℕ) (spans : List Span) (acc : ℕ) (previous : Bool) (n : ℕ)
    → check_spans dot spans acc previous ≡ some n
    → n ≡ acc + units spans
unfolding check_spans
check_spans-units dot [] acc previous n h = ground arith
check_spans-units dot (s ∷ spans) acc previous n h =
    elim (Bool-cases (refuses_span dot s acc previous)) [
      | inl e ↦ absurd (cc (rw e at h))
      | inr e ↦
          omega
            (arith, check_spans-units dot spans (acc + s.duration_units) s.key_down n (rw e at h))
    ]

validate_plan_counted :
    (c : Config) (p : Plan)
    → validate_plan c p ≡ true
    → (n : ℕ) × (check_spans p.dot_duration_ns p.spans 0 (not (front_key_down p.spans)) ≡ some n)
      × (n ≤ u64_max / p.dot_duration_ns)
      × (u64 (n * p.dot_duration_ns) ≡ p.total_duration_ns)
      × (0 < p.dot_duration_ns)
unfolding validate_plan
validate_plan_counted c p h =
    elim (Option-cases (check_spans p.dot_duration_ns p.spans 0 (not (front_key_down p.spans)))) [
      | inl e ↦ absurd (ground arith)
      | inr (n, e) ↦ (n, e, ground arith, ground arith, ground arith)
    ]

-- The duration of a validated plan is the exact product of its units and its dot.
pub validate_plan-duration :
    (c : Config) (p : Plan)
    → validate_plan c p ≡ true
    → units p.spans * p.dot_duration_ns ≡ p.total_duration_ns
validate_plan-duration c p h =
    let (n, e, room, total, positive) = validate_plan_counted c p h in
    let same : n ≡ units p.spans =
      omega (arith, check_spans-units p.dot_duration_ns p.spans 0 _ n e) in
    let fits : n * p.dot_duration_ns ≤ u64_max = (le-div_iff_mul-le positive).0 room in
    let exact : u64 (n * p.dot_duration_ns) ≡ n * p.dot_duration_ns = omega arith in
    rw (← same) (sym exact ∙ total)

overflows-facts :
    (c : Config) (p : Plan) (now : ℕ)
    → valid_config c ≡ true
    → overflows c p now ≡ false
    → now + c.ptt_lead_ns + p.total_duration_ns + c.ptt_hang_ns ≤ u64_max
unfolding valid_config overflows
overflows-facts c p now v h = ground arith

pub start-facts :
    (p : Plan) (now : ℕ) (s s' : Scheduler)
    → start p now s ≡ (s', true)
    → (validate_plan s.config p ≡ true)
      × (now + s.config.ptt_lead_ns + p.total_duration_ns + s.config.ptt_hang_ns ≤ u64_max)
      × (s' ≡ record (started p now s) { next_transition_ns = now + s.config.ptt_lead_ns })
unfolding start
start-facts p now s s' h =
    elim (Bool-cases (not (is_idle s.state) || not (validate_plan s.config p))) [
      | inl e ↦ absurd (cc (rw e at h))
      | inr e ↦ elim (Bool-cases (overflows s.config p now)) [
        | inl f ↦ absurd (cc (rw (e, f) at h))
        | inr f ↦
            let valid : validate_plan s.config p ≡ true = ground arith in
            let fits = overflows-facts s.config p now (validate_plan-facts s.config p valid).2 f in
            let made =
              set_next_transition_lem now s.config.ptt_lead_ns (started p now s) (omega arith) in
            (valid, fits, ground arith)
      ]
    ]

pub started-Runs :
    (p : Plan) (now : ℕ) (s s' : Scheduler)
    → s' ≡ record (started p now s) { next_transition_ns = now + s.config.ptt_lead_ns }
    → Runs s.config p (now + s.config.ptt_lead_ns) now s' × (s'.phase ≡ lead)
unfolding started
started-Runs p now s s' e = ground arith
