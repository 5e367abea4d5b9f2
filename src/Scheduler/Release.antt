-- ===== src/Scheduler/Release.antt =====
-- How the scheduler of src/core/src/cw_transmit_scheduler.cpp lets the lines go.
use cw_buddy.Base.{◌≡◌, refl, ◌⊎◌, true, false, ℕ, ◌+◌, ◌<◌, arith, ◌≢◌}
use cw_buddy.Encoder.{Plan}
use cw_buddy.Scheduler.{
  Scheduler, running, emergency, faulted_state, Phase, no_phase, lead, spans_phase, hang,
  enter_terminal, trip_fault, set_next_transition, start, started, advance, advance_running,
  advance_phase, cancel, emergency_release, reset, Command, starts, advances, cancels, releases,
  resets, step, faulted,
}
use cw_buddy.Scheduler.Invariant.{Inv, step-Inv}

-- PTT went off in a step from `s` to `t`.
abbrev DropsPtt : Scheduler → Scheduler → Type 0
DropsPtt s t = (s.lines.ptt ≡ true) × (t.lines.ptt ≡ false)

advance_phase_keeps_ptt :
    (ph : Phase) (s : Scheduler) → ph ≢ hang → (advance_phase ph s).0.lines.ptt ≡ s.lines.ptt
unfolding advance_phase set_next_transition trip_fault enter_terminal
advance_phase_keeps_ptt lead s h = ground arith
advance_phase_keeps_ptt spans_phase s h = ground arith
advance_phase_keeps_ptt hang s h = absurd (h refl)
advance_phase_keeps_ptt no_phase s h = ground arith

advance_running_drops :
    (now : ℕ) (s : Scheduler) → DropsPtt s (advance_running now s).0 → s.phase ≡ hang
unfolding advance_running trip_fault enter_terminal
advance_running_drops now s d = go s.phase refl
  where
    go : (ph : Phase) → s.phase ≡ ph → s.phase ≡ hang
    go hang e = e
    go lead e = ground (arith, advance_phase_keeps_ptt lead (record s { last_advance_ns = now }))
    go spans_phase e =
        ground (arith, advance_phase_keeps_ptt spans_phase (record s { last_advance_ns = now }))
    go no_phase e =
        ground (arith, advance_phase_keeps_ptt no_phase (record s { last_advance_ns = now }))

start_keeps_ptt :
    (p : Plan) (now : ℕ) (s : Scheduler) → s.lines.ptt ≡ true → (start p now s).0.lines.ptt ≡ true
unfolding start started set_next_transition trip_fault enter_terminal
start_keeps_ptt p now s h = ground arith

key_needs_ptt : (s : Scheduler) → Inv s → s.lines.ptt ≡ false → s.lines.key ≡ false
key_needs_ptt s v off = ground arith

advance_drops_key_up :
    (now : ℕ) (s : Scheduler) → Inv s → DropsPtt s (advance now s).0 → s.lines.key ≡ false
unfolding advance
advance_drops_key_up now s v d = ground (arith, advance_running_drops now s)

-- If a command, whichever, releases PTT of a scheduler that keeps the invariant, then KEY was up
-- before it and is up afterwards: the key is let go in an earlier step than the transmitter.
pub step_releases_key_first :
    (c : Command) (s : Scheduler)
    → Inv s
    → s.lines.ptt ≡ true
    → (step c s).lines.ptt ≡ false
    → (s.lines.key ≡ false) × ((step c s).lines.key ≡ false)
unfolding step advance cancel emergency_release enter_terminal reset
step_releases_key_first (starts p now) s v on off = ground (arith, start_keeps_ptt p now s on)
step_releases_key_first (advances now) s v on off = (
  advance_drops_key_up now s v (on, off),
  key_needs_ptt (advance now s).0 (step-Inv (advances now) s v) off,
)
step_releases_key_first cancels s v on off = ground arith
step_releases_key_first releases s v on off = ground arith
step_releases_key_first resets s v on off = ground arith

-- A scheduler that keeps the invariant and does not run, for whatever reason, has both lines off
-- after one advance.
pub stopped_advance_releases :
    (now : ℕ) (s : Scheduler)
    → Inv s
    → s.state ≢ running
    → ((advance now s).0.lines.key ≡ false) × ((advance now s).0.lines.ptt ≡ false)
unfolding advance
stopped_advance_releases now s v h = ground arith

-- An emergency release lets the key go at once, in any state, and the next advance releases PTT.
pub emergency_releases_both :
    (now : ℕ) (s : Scheduler)
    → let e = emergency_release s in
      (e.lines.key ≡ false)
      × (e.state ≡ emergency)
      × ((advance now e).0.lines.key ≡ false)
      × ((advance now e).0.lines.ptt ≡ false)
unfolding advance emergency_release enter_terminal
emergency_releases_both now s = ground arith

-- A clock that goes back, or a call that comes too late after the transition that is due, stops a
-- running scheduler: the key is let go at once, PTT stays for one call more, and the fault is told.
pub advance_bad_clock :
    (now : ℕ) (s : Scheduler)
    → s.state ≡ running
    → (now < s.last_advance_ns)
      ⊎ (s.next_transition_ns + s.config.maximum_transition_lateness_ns < now)
    → let (t, r) = advance now s in
      (r ≡ faulted)
      × (t.state ≡ faulted_state)
      × (t.lines.key ≡ false)
      × (t.lines.ptt ≡ s.lines.ptt)
      × (t.release_pending ≡ s.lines.ptt)
unfolding advance advance_running trip_fault enter_terminal
advance_bad_clock now s r bad = ground arith
