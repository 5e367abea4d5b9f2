-- ===== src/Examples/Keying.antt =====
-- Messages through src/core/src/cw_transmit_encoder.cpp and src/core/src/cw_transmit_scheduler.cpp.
use cw_buddy.Base.{
  ◌≡◌, ◌≢◌, refl, some, true, false, ◌&&◌, List, [], ◌∷◌, ◌+◌, ◌*◌, ◌<◌, ℕ, map, arith, leb,
}
use cw_buddy.Text.{codes, text_eq, split_at}
use cw_buddy.Morse.{
  morse_table, prosign_table, find_prosign, prosign_elements, find_character, elements_for,
  is_transmittable_prosign,
}
use cw_buddy.Encoder.{
  Plan, span, set_back, append_span, append_elements, append_gap, emit, encode_here, encode_step,
  encode_loop, total_units_from, finish_plan, refuses, encode,
}
use cw_buddy.Sending.{Item, character, prosign, render, IsMessage}
use cw_buddy.Encoder.Loops.{units}
use cw_buddy.Sending.Reference.{IsDot, morse_marks, morse_spans, encode-render}
use cw_buddy.Scheduler.{
  default_config, Scheduler, running, new_scheduler, valid_config, refuses_span, check_spans,
  validate_plan, enter_terminal, set_next_transition, overflows, started, start, advance_phase,
  advance_running, advance, cancel, Command, starts, advances, cancels, step, run,
}
use cw_buddy.Scheduler.Plans.{encode-validate_plan}
use cw_buddy.Scheduler.Invariant.{Inv, run-new_scheduler-Inv}
use cw_buddy.Scheduler.Release.{step_releases_key_first}
use cw_buddy.Scheduler.Timing.{Completes, start-Completes}
use cw_buddy.Scheduler.Clock.{IsPunctual, due_times}

abbrev word_plan : Plan
word_plan = record {
  text = codes "A <KN>";
  spans =
      span true 1
      ∷ span false 1
      ∷ span true 3
      ∷ span false 7
      ∷ span true 3
      ∷ span false 1
      ∷ span true 1
      ∷ span false 1
      ∷ span true 3
      ∷ span false 1
      ∷ span true 3
      ∷ span false 1
      ∷ span true 1
      ∷ [];
  dot_duration_ns = 60000000;
  total_duration_ns = 1620000000;
}

encode_word : encode (codes "A <KN>") 20 ≡ some word_plan
unfolding set_back append_span append_elements append_gap emit encode_here encode_step encode_loop
    total_units_from finish_plan refuses encode split_at text_eq morse_table prosign_table
    find_prosign prosign_elements find_character elements_for
encode_word = refl

encode-validate_plan_example :
    validate_plan default_config word_plan
    ≡ (valid_config default_config && leb 1620000000 default_config.maximum_message_duration_ns)
encode-validate_plan_example =
    encode-validate_plan (codes "A <KN>") 20 default_config word_plan encode_word

abbrev word_items : List Item
word_items =
    record { word_start = false; token = character b'A' }
    ∷ record { word_start = true; token = prosign (codes "KN") }
    ∷ []

word_items-IsMessage : IsMessage word_items
unfolding is_transmittable_prosign find_prosign prosign_table prosign_elements text_eq elements_for
    find_character morse_table
word_items-IsMessage = record { tokens = (refl, (refl, tt)); no_front_space = refl }

encode-render_example :
    (dot : ℕ) × IsDot 20 dot
    × (encode (render word_items) 20
        ≡ some (record {
          text = render word_items;
          spans = morse_spans word_items;
          dot_duration_ns = dot;
          total_duration_ns = units (morse_spans word_items) * dot;
        }))
encode-render_example =
    encode-render word_items 20 word_items-IsMessage refl (omega arith) (omega arith) (omega arith)

-- The word that speeds are counted in has fifty units, with the gap behind it.
paris_units :
    units (
        morse_spans (map (λ c. record { word_start = false; token = character c }) (codes "PARIS")))
      + 7
    ≡ 50
unfolding morse_marks
paris_units = refl

-- The letter E: one dot.
abbrev dot_plan : Plan
dot_plan = record {
  text = codes "E";
  spans = span true 1 ∷ [];
  dot_duration_ns = 60000000;
  total_duration_ns = 60000000;
}

abbrev ready : Scheduler
ready = new_scheduler default_config

abbrev sending : Scheduler
sending = (start dot_plan 0 ready).0

starts_dot : start dot_plan 0 ready ≡ (sending, true)
unfolding start started overflows set_next_transition validate_plan check_spans refuses_span
    valid_config new_scheduler
starts_dot = refl

dot-IsPunctual :
    IsPunctual ready.config.maximum_transition_lateness_ns 0
      (100000000 ∷ 160000000 ∷ 260000000 ∷ [])
      (due_times
        (0 + ready.config.ptt_lead_ns)
        60000000
        ready.config.ptt_hang_ns
        (span true 1 ∷ []))
unfolding new_scheduler
dot-IsPunctual = (
  omega arith,
  omega arith,
  omega arith,
  (omega arith, omega arith, omega arith, (omega arith, omega arith, omega arith, tt)),
)

start-Completes_example :
    Completes (100000000 ∷ 160000000 ∷ 260000000 ∷ []) sending (span true 1 ∷ [])
start-Completes_example =
    start-Completes dot_plan 0 ready sending (100000000 ∷ 160000000 ∷ 260000000 ∷ []) starts_dot
      dot-IsPunctual

-- The dot is on the air.
abbrev keyed : List Command
keyed = starts dot_plan 0 ∷ advances 100000000 ∷ []

run-new_scheduler-Inv_example : Inv (run keyed ready)
run-new_scheduler-Inv_example = run-new_scheduler-Inv default_config keyed

keyed_runs : (run keyed ready).state ≡ running
unfolding run step start started overflows set_next_transition validate_plan check_spans
    refuses_span valid_config new_scheduler advance advance_running advance_phase
keyed_runs = refl

-- The message is cancelled, and its PTT is due to go off.
abbrev stopped : List Command
stopped = starts dot_plan 0 ∷ advances 100000000 ∷ cancels ∷ []

stopped_state : (run stopped ready).state ≢ running
unfolding run step start started overflows set_next_transition validate_plan check_spans
    refuses_span valid_config new_scheduler advance advance_running advance_phase cancel
    enter_terminal
stopped_state e = cc e

stopped_holds_ptt : (run stopped ready).lines.ptt ≡ true
unfolding run step start started overflows set_next_transition validate_plan check_spans
    refuses_span valid_config new_scheduler advance advance_running advance_phase cancel
    enter_terminal
stopped_holds_ptt = refl

stopped_drops_ptt : (step (advances 100000001) (run stopped ready)).lines.ptt ≡ false
unfolding run step start started overflows set_next_transition validate_plan check_spans
    refuses_span valid_config new_scheduler advance advance_running advance_phase cancel
    enter_terminal
stopped_drops_ptt = refl

step_releases_key_first_example :
    ((run stopped ready).lines.key ≡ false)
    × ((step (advances 100000001) (run stopped ready)).lines.key ≡ false)
step_releases_key_first_example =
    step_releases_key_first (advances 100000001) (run stopped ready)
      (run-new_scheduler-Inv default_config stopped) stopped_holds_ptt stopped_drops_ptt

keyed_clock : 5 < (run keyed ready).last_advance_ns
unfolding run step start started overflows set_next_transition validate_plan check_spans
    refuses_span valid_config new_scheduler advance advance_running advance_phase
keyed_clock = omega arith
