-- ===== src/Examples/Driving.antt =====
-- The keying adapter and the worker of src/desktop/transmit over a port that obeys.
use cw_buddy.Base.{
  ◌≡◌, refl, some, true, false, Bool, ◌≤◌, ◌*◌, ◌+◌, arith, List, [], ◌∷◌, ℕ, Option,
}
use cw_buddy.Text.{Text, codes}
use cw_buddy.Scheduler.{default_config, new_scheduler, is_running}
use cw_buddy.Keying.{
  Line, line_eq, rts, dtr, KeyingConfig, Backend, ptt_role, key_role, new_adapter, release_line,
  finish_release, release_all, close, initialize_lines, open_acquired, open_closed, open_adapter,
  set_logical_line,
}
use cw_buddy.Keying.Lines.{IsQuiet}
use cw_buddy.Keying.Wire.{IsWired, IsTruthful}
use cw_buddy.Keying.Opened.{
  Call, opens_port, sets_line, releases_lines, all_called, all_called-IsTruthful,
}
use cw_buddy.Engine.{
  EngineConfig, Engine, valid_keying_config, valid_engine_config, adapter_known_inactive,
  monotonic_now, drain_scheduler_release, close_internal, schedule_timer,
}
use cw_buddy.Engine.Calls.{
  new_engine, configure, opened, reopen, open_safe, assert_tune, tuned, start_tune_at, start_tune,
  emergency_release, handle_timer, start,
}
use cw_buddy.Engine.Invariant.{EngineInv}
use cw_buddy.Engine.Runs.{
  Event, configures, opens, starts_tune, happens, after, after-new_engine-EngineInv,
}
use cw_buddy.Engine.Released.{IsReleased, emergency_release-IsReleased}
use cw_buddy.Encoder.{Plan, span}
use cw_buddy.Engine.Watchdog.{happens_keeps_deadline, handle_timer_expired, start_tune_lem}

-- Is the port open, and are its two lines high?
abbrev Obedient : Type 0
Obedient = Bool × Bool × Bool

abbrev set_obedient : Line → Bool → Obedient → Obedient × Bool × Text
set_obedient rts high port = ((port.0, high, port.2), true, [])
set_obedient dtr high port = ((port.0, port.1, high), true, [])

abbrev obedient : Backend
obedient = record {
  Port = Obedient;
  acquire = λ name port. (port, true, []);
  open_port = λ port. ((true, port.1, port.2), true, []);
  set_line = set_obedient;
  is_open = λ port. port.0;
  close_port = λ port. (false, port.1, port.2);
  release_ownership = λ port. port;
}

abbrev level_of_line : Line → Obedient → Bool
level_of_line rts port = port.1
level_of_line dtr port = port.2

obedient-IsWired : IsWired obedient level_of_line
obedient-IsWired = record { written = obeys; others = keeps }
  where
    obeys :
        (line : Line) (high : Bool) (port : Obedient)
        → (set_obedient line high port).1 ≡ true
        → level_of_line line (set_obedient line high port).0 ≡ high
    obeys rts high port h = refl
    obeys dtr high port h = refl

    keeps :
        (line other : Line) (high : Bool) (port : Obedient)
        → line_eq line other ≡ false
        → level_of_line other (set_obedient line high port).0 ≡ level_of_line other port
    keeps rts rts high port h = absurd (cc h)
    keeps rts dtr high port h = refl
    keeps dtr rts high port h = refl
    keeps dtr dtr high port h = absurd (cc h)

abbrev wiring : KeyingConfig
wiring = record {
  port_name = codes "COM3";
  ptt_line = rts;
  key_line = dtr;
  ptt_active_high = true;
  key_active_high = true;
}

abbrev off_port : Obedient
off_port = (false, false, false)

abbrev calls : List Call
calls = opens_port wiring ∷ sets_line ptt_role true ∷ sets_line key_role true ∷ releases_lines ∷ []

all_called-IsTruthful_example :
    IsTruthful obedient level_of_line obedient-IsWired
      (all_called obedient calls (new_adapter obedient wiring off_port))
all_called-IsTruthful_example =
    all_called-IsTruthful obedient level_of_line obedient-IsWired wiring off_port calls refl

abbrev station : EngineConfig
station = record {
  keying = wiring;
  scheduler = default_config;
  maximum_tune_duration_ns = 15000000000;
}

-- A clock that goes on by ten seconds between two readings.
abbrev slow_clock : ℕ → Option ℕ
slow_clock n = some (n * 10000000000)

abbrev prepared : List Event
prepared = configures station ∷ opens ∷ []

abbrev ready : Engine Obedient
ready = after obedient slow_clock prepared (new_engine obedient slow_clock off_port)

abbrev tuning : Engine Obedient
tuning =
    after obedient slow_clock (configures station ∷ opens ∷ starts_tune true ∷ [])
      (new_engine obedient slow_clock off_port)

-- The letter E.
abbrev dot : Plan
dot = record {
  text = codes "E";
  spans = span true 1 ∷ [];
  dot_duration_ns = 60000000;
  total_duration_ns = 60000000;
}

after-new_engine-EngineInv_example : EngineInv tuning
after-new_engine-EngineInv_example =
    after-new_engine-EngineInv obedient slow_clock off_port
      (configures station ∷ opens ∷ starts_tune true ∷ [])

emergency_release-IsReleased_example :
    IsReleased obedient level_of_line (emergency_release obedient slow_clock tuning).adapter
    × ((start obedient slow_clock dot true (emergency_release obedient slow_clock tuning)).1
        ≡ false)
    × ((start_tune obedient slow_clock true (emergency_release obedient slow_clock tuning)).1
        ≡ false)
emergency_release-IsReleased_example =
    emergency_release-IsReleased obedient slow_clock level_of_line obedient-IsWired off_port
      (configures station ∷ opens ∷ starts_tune true ∷ []) dot true true

-- The adapter opens, TUNE is off before it is started and on afterwards, also when it is started
-- again, and at the third reading of the clock its deadline is past.
runs :
    (ready.tuning ≡ false)
    × ((start_tune obedient slow_clock true ready).0.tuning ≡ true)
    × (tuning.tuning ≡ true)
    × ((happens obedient slow_clock (starts_tune true) tuning).tuning ≡ true)
    × (slow_clock tuning.readings ≡ some 20000000000)
    × (tuning.tune_deadline_ns ≤ 20000000000)
unfolding after happens configure close_internal drain_scheduler_release new_engine new_adapter
    new_scheduler open_safe reopen opened open_adapter open_closed open_acquired initialize_lines
    release_all release_line finish_release close adapter_known_inactive valid_keying_config
    valid_engine_config start_tune start_tune_at assert_tune tuned set_logical_line monotonic_now
    schedule_timer
runs = (refl, refl, refl, refl, refl, omega arith)

happens_keeps_deadline_example :
    (happens obedient slow_clock (starts_tune true) tuning).tune_deadline_ns
    ≡ tuning.tune_deadline_ns
happens_keeps_deadline_example =
    happens_keeps_deadline obedient slow_clock (starts_tune true) tuning runs.2 runs.3

start_tune_lem_example :
    (true ≡ true)
    × (adapter_known_inactive ready ≡ true)
    × (is_running ready.scheduler.state ≡ false)
    × (now_ns : ℕ) × (slow_clock ready.readings ≡ some now_ns)
    × ((start_tune obedient slow_clock true ready).0.tune_deadline_ns
        ≡ now_ns + ready.config.maximum_tune_duration_ns)
    × (ready.config.maximum_tune_duration_ns ≤ 15000000000)
start_tune_lem_example =
    start_tune_lem obedient slow_clock true ready
      (after-new_engine-EngineInv obedient slow_clock off_port prepared) runs.0 runs.1

handle_timer_expired_example :
    ((handle_timer obedient slow_clock tuning).tuning ≡ false)
    × IsQuiet (handle_timer obedient slow_clock tuning).adapter.snapshot
handle_timer_expired_example =
    handle_timer_expired obedient slow_clock tuning 20000000000 after-new_engine-EngineInv_example
      runs.2 runs.4 runs.5
