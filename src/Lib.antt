-- ===== src/Lib.antt =====
-- CW Buddy: models of the core of the program, and what is proved of them.
--
-- CW Buddy is a station assistant for Morse code (CW) contacts. Its core, under src/core, decides
-- what may be transmitted and when, and by whom:
--   * an operator's text passes the transmit guard (src/core/src/transmit_guard.cpp), which
--     normalizes it and lets it out only after arming, a requested and confirmed station that the
--     callsign policy (src/core/src/callsign_policy.cpp) does not ignore, and a confirmed
--     message;
--   * the transmit encoder (src/core/src/cw_transmit_encoder.cpp) turns the normalized text into
--     a plan of spans with the key down or up;
--   * the transmit scheduler (src/core/src/cw_transmit_scheduler.cpp) validates the plan and
--     sequences it into changes of the PTT and KEY lines, on a clock that its caller reads, while
--     the guard's watchdog observes the key line;
--   * control leases (src/core/src/remote_control.cpp) say which remote client may control a rig;
--   * the acceptance workflow (src/core/src/hardware_acceptance.cpp) collects the operator's
--     evidence before the keying hardware is opened and before it is used on the air;
--   * a radio's state and the commands that it takes (src/core/src/radio_control.cpp) come from
--     the reports of a Cat4OM server (src/core/src/cat4om_protocol.cpp);
--   * of the channels detected, the channel scheduler (src/core/src/channel_scheduler.cpp)
--     selects those to decode;
--   * reports of stations on a spotting network are kept in a bounded store
--     (src/core/src/cw_spot_registry.cpp);
--   * operating frequencies, bands and the station's equipment (src/core/src/frequency_plan.cpp,
--     src/core/src/station_equipment.cpp) fill the log entries of a contact, which are written as
--     ADIF records (src/core/src/adif.cpp);
--   * audio reaches the dispatcher through a queue for one producer and one consumer thread
--     (src/core/include/cwassistant/core/spsc_ring_buffer.hpp).
-- The desktop application drives the core. Of it, the direct transmit engine
-- (src/desktop/transmit/direct_transmit_engine.cpp) sends a plan or a tuning carrier: its worker
-- owns a scheduler, a timer and the keying adapter
-- (src/desktop/transmit/direct_keying_adapter.cpp), which sets the PTT and KEY lines of a serial
-- port and keeps what is known of their levels.
--
-- Files:
--   * Base, Base/Tests, Base/Lists, Base/Int: the shared names, Boolean tests, lists, integers;
--     Text: byte texts with <cctype>; Text/Decimal: numbers and their digits;
--   * Callsign: CallsignPolicy::normalize, add_ignored, remove_ignored, is_ignored. The set of
--     ignored callsigns is a list. Callsign/Normal and Callsign/Ignored have its theorems;
--   * Morse: the tables of the encoder; Encoder: encode and its parts, one function per loop
--     body; Encoder/Spans, Encoder/Loops and Encoder/Plans: what the loops leave and what a plan
--     looks like;
--   * Scheduler: CwTransmitScheduler, one function per method, and `step` and `run` over a
--     caller's calls; Scheduler/Invariant, Scheduler/Release, Scheduler/Plans: its theorems;
--     Scheduler/Clock, Scheduler/Transitions, Scheduler/Durations and Scheduler/Timing: a message
--     on a punctual clock;
--   * Guard: TransmitGuard, one function per method; Guard/Message: normalize_message; `after` is
--     the guard after a history of calls, the newest first. Guard/Invariant, Guard/Openings,
--     Guard/Gates, Guard/Watchdog: its theorems;
--   * Sending: messages as items, how they are written, and their spans by the encoder's
--     elements; Sending/Tokens and Sending/Encoded: the loop of the encoder on them,
--     Sending/Timing: whole plans; Sending/Reference: International Morse code, which the
--     encoder's tables and times are compared with; Sending/Normalized: what the guard's
--     normalization leaves;
--   * Lease: ControlLeaseManager, one function per method; Lease/Map: its hash map as an
--     association list; Lease/Holder, Lease/Calls, Lease/Lapse: who holds a rig when;
--   * Acceptance: HardwareAcceptanceWorkflow; Acceptance/Record: the stored record;
--     Acceptance/Steps: its methods; Acceptance/Evidence, Acceptance/Confirmed,
--     Acceptance/Passed: its theorems;
--   * Ring: SpscRingBuffer, its calls cut into accesses; Ring/Chain, Ring/Interleaving,
--     Ring/Calls;
--   * Radio: the state of a radio; Radio/Modes: mode tokens; Radio/Commands: the checks of a
--     command; Cat4om: reports of a server; Cat4om/Version: protocol versions; Cat4om/Reported:
--     its theorems;
--   * Spots: CwSpotRegistry's store: add, expire, clear; Spots/Reports, Spots/Bounded,
--     Spots/Newest, Spots/Added: its theorems; Spots/Matches: nearFrequency, forCallsign and all,
--     and collectMatches behind them; Spots/Collected, Spots/Described and Spots/Stations:
--     theorems on these;
--   * Channels: ChannelScheduler::select; Channels/Selected: its theorem;
--   * Frequency: transverter offsets, steps, OmniRig targets, the ADIF bands and the printing of
--     frequencies; Frequency/Parse: parse_frequency_value, one function per loop body;
--     Frequency/Offsets, Frequency/Bands, Frequency/Steps: theorems; Frequency/Parse/Numbers:
--     what a frequency is written like, Frequency/Parse/Forms, Frequency/Parse/Inversion and
--     Frequency/Parse/Exact: the parser against it, Frequency/Parse/RoundTrip: it and the
--     printer;
--   * Station: resolve_station_equipment and the descriptions; Station/Rules: which rule is
--     found; Station/Names: the texts that name the equipment;
--   * Adif: the populate functions and to_adif; Adif/Reader: a reader of ADIF fields, the
--     reference for Adif/RoundTrip; Adif/Filled and Adif/Populated: what the populate functions
--     leave;
--   * Keying: DirectKeyingAdapter, one function per method, over `Backend`, the operations of a
--     port; Keying/Lines: what its methods do to the levels it keeps; Keying/Wire, Keying/Opened:
--     these levels against those of a port;
--   * Engine: DirectTransmitWorker's state and private methods; Engine/Calls: its calls;
--     Engine/Apply, Engine/Invariant, Engine/Scheduled, Engine/Opening, Engine/Tuning,
--     Engine/Messages, Engine/Timer and Engine/Runs: the invariant of its runs, method by method;
--     Engine/Frames and Engine/Watchdog: the watchdog of TUNE; Engine/Preserved, Engine/Truthful
--     and Engine/Released: what is reported of the lines, against the levels of a port, and what
--     an emergency release leaves of them; Engine/Reports: the state that the worker reports
--     (`state`) and the engine's copy of it (updateCachedState), and its theorem;
--   * Examples: runs at concrete inputs.
--
-- Numbers are natural numbers, and integers for signed offsets. Where the code's 64-bit products
-- and sums could wrap, the wrap is written out (`u64`); its overflow tests are there as they stand,
-- with their limits. Subtractions of the code are only taken where they do not go below zero. Lease
-- time points are nanoseconds and do not overflow. Loops are structural recursion on the text or
-- list that they read; `find` in a loop body, which moves the index on, is a state that drops what
-- was read already. Three functions have a bound on their rounds: the loop that counts the digits
-- of a unit has as many rounds as the unit, which it divides by ten in each; a number is printed
-- with twenty rounds, the digits of a 64-bit number; the reader of ADIF records has one round more
-- than a record has fields. The theorems on these functions are about their results, so they show
-- that the bounds are enough. A method returns the new object and its result. Histories and runs
-- are lists of calls, so that a theorem on them holds in every order of calls; where another thread
-- takes part, in every interleaving. A frequency of the spot store is a value of any type, and the
-- code's test of it (finite, above 0) is an argument; the witnesses take whole hertz. The guard's
-- policy, which the code holds by reference, is an argument of each call: it may change between
-- two calls.
--
-- Parameters: `Backend` is the class DirectKeyingBackend, whose implementation is Qt's serial
-- port: its operations on a state of its own, of which the first three may fail. What it relies
-- on, that a write that succeeds sets its line and that no write moves the other, is a named
-- hypothesis. The worker's clock is a function from the number of the reading to nanoseconds, or
-- none for a negative reading. An error that the port reports by itself comes between two calls.
-- The double arithmetic of resolve_audio_tone_rf is the record `Doubles`. The comparison of
-- signal strengths is a function; that it is a strict order is a named hypothesis, which NaN
-- would break.
--
-- Not modelled: signal processing and decoding on floating-point numbers (cw_decoder.cpp,
-- cw_channel_bank.cpp and their helpers, spectrum_analyzer.cpp, iq_receive.cpp); the rules that
-- pick callsigns out of decoded text; file formats and recordings; of the transmit engine, the
-- passing of calls to the worker's thread, and of the keying adapter, the serial port with its
-- lock file; the rest of the desktop application under src/desktop/, which is Qt objects, devices
-- and sockets around this core.
pub mod Base
pub mod Text
pub mod Callsign
pub mod Morse
pub mod Encoder
pub mod Scheduler
pub mod Guard
pub mod Sending
pub mod Lease
pub mod Acceptance
pub mod Ring
pub mod Radio
pub mod Frequency
pub mod Station
pub mod Adif
pub mod Cat4om
pub mod Spots
pub mod Channels
pub mod Keying
pub mod Engine
pub mod Examples
