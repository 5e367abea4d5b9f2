-- ===== src/Keying/Opened.antt =====
-- The opening of the adapter, and all calls of it, against the lines of the port.
use cw_buddy.Base.{◌≡◌, refl, Bool, true, false, none, some, [], List, ◌∷◌, arith}
use cw_buddy.Text.{Text}
use cw_buddy.Keying.{
  Line, unknown, Fault, KeyingConfig, Backend, Adapter, Role, line_eq, refused, release_all, close,
  handle_backend_error, initialize_lines, open_acquired, open_closed, open_adapter,
  set_logical_line, new_adapter, or_else, not_initialized, device_error, no_port, same_lines,
  not_active_high, not_acquired,
}
use cw_buddy.Keying.Lines.{IsClosed, close-IsClosed}
use cw_buddy.Keying.Wire.{
  IsWired, IsTruthful, close-IsTruthful, close_config, fault_and_close-IsTruthful,
  release_all-IsTruthful, set_logical_line-IsTruthful,
}

module _ (b : Backend) (level : Line → b.Port → Bool) (wired : IsWired b level) where
  open b use {Port}

  -- The lines of a port that is being opened are not known yet.
  unknown-IsTruthful :
      (a : Adapter Port)
      → line_eq a.config.ptt_line a.config.key_line ≡ false
      → a.snapshot.ptt ≡ unknown
      → a.snapshot.key ≡ unknown
      → IsTruthful b level wired a
  unknown-IsTruthful a d p k = ground (arith, d, p, k)

  initialize_lines-IsTruthful :
      (a : Adapter Port)
      → IsTruthful b level wired a
      → IsTruthful b level wired (initialize_lines b a).0
  unfolding initialize_lines
  initialize_lines-IsTruthful a h = ground (
    arith,
    release_all-IsTruthful b level wired a h,
    fault_and_close-IsTruthful b level wired
        (elim ((release_all b a).0.snapshot.fault) [ none ↦ not_initialized | some fault ↦ fault ])
        false (release_all b a).0 (release_all-IsTruthful b level wired a h),
  )

  opening : Adapter Port → Adapter Port
  opening a = record a {
    port = (b.open_port a.port).0;
    snapshot = record a.snapshot { open_safe = false; ptt = unknown; key = unknown };
  }

  open_acquired-IsTruthful :
      (a : Adapter Port)
      → line_eq a.config.ptt_line a.config.key_line ≡ false
      → IsTruthful b level wired (open_acquired b a).0
  unfolding open_acquired opening
  open_acquired-IsTruthful a d = ground (
    arith,
    d,
    initialize_lines-IsTruthful (opening a) (unknown-IsTruthful (opening a) d refl refl),
  )

  refused-IsTruthful :
      (fault : Fault) (a : Adapter Port)
      → line_eq a.config.ptt_line a.config.key_line ≡ false
      → IsClosed a.snapshot
      → IsTruthful b level wired (refused fault a).0
  unfolding refused
  refused-IsTruthful fault a d c = ground (arith, d, c)

  acquired : KeyingConfig → Adapter Port → Adapter Port
  acquired config a = record a {
    config = config;
    port = (b.acquire config.port_name a.port).0;
    ownership_acquired = true;
  }

  not_owned : KeyingConfig → Adapter Port → Adapter Port
  not_owned config a = record a { config = config; port = (b.acquire config.port_name a.port).0 }

  open_closed-IsTruthful :
      (config : KeyingConfig) (a : Adapter Port)
      → line_eq a.config.ptt_line a.config.key_line ≡ false
      → IsClosed a.snapshot
      → IsTruthful b level wired (open_closed b config a).0
  unfolding open_closed acquired not_owned
  open_closed-IsTruthful config a d c = ground (
    arith,
    refused-IsTruthful no_port a d c,
    refused-IsTruthful same_lines a d c,
    refused-IsTruthful not_active_high a d c,
    refused-IsTruthful (or_else (b.acquire config.port_name a.port).2 not_acquired)
        (not_owned config a),
    open_acquired-IsTruthful (acquired config a),
    c,
  )

  closed_cleared : Adapter Port → Adapter Port
  closed_cleared a = record (close b a) { snapshot = record (close b a).snapshot { fault = none } }

  pub open_adapter-IsTruthful :
      (config : KeyingConfig) (a : Adapter Port)
      → IsTruthful b level wired a
      → IsTruthful b level wired (open_adapter b config a).0
  unfolding open_adapter closed_cleared
  open_adapter-IsTruthful config a h =
      open_closed-IsTruthful config (closed_cleared a)
        (ground (arith, close_config b level wired a, h.distinct))
        (ground (arith, close-IsClosed b a))

-- A call of the adapter, or an error that the port reports by itself.
pub data Call : Type 0 where
  opens_port : KeyingConfig → Call
  sets_line : Role → Bool → Call
  releases_lines closes_port : Call
  reports : Text → Call

module _ (b : Backend) where
  open b use {Port}

  unfoldable pub called : Call → Adapter Port → Adapter Port
  called (opens_port config) a = (open_adapter b config a).0
  called (sets_line role asserted) a = (set_logical_line b role asserted a).0
  called releases_lines a = (release_all b a).0
  called closes_port a = close b a
  called (reports error) a = handle_backend_error b error a

  unfoldable pub all_called : List Call → Adapter Port → Adapter Port
  all_called [] a = a
  all_called (c ∷ calls) a = all_called calls (called c a)

module _ (b : Backend) (level : Line → b.Port → Bool) (wired : IsWired b level) where
  open b use {Port}

  called-IsTruthful :
      (c : Call) (a : Adapter Port)
      → IsTruthful b level wired a
      → IsTruthful b level wired (called b c a)
  unfolding called handle_backend_error
  called-IsTruthful (opens_port config) a h = open_adapter-IsTruthful b level wired config a h
  called-IsTruthful (sets_line role asserted) a h =
      set_logical_line-IsTruthful b level wired role asserted a h
  called-IsTruthful releases_lines a h = release_all-IsTruthful b level wired a h
  called-IsTruthful closes_port a h = close-IsTruthful b level wired a h
  called-IsTruthful (reports error) a h =
      fault_and_close-IsTruthful b level wired (or_else error device_error) true a h

  all_called_keeps :
      (calls : List Call) (a : Adapter Port)
      → IsTruthful b level wired a
      → IsTruthful b level wired (all_called b calls a)
  unfolding all_called
  all_called_keeps [] a h = h
  all_called_keeps (c ∷ calls) a h = all_called_keeps calls (called b c a) (called-IsTruthful c a h)

  -- After any calls of a new adapter whose lines are two different ones, whichever of them fail and
  -- whatever errors the port reports between them: PTT and KEY are different lines of the port, and a
  -- line that the adapter reports as active or inactive is high or low, if a write that the port
  -- reports as done sets its line and no write moves the other line.
  pub all_called-IsTruthful :
      (config : KeyingConfig) (port : Port) (calls : List Call)
      → line_eq config.ptt_line config.key_line ≡ false
      → IsTruthful b level wired (all_called b calls (new_adapter b config port))
  unfolding new_adapter
  all_called-IsTruthful config port calls d =
      all_called_keeps calls (new_adapter b config port) (ground (arith, d))
