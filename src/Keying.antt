-- ===== src/Keying.antt =====
-- src/desktop/transmit/direct_keying_adapter.hpp and direct_keying_adapter.cpp: the adapter that keys
-- a transmitter by the two control lines of a serial port. The port is the parameter `Backend`, of
-- which nothing is assumed here; a port reports errors between the calls that are made of it.
pub mod Lines
pub mod Wire
pub mod Opened
use cw_buddy.Base.{
  Bool, true, false, ◌&&◌, ◌||◌, not, Option, none, some, if◌then◌else◌, is_empty, all_of, is_none,
  [],
}
use cw_buddy.Text.{Text, is_space}

pub data Line : Type 0 where
  rts dtr : Line

pub data LineLevel : Type 0 where
  unknown inactive active : LineLevel

-- What the adapter says went wrong: one of its own texts, or the port's.
pub data Fault : Type 0 where
  no_port same_lines not_active_high not_acquired not_opened not_initialized not_written
        not_released device_error :
      Fault
  reported : Text → Fault

pub record KeyingConfig : Type 0 where
  pub port_name : Text
  pub ptt_line : Line
  pub key_line : Line
  pub ptt_active_high : Bool
  pub key_active_high : Bool

pub record Snapshot : Type 0 where
  pub open_safe : Bool
  pub ptt : LineLevel
  pub key : LineLevel
  pub fault_or_unknown : Bool
  pub fault : Option Fault

-- The port. The text that comes with a result is its error.
pub record Backend : Type 1 where
  pub Port : Type 0
  pub acquire : Text → Port → Port × Bool × Text
  pub open_port : Port → Port × Bool × Text
  pub set_line : Line → Bool → Port → Port × Bool × Text
  pub is_open : Port → Bool
  pub close_port : Port → Port
  pub release_ownership : Port → Port

pub record Adapter (Port : Type 0) : Type 0 where
  pub port : Port
  pub config : KeyingConfig
  pub snapshot : Snapshot
  pub ownership_acquired : Bool

-- The two calls of `setLogicalLine`, for PTT and for KEY.
pub data Role : Type 0 where
  ptt_role key_role : Role

abbrev pub is_active : LineLevel → Bool
is_active unknown = false
is_active inactive = false
is_active active = true

abbrev pub is_inactive : LineLevel → Bool
is_inactive unknown = false
is_inactive inactive = true
is_inactive active = false

abbrev pub is_unknown : LineLevel → Bool
is_unknown unknown = true
is_unknown inactive = false
is_unknown active = false

abbrev pub line_eq : Line → Line → Bool
line_eq rts rts = true
line_eq rts dtr = false
line_eq dtr rts = false
line_eq dtr dtr = true

abbrev pub line_of : Role → KeyingConfig → Line
line_of ptt_role c = c.ptt_line
line_of key_role c = c.key_line

abbrev pub level_of : Role → Snapshot → LineLevel
level_of ptt_role sn = sn.ptt
level_of key_role sn = sn.key

abbrev pub with_level : Role → LineLevel → Snapshot → Snapshot
with_level ptt_role level sn = record sn { ptt = level }
with_level key_role level sn = record sn { key = level }

-- Is the line in the state that is wanted?
abbrev pub is_level : Bool → LineLevel → Bool
is_level true level = is_active level
is_level false level = is_inactive level

abbrev pub wanted_level : Bool → LineLevel
wanted_level asserted = if asserted then active else inactive

abbrev pub or_else : Text → Fault → Fault
or_else error default = if is_empty error then default else reported error

abbrev pub refresh_unknown_flag : Snapshot → Snapshot
refresh_unknown_flag sn = record sn {
  fault_or_unknown =
      not (is_none sn.fault) || (not sn.open_safe || (is_unknown sn.ptt || is_unknown sn.key));
}

abbrev pub mark_closed_unknown : Snapshot → Snapshot
mark_closed_unknown sn =
    refresh_unknown_flag (record sn { open_safe = false; ptt = unknown; key = unknown })

unfoldable pub refused : {Port : Type 0} → Fault → Adapter Port → Adapter Port × Bool
refused fault a =
    (record a { snapshot = refresh_unknown_flag (record a.snapshot { fault = some fault }) }, false)

abbrev pub is_blank : Text → Bool
is_blank text = all_of is_space text

module _ (b : Backend) where
  open b use {Port, acquire, open_port, set_line, is_open, close_port, release_ownership}

  unfoldable pub new_adapter : KeyingConfig → Port → Adapter Port
  new_adapter config port = record {
    port = port;
    config = config;
    snapshot = record {
      open_safe = false;
      ptt = unknown;
      key = unknown;
      fault_or_unknown = true;
      fault = none;
    };
    ownership_acquired = false;
  }

  -- The release of one line: the adapter, whether all went well so far, and the first error.
  unfoldable pub release_line : Role → Adapter Port × Bool × Text → Adapter Port × Bool × Text
  release_line role (a, released, first_error) =
      if is_inactive (level_of role a.snapshot)
      then (a, released, first_error)
      else let result = set_line (line_of role a.config) false a.port in
        if result.1
        then (
          record a { port = result.0; snapshot = with_level role inactive a.snapshot },
          released,
          first_error,
        )
        else (
          record a { port = result.0; snapshot = with_level role unknown a.snapshot },
          false,
          if is_empty first_error then result.2 else first_error,
        )

  unfoldable pub finish_release : Adapter Port × Bool × Text → Adapter Port × Bool
  finish_release (a, released, first_error) =
      if released then (record a { snapshot = refresh_unknown_flag a.snapshot }, true) else (
        record a {
          snapshot =
              refresh_unknown_flag
                (record a.snapshot { fault = some (or_else first_error not_released) });
        },
        false,
      )

  unfoldable pub release_all : Adapter Port → Adapter Port × Bool
  release_all a =
      if not (is_open a.port)
      then (record a { snapshot = mark_closed_unknown a.snapshot }, false)
      else finish_release (release_line ptt_role (release_line key_role (a, true, [])))

  -- `releaseOwnership`, where it was acquired.
  abbrev pub without_ownership : Adapter Port → Adapter Port
  without_ownership a = record a {
    port = if a.ownership_acquired then release_ownership a.port else a.port;
    ownership_acquired = false;
    snapshot = mark_closed_unknown a.snapshot;
  }

  abbrev pub close_port_of : Adapter Port → Adapter Port
  close_port_of a = record a { port = close_port a.port }

  unfoldable pub close : Adapter Port → Adapter Port
  close a = without_ownership (if is_open a.port then close_port_of (release_all a).0 else a)

  unfoldable pub fault_and_close : Fault → Bool → Adapter Port → Adapter Port
  fault_and_close error release_lines a =
      let released = if release_lines && is_open a.port then (release_all a).0 else a in
      let closed = without_ownership (close_port_of released) in
      record closed {
        snapshot = refresh_unknown_flag (record closed.snapshot { fault = some error });
      }

  unfoldable pub handle_backend_error : Text → Adapter Port → Adapter Port
  handle_backend_error error a = fault_and_close (or_else error device_error) true a

  -- The lines of a port that was opened.
  unfoldable pub initialize_lines : Adapter Port → Adapter Port × Bool
  initialize_lines a =
      let result = release_all a in
      if result.1
      then (
        record (result.0) {
          snapshot = refresh_unknown_flag (record (result.0).snapshot { open_safe = true });
        },
        true,
      )
      else (
        fault_and_close
            (elim ((result.0).snapshot.fault) [ none ↦ not_initialized | some fault ↦ fault ]) false
            (result.0),
        false,
      )

  unfoldable pub open_acquired : Adapter Port → Adapter Port × Bool
  open_acquired a =
      let result = open_port a.port in
      if result.1
      then initialize_lines (record a {
        port = result.0;
        snapshot = record a.snapshot { open_safe = false; ptt = unknown; key = unknown };
      })
      else (
        record a {
          port = release_ownership (result.0);
          ownership_acquired = false;
          snapshot =
              mark_closed_unknown
                (record a.snapshot { fault = some (or_else (result.2) not_opened) });
        },
        false,
      )

  unfoldable pub open_closed : KeyingConfig → Adapter Port → Adapter Port × Bool
  open_closed config a =
      if is_blank config.port_name
      then refused no_port a
      else if line_eq config.ptt_line config.key_line
      then refused same_lines a
      else if not config.ptt_active_high || not config.key_active_high
      then refused not_active_high a
      else let result = acquire config.port_name a.port in
        if result.1
        then open_acquired
            (record a { config = config; port = result.0; ownership_acquired = true })
        else refused (or_else (result.2) not_acquired)
            (record a { config = config; port = result.0 })

  unfoldable pub open_adapter : KeyingConfig → Adapter Port → Adapter Port × Bool
  open_adapter config a =
      let closed = close a in
      open_closed config (record closed { snapshot = record closed.snapshot { fault = none } })

  unfoldable pub set_logical_line : Role → Bool → Adapter Port → Adapter Port × Bool
  set_logical_line role asserted a =
      if not a.snapshot.open_safe || (not (is_open a.port) || not (is_none a.snapshot.fault))
      then (record a { snapshot = refresh_unknown_flag a.snapshot }, false)
      else if is_level asserted (level_of role a.snapshot)
      then (a, true)
      else let result = set_line (line_of role a.config) asserted a.port in
        if result.1
        then (
          record a {
            port = result.0;
            snapshot = refresh_unknown_flag (with_level role (wanted_level asserted) a.snapshot);
          },
          true,
        )
        else (
          fault_and_close (or_else (result.2) not_written) true
              (record a { port = result.0; snapshot = with_level role unknown a.snapshot }),
          false,
        )

  abbrev pub set_ptt : Bool → Adapter Port → Adapter Port × Bool
  set_ptt asserted a = set_logical_line ptt_role asserted a

  abbrev pub set_key : Bool → Adapter Port → Adapter Port × Bool
  set_key asserted a = set_logical_line key_role asserted a
