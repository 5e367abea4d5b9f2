-- ===== src/Keying/Wire.antt =====
-- The reports of the keying adapter and the control lines of the port, under what the port's
-- documentation says of a write.
use cw_buddy.Base.{◌≡◌, refl, Bool, true, false, [], arith}
use cw_buddy.Text.{Text}
use cw_buddy.Keying.{
  Line, rts, dtr, unknown, Fault, Backend, Adapter, Role, ptt_role, key_role, is_active, is_unknown,
  line_of, with_level, line_eq, release_line, finish_release, release_all, close, fault_and_close,
  set_logical_line, or_else, not_written,
}
use cw_buddy.Keying.Lines.{IsClosed, close-IsClosed, fault_and_close-IsClosed}

-- A write that the port reports as done sets its line, and no write moves the other line.
pub record IsWired (b : Backend) (level : Line → b.Port → Bool) : Type 0 where
  pub written :
      (line : Line) (high : Bool) (port : b.Port)
      → (b.set_line line high port).1 ≡ true
      → level line (b.set_line line high port).0 ≡ high
  pub others :
      (line other : Line) (high : Bool) (port : b.Port)
      → line_eq line other ≡ false
      → level other (b.set_line line high port).0 ≡ level other port

line_eq_comm : (l m : Line) → line_eq l m ≡ line_eq m l
line_eq_comm rts rts = refl
line_eq_comm rts dtr = refl
line_eq_comm dtr rts = refl
line_eq_comm dtr dtr = refl

module _ (b : Backend) (level : Line → b.Port → Bool) (wired : IsWired b level) where
  open b use {Port}

  -- What the adapter reports of a line is so, and its two lines are different ones.
  pub record IsTruthful (a : Adapter Port) : Type 0 where
    pub distinct : line_eq a.config.ptt_line a.config.key_line ≡ false
    pub ptt :
        is_unknown a.snapshot.ptt ≡ false
        → level a.config.ptt_line a.port ≡ is_active a.snapshot.ptt
    pub key :
        is_unknown a.snapshot.key ≡ false
        → level a.config.key_line a.port ≡ is_active a.snapshot.key

  release_line-IsTruthful :
      (role : Role) (w : Adapter Port × Bool × Text)
      → IsTruthful w.0
      → IsTruthful (release_line b role w).0
  unfolding release_line
  release_line-IsTruthful ptt_role (a, released, error) h = ground (
    arith,
    h,
    wired.written a.config.ptt_line false a.port,
    wired.others a.config.ptt_line a.config.key_line false a.port,
  )
  release_line-IsTruthful key_role (a, released, error) h = ground (
    arith,
    h,
    line_eq_comm a.config.ptt_line a.config.key_line,
    wired.written a.config.key_line false a.port,
    wired.others a.config.key_line a.config.ptt_line false a.port,
  )

  finish_release-IsTruthful :
      (w : Adapter Port × Bool × Text) → IsTruthful w.0 → IsTruthful (finish_release b w).0
  unfolding finish_release
  finish_release-IsTruthful (a, released, error) h = ground (arith, h)

  pub release_all-IsTruthful : (a : Adapter Port) → IsTruthful a → IsTruthful (release_all b a).0
  unfolding release_all
  release_all-IsTruthful a h =
      let key = release_line b key_role (a, true, []) in
      let both = release_line b ptt_role key in
      ground (
        arith,
        h,
        finish_release-IsTruthful both (
            release_line-IsTruthful ptt_role key
              (release_line-IsTruthful key_role (a, true, []) h)),
      )

  -- Nothing is reported of the lines of a closed port.
  closed-IsTruthful :
      (a : Adapter Port)
      → line_eq a.config.ptt_line a.config.key_line ≡ false
      → IsClosed a.snapshot
      → IsTruthful a
  closed-IsTruthful a d c = ground (arith, d, c)

  release_all_config : (a : Adapter Port) → (release_all b a).0.config ≡ a.config
  unfolding release_all finish_release release_line
  release_all_config a = ground arith

  fault_and_close_config :
      (error : Fault) (release : Bool) (a : Adapter Port)
      → (fault_and_close b error release a).config ≡ a.config
  unfolding fault_and_close
  fault_and_close_config error release a = ground (arith, release_all_config a)

  pub close_config : (a : Adapter Port) → (close b a).config ≡ a.config
  unfolding close
  close_config a = ground (arith, release_all_config a)

  pub fault_and_close-IsTruthful :
      (error : Fault) (release : Bool) (a : Adapter Port)
      → IsTruthful a
      → IsTruthful (fault_and_close b error release a)
  fault_and_close-IsTruthful error release a h =
      closed-IsTruthful _ (ground (arith, fault_and_close_config error release a, h.distinct))
        (fault_and_close-IsClosed b error release a)

  pub close-IsTruthful : (a : Adapter Port) → IsTruthful a → IsTruthful (close b a)
  close-IsTruthful a h =
      closed-IsTruthful _ (ground (arith, close_config a, h.distinct)) (close-IsClosed b a)

  -- A write that failed, whose line is then not known.
  failed_write : Role → Bool → Adapter Port → Adapter Port
  failed_write role asserted a = record a {
    port = (b.set_line (line_of role a.config) asserted a.port).0;
    snapshot = with_level role unknown a.snapshot;
  }

  failed_write-IsTruthful :
      (role : Role) (asserted : Bool) (a : Adapter Port)
      → IsTruthful a
      → IsTruthful (failed_write role asserted a)
  unfolding failed_write
  failed_write-IsTruthful ptt_role asserted a h =
      ground (arith, h, wired.others a.config.ptt_line a.config.key_line asserted a.port)
  failed_write-IsTruthful key_role asserted a h = ground (
    arith,
    h,
    line_eq_comm a.config.ptt_line a.config.key_line,
    wired.others a.config.key_line a.config.ptt_line asserted a.port,
  )

  pub set_logical_line-IsTruthful :
      (role : Role) (asserted : Bool) (a : Adapter Port)
      → IsTruthful a
      → IsTruthful (set_logical_line b role asserted a).0
  unfolding set_logical_line failed_write
  set_logical_line-IsTruthful ptt_role asserted a h =
      let error = or_else (b.set_line a.config.ptt_line asserted a.port).2 not_written in
      ground (
        arith,
        h,
        wired.written a.config.ptt_line asserted a.port,
        wired.others a.config.ptt_line a.config.key_line asserted a.port,
        fault_and_close-IsTruthful error true (failed_write ptt_role asserted a)
            (failed_write-IsTruthful ptt_role asserted a h),
      )
  set_logical_line-IsTruthful key_role asserted a h =
      let error = or_else (b.set_line a.config.key_line asserted a.port).2 not_written in
      ground (
        arith,
        h,
        line_eq_comm a.config.ptt_line a.config.key_line,
        wired.written a.config.key_line asserted a.port,
        wired.others a.config.key_line a.config.ptt_line asserted a.port,
        fault_and_close-IsTruthful error true (failed_write key_role asserted a)
            (failed_write-IsTruthful key_role asserted a h),
      )
