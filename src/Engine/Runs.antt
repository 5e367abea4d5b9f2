-- ===== src/Engine/Runs.antt =====
-- Any calls of the worker of src/desktop/transmit/direct_transmit_engine.cpp, in any order, with
-- what its timer, its clock and its port do between them.
use cw_buddy.Base.{Bool, Option, ℕ, List, [], ◌∷◌}
use cw_buddy.Text.{Text}
use cw_buddy.Encoder.{Plan}
use cw_buddy.Keying.{Backend}
use cw_buddy.Engine.{EngineConfig, Engine}
use cw_buddy.Engine.Calls.{
  new_engine, configure, open_safe, start, stop_tune, cancel, start_tune, emergency_release,
  close_blocking, handle_timer, port_error,
}
use cw_buddy.Engine.Invariant.{EngineInv, IsAtRest-Inv}
use cw_buddy.Engine.Opening.{new_engine-Inv, configure-Inv, open_safe-Inv}
use cw_buddy.Engine.Tuning.{stop_tune-Inv, start_tune-Inv}
use cw_buddy.Engine.Timer.{handle_timer-Inv}
use cw_buddy.Engine.Messages.{
  port_error-Inv, close_blocking-Inv, emergency_release-IsAtRest, cancel-EngineInv, start-EngineInv,
}

-- What happens to the worker: a call of it, its timer, or an error of its port.
pub data Event : Type 0 where
  configures : EngineConfig → Event
  opens cancels_activity stops_tune releases_all closes fires : Event
  starts_plan : Plan → Bool → Event
  starts_tune : Bool → Event
  fails : Text → Event

module _ (b : Backend) (clock : ℕ → Option ℕ) where
  open b use {Port}

  unfoldable pub happens : Event → Engine Port → Engine Port
  happens (configures config) e = configure b clock config e
  happens opens e = (open_safe b clock e).0
  happens cancels_activity e = (cancel b clock e).0
  happens stops_tune e = (stop_tune b clock e).0
  happens releases_all e = emergency_release b clock e
  happens closes e = close_blocking b clock e
  happens fires e = handle_timer b clock e
  happens (starts_plan plan confirmed) e = (start b clock plan confirmed e).0
  happens (starts_tune authorized) e = (start_tune b clock authorized e).0
  happens (fails error) e = port_error b clock error e

  unfoldable pub after : List Event → Engine Port → Engine Port
  after [] e = e
  after (event ∷ events) e = after events (happens event e)

  happens-Inv : (event : Event) (e : Engine Port) → EngineInv e → EngineInv (happens event e)
  unfolding happens
  happens-Inv (configures config) e v = configure-Inv b clock config e v
  happens-Inv opens e v = open_safe-Inv b clock e v
  happens-Inv cancels_activity e v = cancel-EngineInv b clock e v
  happens-Inv stops_tune e v = stop_tune-Inv b clock e v
  happens-Inv releases_all e v = IsAtRest-Inv _ (emergency_release-IsAtRest b clock e v.core)
  happens-Inv closes e v = close_blocking-Inv b clock e v
  happens-Inv fires e v = handle_timer-Inv b clock e v
  happens-Inv (starts_plan plan confirmed) e v = start-EngineInv b clock plan confirmed e v
  happens-Inv (starts_tune authorized) e v = start_tune-Inv b clock authorized e v
  happens-Inv (fails error) e v = port_error-Inv b clock error e v

  pub after-Inv : (events : List Event) (e : Engine Port) → EngineInv e → EngineInv (after events e)
  unfolding after
  after-Inv [] e v = v
  after-Inv (event ∷ events) e v = after-Inv events (happens event e) (happens-Inv event e v)

-- Whatever happens to a new worker, in whatever order, with any port and any readings of the clock:
-- KEY is active only together with PTT, each line is active only while TUNE is on or the scheduler
-- wants it, the scheduler keeps its own invariant, and the port is open only under a valid
-- configuration.
pub after-new_engine-EngineInv :
    (b : Backend) (clock : ℕ → Option ℕ) (port : b.Port) (events : List Event)
    → EngineInv (after b clock events (new_engine b clock port))
after-new_engine-EngineInv b clock port events =
    after-Inv b clock events _ (new_engine-Inv b clock port)
