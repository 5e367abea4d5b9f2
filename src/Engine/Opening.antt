-- ===== src/Engine/Opening.antt =====
-- The invariant of the worker of src/desktop/transmit/direct_transmit_engine.cpp:
-- the worker is made, configured and opened.
use cw_buddy.Base.{◌≡◌, ◌∙◌, Bool, true, false, Option, ℕ, arith}
use cw_buddy.Scheduler.{default_config}
use cw_buddy.Scheduler.Invariant.{new_scheduler-Inv}
use cw_buddy.Keying.{Snapshot, Backend, Adapter, KeyingConfig, new_adapter, open_adapter}
use cw_buddy.Keying.Lines.{IsQuiet, IsOutcome, open_adapter_lem}
use cw_buddy.Engine.{
  EngineConfig, Engine, Status, valid_engine_config, valid_keying_config, stop_timer, refuse,
}
use cw_buddy.Engine.Calls.{new_engine, configure, opened, reopen, open_safe}
use cw_buddy.Engine.Invariant.{
  Core, EngineInv, IsAtRest, IsAtRest-Inv, drain-Core, drain-Keeps, close_internal-IsAtRest,
  close_internal_closed,
}

module _ (b : Backend) (clock : ℕ → Option ℕ) where
  open b use {Port}

  pub new_engine-Inv : (port : Port) → EngineInv (new_engine b clock port)
  unfolding new_engine new_adapter valid_engine_config valid_keying_config
  new_engine-Inv port = ground (arith, new_scheduler-Inv default_config)

  pub configure-Inv :
      (config : EngineConfig) (e : Engine Port)
      → EngineInv e
      → EngineInv (configure b clock config e)
  unfolding configure
  configure-Inv config e v = IsAtRest-Inv _ (
      ground (
        arith,
        close_internal-IsAtRest b clock false e v.core,
        close_internal_closed b clock false e,
        new_scheduler-Inv config.scheduler,
      ))

  refuse-Inv : (status : Status) (e : Engine Port) → EngineInv e → EngineInv (refuse status e).0
  refuse-Inv status e v = ground (arith, v)

  IsQuiet-outcome : (ok : Bool) (sn : Snapshot) → IsOutcome ok sn → IsQuiet sn
  IsQuiet-outcome true sn h = ground (arith, h)
  IsQuiet-outcome false sn h = ground (arith, h)

  reopened-IsAtRest :
      (e : Engine Port) (config : KeyingConfig) (a : Adapter Port)
      → Core e
      → e.configured ≡ true
      → IsAtRest (record e { adapter = (open_adapter b config a).0 })
  reopened-IsAtRest e config a c h =
      ground (arith, c, h, IsQuiet-outcome _ _ (open_adapter_lem b config a))

  opened-Inv : (ok : Bool) (e : Engine Port) → IsAtRest e → EngineInv (opened b clock ok e).0
  unfolding opened
  opened-Inv ok e r = ground (arith, IsAtRest-Inv e r)

  stopped-Core : (e : Engine Port) → EngineInv e → Core (stop_timer e)
  stopped-Core e v = ground (arith, v.core)

  reopen-Inv :
      (e : Engine Port) → EngineInv e → e.configured ≡ true → EngineInv (reopen b clock e).0
  unfolding reopen
  reopen-Inv e v h = opened-Inv _ _ (
      reopened-IsAtRest _ _ _ (drain-Core b clock (stop_timer e) (stopped-Core e v))
        ((drain-Keeps b clock (stop_timer e)).configured ∙ h))

  pub open_safe-Inv : (e : Engine Port) → EngineInv e → EngineInv (open_safe b clock e).0
  unfolding open_safe
  open_safe-Inv e v = ground (arith, v, reopen-Inv e v)
