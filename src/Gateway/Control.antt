-- ===== src/Gateway/Control.antt =====
-- Writes to one unit: d3net_unit_prepare_write, d3net_unit_commit_write and the six commands.
use daikin_d3net.Base.{ℕ, Bool, true, false, not, if◌then◌else◌}
use daikin_d3net.Esp.{ok, invalid_arg}
use daikin_d3net.Registers.Temperature.{Float}
use daikin_d3net.Registers.Status
use daikin_d3net.Registers.Holding
use daikin_d3net.Gateway.Bus.{Transport}
use daikin_d3net.Gateway.{HvacUnit, Op, ◌>>◌, modify, holding_read, holding_write_if_dirty}
use daikin_d3net.Gateway.{must_reload_holding}

-- `d3net_holding_sync_from_status(&unit->holding, &unit->status)`
abbrev pub sync : Float → HvacUnit → HvacUnit
sync float u = record u { hold = Holding.sync_from_status float u.hold u.status }

abbrev pub with_filter_reset : Bool → HvacUnit → HvacUnit
with_filter_reset b u = record u { hold = Holding.filter_reset_set u.hold b }

module _ (t : Transport) (float : Float) where
  open float use {F}

  -- What `d3net_unit_prepare_write` does after reading the holding block.
  unfoldable pub push_status : ℕ → Op t
  unfolding holding_write_if_dirty
  push_status now_ms = modify (sync float) >> λ s.
      if s.unit.hold.dirty then holding_write_if_dirty t now_ms s else (ok, s)

  -- `d3net_unit_prepare_write`
  unfoldable pub prepare_write : ℕ → Op t
  unfolding push_status holding_read must_reload_holding
  prepare_write now_ms s =
      if not s.unit.present
      then (invalid_arg, s)
      else if not (must_reload_holding now_ms s.gw s.unit.hold)
      then (ok, s)
      else (holding_read t now_ms >> push_status now_ms) s

  -- The end of `d3net_unit_commit_write`: a filter reset request is taken back.
  unfoldable pub clear_filter_reset : ℕ → Op t
  unfolding holding_write_if_dirty
  clear_filter_reset now_ms s =
      if Holding.filter_reset_get s.unit.hold
      then (modify (with_filter_reset false) >> holding_write_if_dirty t now_ms) s
      else (ok, s)

  -- `d3net_unit_commit_write`
  unfoldable pub commit_write : ℕ → Op t
  unfolding holding_write_if_dirty clear_filter_reset
  commit_write now_ms s =
      if not s.unit.present
      then (invalid_arg, s)
      else (modify (sync float) >> holding_write_if_dirty t now_ms >> clear_filter_reset now_ms) s

  -- The shape of the six commands: prepare, change the unit, commit.
  unfoldable pub command : (HvacUnit → HvacUnit) → ℕ → Op t
  unfolding prepare_write commit_write
  command change now_ms = prepare_write now_ms >> modify change >> commit_write now_ms

  -- `d3net_unit_set_power`
  unfoldable pub set_power : Bool → ℕ → Op t
  unfolding command
  set_power on = command (λ u. record u { status = Status.power_set u.status on })

  -- `d3net_unit_set_mode`
  unfoldable pub set_mode : ℕ → ℕ → Op t
  unfolding command
  set_mode mode =
      command
        (λ u. record u { status = Status.oper_mode_set (Status.power_set u.status true) mode })

  -- `d3net_unit_set_setpoint`
  unfoldable pub set_setpoint : F → ℕ → Op t
  unfolding command
  set_setpoint celsius =
      command (λ u. record u { status = Status.temp_setpoint_set float u.status celsius })

  -- `d3net_unit_set_fan_speed`
  unfoldable pub set_fan_speed : ℕ → ℕ → Op t
  unfolding command
  set_fan_speed speed = command (λ u. record u { status = Status.fan_speed_set u.status speed })

  -- `d3net_unit_set_fan_dir`
  unfoldable pub set_fan_dir : ℕ → ℕ → Op t
  unfolding command
  set_fan_dir dir = command (λ u. record u { status = Status.fan_dir_set u.status dir })

  -- `d3net_unit_filter_reset`
  unfoldable pub filter_reset : ℕ → Op t
  unfolding command
  filter_reset = command (with_filter_reset true)
