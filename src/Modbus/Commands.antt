-- ===== src/Modbus/Commands.antt =====
-- The gateway over the master: d3net_unit_set_mode, d3net_unit_filter_reset and
-- d3net_gateway_discover_units with the functions of modbus_rtu.c behind the function pointers and a
-- device on the line that answers in time.
use daikin_d3net.Base.{ℕ, ◌<◌, ◌≡◌, true}
use daikin_d3net.Esp.{ok}
use daikin_d3net.Registers.Temperature.{Float}
use daikin_d3net.Registers.Status
use daikin_d3net.Registers.StatusLaws
use daikin_d3net.Gateway.Bus.{Transport}
use daikin_d3net.Gateway.{Gateway, Link}
use daikin_d3net.Gateway.Control.{set_mode}
use daikin_d3net.Gateway.Commit.{IsCommitted}
use daikin_d3net.Gateway.Commands.{set_mode_lem}
use daikin_d3net.Gateway.Units.{AllFrom}
use daikin_d3net.Gateway.Discovery.{discover_units}
use daikin_d3net.Gateway.Answering.{Answers, IsReady, Succeeds, status-Succeeds}
use daikin_d3net.Gateway.Finding.{is_shown, discover_units_answered}
use daikin_d3net.Modbus.Uart.{Uart}
use daikin_d3net.Modbus.Master.{RtuContext}
use daikin_d3net.Modbus.Slave.{Slave}
use daikin_d3net.Modbus.Bus.{master_bus}
use daikin_d3net.Modbus.Answered.{line-Answers}

module _ (uart : Uart) (ctx : RtuContext) (line : Slave uart ctx) (ready : ctx.initialized ≡ true)
    (address_fits : ctx.cfg.slave_id < 256) (delay : uart.World → ℕ → uart.World)
    (time_us : uart.World → ℕ)
    (waits : (w : uart.World) (ms : ℕ) → line.Up w → line.Up (delay w ms)) where
  abbrev pub line_bus : Transport
  line_bus = master_bus uart ctx delay time_us

  abbrev pub answers : Answers line_bus
  answers = line-Answers uart ctx line ready address_fits delay time_us waits

  -- Over the master, with an initialized context and a slave address of one byte, on a line that
  -- is up, whose device answers in time and which delays leave up, a d3net_unit_set_mode on a
  -- present unit whose blocks have their sizes returns ESP_OK, leaves the unit committed with
  -- power on and the mode set in its status, and leaves the line up.
  pub set_mode_over_line :
      (float : Float) (mode now_ms : ℕ) (s : Link line_bus)
      → IsReady line_bus answers s
      → let out = set_mode line_bus float mode now_ms s in
        (out.0 ≡ ok)
        × IsCommitted out.1.unit
        × (out.1.unit.status ≡ Status.oper_mode_set (Status.power_set s.unit.status true) mode)
        × line.Up out.1.world
  unfolding set_mode Succeeds
  set_mode_over_line float mode now_ms s r =
      let (done, after) =
        status-Succeeds line_bus answers float now_ms
          (λ ws. Status.oper_mode_set (Status.power_set ws true) mode)
          (λ ws w. StatusLaws.oper_mode_set-IsWords _ (StatusLaws.power_set-IsWords ws w true) mode)
          s r in
      let (committed, status, power, oper_mode) =
        set_mode_lem line_bus float now_ms mode s r.valid done in
      (done, committed, status, after.alive)

  pub discover_units_over_line :
      (gw : Gateway) (w : uart.World)
      → line.Up w
      → let (err, gw', w') = discover_units line_bus gw w in
        (err ≡ ok)
        × AllFrom (λ i u. u.present ≡ is_shown gw'.system_status i) 0 gw'.units
        × line.Up w'
  discover_units_over_line gw w v = discover_units_answered line_bus answers gw w v
