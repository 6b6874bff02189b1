-- ===== src/Gateway/Commands.antt =====
-- The six commands on a unit: what ESP_OK promises of each.
use daikin_d3net.Base.{ℕ, ◌%◌, ◌^◌, ◌<◌, ◌≡◌, ap, ◌∙◌}
use daikin_d3net.Base.{Bool, true}
use daikin_d3net.Esp.{ok}
use daikin_d3net.Codec.Signed.{abs}
use daikin_d3net.Registers.Temperature.{Float, to_tenths}
use daikin_d3net.Registers.Status
use daikin_d3net.Registers.StatusLaws
use daikin_d3net.Registers.Holding
use daikin_d3net.Registers.Holding.{Holding}
use daikin_d3net.Gateway.Bus.{Transport}
use daikin_d3net.Gateway.{Link}
use daikin_d3net.Gateway.Control.{with_filter_reset}
use daikin_d3net.Gateway.Control.{set_power, set_mode, set_setpoint, set_fan_speed}
use daikin_d3net.Gateway.Control.{set_fan_dir, filter_reset}
use daikin_d3net.Gateway.Commit.{IsUnit, IsCommitted}
use daikin_d3net.Gateway.Commit.{reset-IsUnit}
use daikin_d3net.Gateway.Steps.{prepare_write-stepwise}
use daikin_d3net.Gateway.Prepare.{status-IsCommitted, command-IsCommitted, Keeps, Keeps-IsStepwise}

module _ (t : Transport) (float : Float) (now_ms : ℕ) where
  -- On a unit whose blocks have their sizes, a d3net_unit_set_power that returns ESP_OK has
  -- applied the power setter to the status, the unit is committed and the holding block asks for
  -- the given power.
  pub set_power_lem :
      (on : Bool) (s : Link t)
      → IsUnit s.unit
      → (set_power t float on now_ms s).0 ≡ ok
      → let u = (set_power t float on now_ms s).1.unit in
        IsCommitted u
        × (u.status ≡ Status.power_set s.unit.status on)
        × (Holding.power_get u.hold ≡ on)
  unfolding set_power
  set_power_lem on s v e =
      let (c, st) =
        status-IsCommitted t float now_ms (λ ws. Status.power_set ws on)
          (λ ws w. StatusLaws.power_set-IsWords ws w on) s v e in
      (
        c,
        st,
        c.agrees.power
            ∙ (ap Status.power_get st ∙ StatusLaws.power_get-power_set s.unit.status v.status on),
      )

  -- On a unit whose blocks have their sizes, a d3net_unit_set_mode that returns ESP_OK has also
  -- switched the unit on: the unit is committed, and the holding block asks for power and for the
  -- low four bits of the mode.
  pub set_mode_lem :
      (mode : ℕ) (s : Link t)
      → IsUnit s.unit
      → (set_mode t float mode now_ms s).0 ≡ ok
      → let u = (set_mode t float mode now_ms s).1.unit in
        IsCommitted u
        × (u.status ≡ Status.oper_mode_set (Status.power_set s.unit.status true) mode)
        × (Holding.power_get u.hold ≡ true)
        × (Holding.oper_mode_get u.hold ≡ mode % 16)
  unfolding set_mode
  set_mode_lem mode s v e =
      let on = Status.power_set s.unit.status true in
      let w = StatusLaws.power_set-IsWords s.unit.status v.status true in
      let (c, st) =
        status-IsCommitted t float now_ms
          (λ ws. Status.oper_mode_set (Status.power_set ws true) mode)
          (λ ws w. StatusLaws.oper_mode_set-IsWords _ (StatusLaws.power_set-IsWords ws w true) mode)
          s v e in
      (
        c,
        st,
        c.agrees.power
            ∙ (ap Status.power_get st
                ∙ (StatusLaws.power_get-oper_mode_set on w mode
                    ∙ StatusLaws.power_get-power_set s.unit.status v.status true)),
        c.agrees.oper_mode
            ∙ (ap Status.oper_mode_get st ∙ StatusLaws.oper_mode_get-oper_mode_set on w mode),
      )

  -- On a unit whose blocks have their sizes, a d3net_unit_set_setpoint that returns ESP_OK, for a
  -- temperature whose tenths fit 15 bits and a sign, leaves the unit committed and the holding
  -- block asking for that temperature rounded to tenths.
  pub set_setpoint_lem :
      (celsius : float.F) (s : Link t)
      → IsUnit s.unit
      → abs (to_tenths float celsius) < 2 ^ 15
      → (set_setpoint t float celsius now_ms s).0 ≡ ok
      → let u = (set_setpoint t float celsius now_ms s).1.unit in
        IsCommitted u
        × (u.status ≡ Status.temp_setpoint_set float s.unit.status celsius)
        × (Holding.setpoint_x10 u.hold ≡ to_tenths float celsius)
  unfolding set_setpoint
  set_setpoint_lem celsius s v fits e =
      let (c, st) =
        status-IsCommitted t float now_ms (λ ws. Status.temp_setpoint_set float ws celsius)
          (λ ws w. StatusLaws.temp_setpoint_set-IsWords ws w float celsius) s v e in
      (
        c,
        st,
        c.agrees.setpoint
            ∙ (ap Status.setpoint_x10 st
                ∙ StatusLaws.setpoint_x10-temp_setpoint_set s.unit.status v.status float celsius
                    fits),
      )

  -- On a unit whose blocks have their sizes, a d3net_unit_set_fan_speed that returns ESP_OK leaves
  -- the unit committed, the holding block asking for the low three bits of the speed and taking
  -- control of the fan.
  pub set_fan_speed_lem :
      (speed : ℕ) (s : Link t)
      → IsUnit s.unit
      → (set_fan_speed t float speed now_ms s).0 ≡ ok
      → let u = (set_fan_speed t float speed now_ms s).1.unit in
        IsCommitted u
        × (u.status ≡ Status.fan_speed_set s.unit.status speed)
        × (Holding.fan_speed_get u.hold ≡ speed % 8)
        × (Holding.fan_control_get u.hold ≡ true)
  unfolding set_fan_speed
  set_fan_speed_lem speed s v e =
      let (c, st) =
        status-IsCommitted t float now_ms (λ ws. Status.fan_speed_set ws speed)
          (λ ws w. StatusLaws.fan_speed_set-IsWords ws w speed) s v e in
      (
        c,
        st,
        c.agrees.fan_speed
            ∙ (ap Status.fan_speed_get st
                ∙ StatusLaws.fan_speed_get-fan_speed_set s.unit.status v.status speed),
        c.agrees.fan_control,
      )

  -- On a unit whose blocks have their sizes, a d3net_unit_set_fan_dir that returns ESP_OK leaves
  -- the unit committed, the holding block asking for the low three bits of the direction and
  -- taking control of the fan.
  pub set_fan_dir_lem :
      (dir : ℕ) (s : Link t)
      → IsUnit s.unit
      → (set_fan_dir t float dir now_ms s).0 ≡ ok
      → let u = (set_fan_dir t float dir now_ms s).1.unit in
        IsCommitted u
        × (u.status ≡ Status.fan_dir_set s.unit.status dir)
        × (Holding.fan_dir_get u.hold ≡ dir % 8)
        × (Holding.fan_control_get u.hold ≡ true)
  unfolding set_fan_dir
  set_fan_dir_lem dir s v e =
      let (c, st) =
        status-IsCommitted t float now_ms (λ ws. Status.fan_dir_set ws dir)
          (λ ws w. StatusLaws.fan_dir_set-IsWords ws w dir) s v e in
      (
        c,
        st,
        c.agrees.fan_dir
            ∙ (ap Status.fan_dir_get st
                ∙ StatusLaws.fan_dir_get-fan_dir_set s.unit.status v.status dir),
        c.agrees.fan_control,
      )

  -- On a unit whose blocks have their sizes, a d3net_unit_filter_reset that returns ESP_OK leaves
  -- the status as it was and the unit committed, with the request taken back.
  pub filter_reset_lem :
      (s : Link t)
      → IsUnit s.unit
      → (filter_reset t float now_ms s).0 ≡ ok
      → let u = (filter_reset t float now_ms s).1.unit in IsCommitted u × (u.status ≡ s.unit.status)
  unfolding filter_reset
  filter_reset_lem s v e =
      let keeps =
        prepare_write-stepwise t float now_ms (λ a b. Keeps a.unit b.unit)
          (Keeps-IsStepwise t float now_ms) s in
      let (committed, status) =
        command-IsCommitted t float now_ms (with_filter_reset true) (λ u w. reset-IsUnit true w) s v
          e in
      (committed, status ∙ keeps.status)
