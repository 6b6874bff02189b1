-- ===== src/Gateway/Delivery.antt =====
-- From a command to the registers of the unit: on a bus that answers, d3net_unit_set_power
-- and d3net_unit_set_mode do what they are asked for.
use daikin_d3net.Base.{ℕ, ◌%◌, ◌≡◌, ◌≢◌}
use daikin_d3net.Base.{Bool, true}
use daikin_d3net.Esp.{ok}
use daikin_d3net.Codec.{bit_get, uint_get}
use daikin_d3net.Registers.Temperature.{Float}
use daikin_d3net.Registers.Status
use daikin_d3net.Registers.StatusLaws
use daikin_d3net.Gateway.Bus.{Transport}
use daikin_d3net.Gateway.{Link, holding_address}
use daikin_d3net.Gateway.Control.{set_power, set_mode}
use daikin_d3net.Gateway.Device.{Device, Coherent}
use daikin_d3net.Gateway.Reaches.{set_power_reaches, set_mode_reaches}
use daikin_d3net.Gateway.Answering.{Answers, IsReady, Succeeds, status-Succeeds}

module _ (t : Transport) (a : Answers t) (d : Device t) (float : Float) (now_ms : ℕ)
    (live : now_ms ≢ 0) where
  -- On a bus that answers, a d3net_unit_set_power on a present unit whose blocks have their sizes
  -- and whose holding block is coherent with the device returns ESP_OK and leaves the device with
  -- the given power bit.
  pub set_power_delivers :
      (on : Bool) (s : Link t)
      → IsReady t a s
      → Coherent t d s
      → ((set_power t float on now_ms s).0 ≡ ok)
        × (bit_get (d.regs (set_power t float on now_ms s).1.world (holding_address s.unit) 3) 3 0
            ≡ on)
  unfolding set_power Succeeds
  set_power_delivers on s r c =
      let done =
        (status-Succeeds t a float now_ms (λ ws. Status.power_set ws on)
          (λ ws w. StatusLaws.power_set-IsWords ws w on) s r).0 in
      (done, set_power_reaches t d float now_ms live on s r.valid c done)

  -- The same for a d3net_unit_set_mode, which leaves the device with the power bit on and the low
  -- four bits of the mode in the mode field.
  pub set_mode_delivers :
      (mode : ℕ) (s : Link t)
      → IsReady t a s
      → Coherent t d s
      → let out = set_mode t float mode now_ms s in
        let regs = d.regs out.1.world (holding_address s.unit) 3 in
        (out.0 ≡ ok) × (bit_get regs 3 0 ≡ true) × (uint_get regs 3 16 4 ≡ mode % 16)
  unfolding set_mode Succeeds
  set_mode_delivers mode s r c =
      let done =
        (status-Succeeds t a float now_ms
          (λ ws. Status.oper_mode_set (Status.power_set ws true) mode)
          (λ ws w. StatusLaws.oper_mode_set-IsWords _ (StatusLaws.power_set-IsWords ws w true) mode)
          s r).0 in
      let (power, oper_mode) = set_mode_reaches t d float now_ms live mode s r.valid c done in
      (done, power, oper_mode)
