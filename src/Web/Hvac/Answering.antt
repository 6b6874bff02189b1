-- ===== src/Web/Hvac/Answering.antt =====
-- When a command over HTTP succeeds, on a bus that answers.
use daikin_d3net.Base.{ℕ, ◌<◌, ◌≡◌, refl, ap, arith, true, false, Bool, ◌&&◌, ◌||◌}
use daikin_d3net.Base.{List, Option, get_or, if◌then◌else◌, Bool-cases, inl, inr}
use daikin_d3net.Esp.{is_ok, invalid_arg}
use daikin_d3net.Base.Text.{codes, same_text}
use daikin_d3net.Registers.Temperature.{residue}
use daikin_d3net.Registers.StatusLaws
use daikin_d3net.Codec.{Words}
use daikin_d3net.Codec.View.{IsWords}
use daikin_d3net.Gateway.{Link, Op, zero_unit}
use daikin_d3net.Gateway.Control.{set_power, set_mode, set_setpoint, set_fan_speed, set_fan_dir}
use daikin_d3net.Gateway.Control.{filter_reset, command}
use daikin_d3net.Gateway.Units.{AllFrom-get_or}
use daikin_d3net.Gateway.Discovery.{to_ms}
use daikin_d3net.Gateway.Invariant.{IsUnitAt, IsGateway}
use daikin_d3net.Gateway.Answering.{Answers, IsReady, Succeeds, status-Succeeds, filter-Succeeds}
use daikin_d3net.App.{Platform, Machine}
use daikin_d3net.Web.{valueint, is_number}
use daikin_d3net.Web.Hvac.{unit_command, at_unit, run_command, above_half, float_value}
use daikin_d3net.Web.Hvac.Command.{link}

module _ (p : Platform) (a : Answers p.bus) where
  open p use {http, float, bus}

  -- The texts that are commands: five that need a number, and one that needs none.
  unfoldable pub is_command : List ℕ → Option http.Item → Bool
  is_command cmd val =
      (same_text cmd (codes "power") && is_number p val)
      || ((same_text cmd (codes "mode") && is_number p val)
          || ((same_text cmd (codes "setpoint") && is_number p val)
              || ((same_text cmd (codes "fan_speed") && is_number p val)
                  || ((same_text cmd (codes "fan_dir") && is_number p val)
                      || same_text cmd (codes "filter_reset")))))

  -- An operation on a ready link that returns ESP_OK in one case, and only then.
  Decides : Bool → Op bus → Type 0
  Decides b op = (s : Link bus) → IsReady bus a s → is_ok (op s).0 ≡ b

  either :
      (test b : Bool) (x y : Op bus)
      → Decides true x
      → Decides b y
      → Decides (test || b) (if test then x else y)
  either true b x y f g = f
  either false b x y f g = g

  op-Decides :
      (op : Op bus) → ((s : Link bus) → IsReady bus a s → Succeeds bus a (op s)) → Decides true op
  unfolding Decides Succeeds
  op-Decides op f s r = ap is_ok (f s r).0

  last_of :
      (test : Bool) (x y : Op bus)
      → Decides true x
      → Decides false y
      → Decides test (if test then x else y)
  last_of true x y f g = f
  last_of false x y f g = g

  refused-Decides : Decides false (λ s. (invalid_arg, s))
  unfolding Decides
  refused-Decides s r = refl

  module _ (cmd : List ℕ) (val : Option http.Item) (now_ms : ℕ) where
    by_status :
        (f : Words → Words)
        → ((ws : Words) → IsWords 6 ws → IsWords 6 (f ws))
        → Decides true (command bus float (λ u. record u { status = f u.status }) now_ms)
    by_status f sized = op-Decides _ (status-Succeeds bus a float now_ms f sized)

    unit_command-Decides : Decides (is_command cmd val) (unit_command p cmd val now_ms)
    unfolding unit_command is_command set_power set_mode set_setpoint set_fan_speed set_fan_dir
        filter_reset
    unit_command-Decides =
        let mode = residue 32 (valueint p val) in
        either _ _ _ _ (by_status _ (λ ws w. StatusLaws.power_set-IsWords ws w (above_half p val)))
          (either _ _ _ _
            (by_status _ (λ ws w.
              StatusLaws.oper_mode_set-IsWords _ (StatusLaws.power_set-IsWords ws w true) mode))
            (either _ _ _ _
              (by_status _
                (λ ws w. StatusLaws.temp_setpoint_set-IsWords ws w float (float_value p val)))
              (either _ _ _ _ (by_status _ (λ ws w. StatusLaws.fan_speed_set-IsWords ws w mode)) (
                either _ _ _ _ (by_status _ (λ ws w. StatusLaws.fan_dir_set-IsWords ws w mode)) (
                  last_of _ _ _ (op-Decides _ (filter-Succeeds bus a float now_ms))
                    refused-Decides)))))

  module _ (index : ℕ) (h : index < 64) (m : Machine p) (v : IsGateway m.app.gateway)
      (alive : a.Alive m.bus) where
    -- On a gateway in order and a bus that answers, a command over HTTP for an index of the array
    -- returns ESP_OK exactly if the lock is to be had, the unit is present, and the text is that
    -- of a command, with a number where the command needs one.
    pub run_command_answered :
        (cmd : List ℕ) (val : Option http.Item)
        → is_ok (run_command p index cmd val m).0 ≡ (
            (http.take m.http 5000).0
            && ((get_or m.app.gateway.units index zero_unit).present && is_command cmd val))
    unfolding run_command at_unit Decides
    run_command_answered cmd val =
        let unit = get_or m.app.gateway.units index zero_unit in
        let here =
          AllFrom-get_or IsUnitAt 0 m.app.gateway.units index v.units (omega (arith, v.count)) in
        elim (Bool-cases (http.take m.http 5000).0) [
          | inr e ↦ rw e refl
          | inl e ↦ elim (Bool-cases unit.present) [
            | inr n ↦ rw (e, n) refl
            | inl y ↦
                let done =
                  unit_command-Decides cmd val (to_ms (bus.time_us m.bus)) (link p index m)
                    (record { alive = alive; present = y; valid = here.valid }) in
                rw (e, y, done) refl
          ]
        ]
