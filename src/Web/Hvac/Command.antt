-- ===== src/Web/Hvac/Command.antt =====
-- What a command over HTTP does to the units.
use daikin_d3net.Base.{ℕ, ◌<◌, ◌≡◌, ◌≢◌, refl, arith, true}
use daikin_d3net.Base.{List, Option, get_or, if_both}
use daikin_d3net.Base.{get_or-set_self, get_or-set_ne}
use daikin_d3net.Esp.{Err, ok, fail, invalid_arg, not_found}
use daikin_d3net.Codec.{Words}
use daikin_d3net.Codec.View.{IsWords}
use daikin_d3net.Registers.Temperature.{Float, residue}
use daikin_d3net.Registers.StatusLaws
use daikin_d3net.Gateway.Bus.{Transport}
use daikin_d3net.Gateway.{HvacUnit, Link, Op, zero_unit}
use daikin_d3net.Gateway.Control.{command, with_filter_reset, set_power, set_mode, set_setpoint}
use daikin_d3net.Gateway.Control.{set_fan_speed, set_fan_dir, filter_reset}
use daikin_d3net.Gateway.Commit.{IsUnit, IsCommitted, reset-IsUnit}
use daikin_d3net.Gateway.Steps.{command-stepwise}
use daikin_d3net.Gateway.Prepare.{command-IsCommitted}
use daikin_d3net.Gateway.Units.{AllFrom-get_or}
use daikin_d3net.Gateway.Discovery.{to_ms}
use daikin_d3net.Gateway.Invariant.{IsUnitAt, IsGateway}
use daikin_d3net.Gateway.InvariantOps.{Stays, Stays-IsStepwise, unit-Stays, at-IsGateway}
use daikin_d3net.App.{Platform, Machine}
use daikin_d3net.Web.{valueint}
use daikin_d3net.Web.Hvac.{unit_command, at_unit, run_command, above_half, float_value}

-- What every command promises: the place of the unit stays, and a success leaves it committed.
pub record IsCommand {t : Transport} (op : Op t) : Type 0 where
  pub stays : (s : Link t) → Stays s (op s).1
  pub committed : (s : Link t) → IsUnit s.unit → (op s).0 ≡ ok → IsCommitted (op s).1.unit

module _ (t : Transport) (float : Float) (now_ms : ℕ) where
  status-IsCommand :
      (f : Words → Words)
      → ((ws : Words) → IsWords 6 ws → IsWords 6 (f ws))
      → IsCommand (command t float (λ u. record u { status = f u.status }) now_ms)
  status-IsCommand f valid =
      let change = λ (u : HvacUnit). record u { status = f u.status } in
      let ready : (u : HvacUnit) → IsUnit u → IsUnit (change u) = λ u v. record {
        cap = v.cap;
        status = valid u.status v.status;
        hold = v.hold;
        error = v.error;
      } in
      record {
        stays =
            command-stepwise t float now_ms Stays (Stays-IsStepwise t float now_ms) change
              (λ s. unit-Stays t float now_ms s (change s.unit) refl refl refl (ready s.unit));
        committed = λ s v e. (command-IsCommitted t float now_ms change ready s v e).0;
      }

  reset-IsCommand : IsCommand (command t float (with_filter_reset true) now_ms)
  reset-IsCommand = record {
    stays =
        command-stepwise t float now_ms Stays (Stays-IsStepwise t float now_ms)
          (with_filter_reset true)
          (λ s. unit-Stays t float now_ms s _ refl refl refl (reset-IsUnit true));
    committed = λ s v e.
        let (done, _) =
          command-IsCommitted t float now_ms (with_filter_reset true) (λ u. reset-IsUnit true) s v
            e in
        done;
  }

  refused-IsCommand : IsCommand {t = t} (λ s. (invalid_arg, s))
  refused-IsCommand = record {
    stays = (Stays-IsStepwise t float now_ms).stays;
    committed = λ s v e. cc e;
  }

module _ (p : Platform) where
  open p use {http, float, bus}

  pub unit_command-IsCommand :
      (cmd : List ℕ) (val : Option http.Item) (now_ms : ℕ)
      → IsCommand (unit_command p cmd val now_ms)
  unfolding unit_command set_power set_mode set_setpoint set_fan_speed set_fan_dir filter_reset
  unit_command-IsCommand cmd val now_ms =
      let by_status = status-IsCommand bus float now_ms in
      let mode = residue 32 (valueint p val) in
      if_both IsCommand _
        (by_status _ (λ ws w. StatusLaws.power_set-IsWords ws w (above_half p val)))
        (if_both IsCommand _
          (by_status _ (λ ws w.
            StatusLaws.oper_mode_set-IsWords _ (StatusLaws.power_set-IsWords ws w true) mode))
          (if_both IsCommand _
            (by_status _
              (λ ws w. StatusLaws.temp_setpoint_set-IsWords ws w float (float_value p val)))
            (if_both IsCommand _ (by_status _ (λ ws w. StatusLaws.fan_speed_set-IsWords ws w mode))
              (if_both IsCommand _ (by_status _ (λ ws w. StatusLaws.fan_dir_set-IsWords ws w mode))
                (if_both IsCommand _ (reset-IsCommand bus float now_ms)
                  (refused-IsCommand bus float now_ms))))))

  -- The link that `at_unit` passes to its operation.
  abbrev pub link : ℕ → Machine p → Link bus
  link index m = record {
    gw = m.app.gateway;
    unit = get_or m.app.gateway.units index zero_unit;
    world = m.bus;
  }

  -- What a result on the machine says of the unit at an index.
  Done : ℕ → Machine p → Err × Machine p → Type 0
  Done index m out =
      (out.0 ≡ ok → IsCommitted (get_or out.1.app.gateway.units index zero_unit))
      × ((j : ℕ)
          → index ≢ j
          → get_or out.1.app.gateway.units j zero_unit ≡ get_or m.app.gateway.units j zero_unit)

  -- The lock taken before, and given back after.
  around :
      (index : ℕ) (m : Machine p) (out : Err × Machine p) (before after : http.World)
      → Done index (record m { http = before }) out
      → Done index m (out.0, record out.1 { http = after })
  unfolding Done
  around index m out before after d = d

  module _ (index : ℕ) (h : index < 64) (m : Machine p) (v : IsGateway m.app.gateway) where
    at_unit-Done : (op : Op bus) → IsCommand op → Done index m (at_unit p index op m)
    unfolding at_unit Done
    at_unit-Done op c =
        let units = m.app.gateway.units in
        let s = link index m in
        let same = (c.stays s).units in
        let here = AllFrom-get_or IsUnitAt 0 units index v.units (omega (arith, v.count)) in
        let last = (op s).1.unit in
        (
          λ e.
              rw (same, get_or-set_self units index last zero_unit (omega (arith, v.count)))
                (c.committed s here.valid e),
          λ j apart. rw (same, get_or-set_ne units index j last zero_unit apart) refl,
        )

    pub at_unit-IsGateway :
        (op : Op bus) → IsCommand op → IsGateway (at_unit p index op m).1.app.gateway
    unfolding at_unit
    at_unit-IsGateway op c =
        at-IsGateway m.app.gateway index m.bus (op (link index m)).1 v h (c.stays (link index m))

  module _ (index : ℕ) (h : index < 64) (m : Machine p) (v : IsGateway m.app.gateway) where
    refused-Done :
        (err : Err) (m' : Machine p)
        → err ≢ ok
        → m'.app.gateway ≡ m.app.gateway
        → Done index m (err, m')
    unfolding Done
    refused-Done err m' bad same = (λ e. absurd (bad e), λ j apart. rw same refl)

    run_command-Done :
        (cmd : List ℕ) (val : Option http.Item) → Done index m (run_command p index cmd val m)
    unfolding run_command
    run_command-Done cmd val =
        let now_ms = to_ms (bus.time_us m.bus) in
        if_both (Done index m) _ (refused-Done fail _ (λ e. cc e) refl) (
          if_both (Done index m) _ (refused-Done not_found _ (λ e. cc e) refl) (
            around index m _ (http.take m.http 5000).1 _ (
              at_unit-Done index h (record m { http = (http.take m.http 5000).1 }) v
                (unit_command p cmd val now_ms) (unit_command-IsCommand cmd val now_ms))))

    -- On a gateway in order, a command over HTTP that returns ESP_OK, for an index of the array,
    -- leaves the unit at that index committed.
    pub run_command-IsCommitted :
        (cmd : List ℕ) (val : Option http.Item)
        → (run_command p index cmd val m).0 ≡ ok
        → IsCommitted (get_or (run_command p index cmd val m).1.app.gateway.units index zero_unit)
    unfolding Done
    run_command-IsCommitted cmd val e = (run_command-Done cmd val).0 e

    -- On a gateway in order, a command over HTTP for an index of the array, whatever it returns,
    -- leaves the unit at every other index as it was.
    pub run_command_elsewhere :
        (cmd : List ℕ) (val : Option http.Item) (j : ℕ)
        → index ≢ j
        → get_or (run_command p index cmd val m).1.app.gateway.units j zero_unit
          ≡ get_or m.app.gateway.units j zero_unit
    unfolding Done
    run_command_elsewhere cmd val j apart = (run_command-Done cmd val).1 j apart
