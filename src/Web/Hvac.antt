-- ===== src/Web/Hvac.antt =====
-- The units over HTTP: handle_hvac_get, handle_discover_post and handle_hvac_cmd_post.
pub mod Command
pub mod Answering
pub mod Delivery
use daikin_d3net.Base.{
  ℕ, ◌++◌, Bool, true, false, not, ◌&&◌, ◌||◌, List, [], ◌∷◌, Option, none, some,
}
use daikin_d3net.Base.{if◌then◌else◌, set, get_or}
use daikin_d3net.Base.Int.{ℤ, pos}
use daikin_d3net.Base.Text.{codes, same_text}
use daikin_d3net.Esp.{Err, ok, fail, invalid_arg, not_found, is_ok}
use daikin_d3net.Registers.Status
use daikin_d3net.Registers.Temperature.{residue}
use daikin_d3net.Gateway.{HvacUnit, Link, Op, zero_unit}
use daikin_d3net.Gateway.Control.{set_power, set_mode, set_setpoint, set_fan_speed, set_fan_dir}
use daikin_d3net.Gateway.Control.{filter_reset}
use daikin_d3net.Gateway.Discovery.{discover_units, to_ms}
use daikin_d3net.Gateway.UnitId.{print_unsigned}
use daikin_d3net.Wifi.{print_byte}
use daikin_d3net.App.{Platform, Machine, log}
use daikin_d3net.App.Json.{Json, bool, number, string, array, object, Items, no_items, item}
use daikin_d3net.App.Json.{no_members, member}
use daikin_d3net.Web.{Handler, refuse, reply_ok, reply_json, with_json, is_number, is_string}
use daikin_d3net.Web.{valueint, valuestring}
use daikin_d3net.Web.Registry.{with_index}

module _ (p : Platform) where
  open p use {http, float}

  -- What `handle_hvac_get` shows of a unit.
  unfoldable pub unit_item : HvacUnit → Json float.F
  unit_item u = object (
      member "index" (number (pos u.index)) (
        member "unit_id" (string u.unit_id) (
          member "power" (bool (Status.power_get u.status)) (
            member "mode" (number (pos (Status.oper_mode_get u.status))) (
              member "temp_current" (Json.float (Status.temp_current_get float u.status)) (
                member "temp_setpoint" (Json.float (Status.temp_setpoint_get float u.status))
                  no_members))))))

  -- The loop over the units.
  unfoldable pub unit_items : List HvacUnit → Items float.F
  unfolding unit_item
  unit_items [] = no_items
  unit_items (u ∷ units) =
      let next = unit_items units in if u.present then item (unit_item u) next else next

  -- `handle_hvac_get`
  unfoldable pub hvac_get : Handler p
  unfolding unit_items reply_json
  hvac_get req m =
      let (taken, w) = http.take m.http 2000 in
      let units = if taken then unit_items m.app.gateway.units else no_items in
      reply_json p (object (member "units" (array units) no_members))
        (record m { http = if taken then http.give w else w })

  -- The part of `handle_discover_post` under the lock.
  unfoldable pub discover : Machine p → Err × Machine p
  unfolding discover_units
  discover m =
      let (taken, w) = http.take m.http 5000 in
      if not taken
      then (fail, record m { http = w })
      else (let (err, gateway, bus) = discover_units p.bus m.app.gateway m.bus in
          (
            err,
            record m { app = record m.app { gateway = gateway }; bus = bus; http = http.give w },
          ))

  -- `handle_discover_post`
  unfoldable pub discover_post : Handler p
  unfolding discover log reply_ok
  discover_post req m =
      let (err, m1) = discover m in
      if not (is_ok err)
      then refuse p 500 "discover failed" err m1
      else reply_ok p (
          log p (codes "discovery complete: units=" ++ print_byte m1.app.gateway.discovered_count)
            m1)

  -- Fields of the value of a command, which was tested before.
  abbrev pub float_value : Option http.Item → float.F
  float_value none = float.of_int (pos 0)
  float_value (some it) = http.float_value it

  abbrev pub above_half : Option http.Item → Bool
  above_half none = false
  above_half (some it) = http.above_half it

  -- The command on a unit that a text and a value stand for.
  unfoldable pub unit_command : List ℕ → Option http.Item → ℕ → Op p.bus
  unfolding set_power set_mode set_setpoint set_fan_speed set_fan_dir filter_reset
  unit_command cmd val now_ms =
      if same_text cmd (codes "power") && is_number p val
      then set_power p.bus float (above_half val) now_ms
      else if same_text cmd (codes "mode") && is_number p val
      then set_mode p.bus float (residue 32 (valueint p val)) now_ms
      else if same_text cmd (codes "setpoint") && is_number p val
      then set_setpoint p.bus float (float_value val) now_ms
      else if same_text cmd (codes "fan_speed") && is_number p val
      then set_fan_speed p.bus float (residue 32 (valueint p val)) now_ms
      else if same_text cmd (codes "fan_dir") && is_number p val
      then set_fan_dir p.bus float (residue 32 (valueint p val)) now_ms
      else if same_text cmd (codes "filter_reset")
      then filter_reset p.bus float now_ms
      else (λ s. (invalid_arg, s))

  -- An operation on the unit at an index of the gateway's array.
  unfoldable pub at_unit : ℕ → Op p.bus → Machine p → Err × Machine p
  at_unit index op m =
      let gw = m.app.gateway in
      let (err, s) =
        op (record { gw = gw; unit = get_or gw.units index zero_unit; world = m.bus }) in
      (
        err,
        record m {
          app = record m.app { gateway = record s.gw { units = set s.gw.units index s.unit } };
          bus = s.world;
        },
      )

  -- The part of `handle_hvac_cmd_post` under the lock.
  unfoldable pub run_command : ℕ → List ℕ → Option http.Item → Machine p → Err × Machine p
  unfolding unit_command at_unit
  run_command index cmd val m =
      let (taken, w) = http.take m.http 5000 in
      let m1 = record m { http = w } in
      if not taken
      then (fail, m1)
      else if not (get_or m.app.gateway.units index zero_unit).present
      then (not_found, record m1 { http = http.give w })
      else (let (err, m2) = at_unit index (unit_command cmd val (to_ms (p.bus.time_us m.bus))) m1 in
          (err, record m2 { http = http.give m2.http }))

  -- The end of `handle_hvac_cmd_post`, for an index. The text of the command is logged after its
  -- tree was deleted; here it is what it was.
  unfoldable pub hvac_cmd_at : List ℕ → Option http.Item → ℕ → Machine p → Err × Machine p
  unfolding run_command log reply_ok
  hvac_cmd_at text val index m =
      let (err, m1) = run_command index text val m in
      if not (is_ok err)
      then refuse p 500 "command failed" err m1
      else reply_ok p (log p (codes "hvac cmd idx=" ++ (print_unsigned index [] ++ (32 ∷ text))) m1)

  -- What it does with the tree of the request.
  unfoldable pub hvac_cmd : http.Item → Machine p → Err × Machine p
  unfolding hvac_cmd_at with_index
  hvac_cmd json m =
      let idx = http.get_item json "index" in
      let cmd = http.get_item json "cmd" in
      if not (is_number p idx) || not (is_string p cmd)
      then refuse p 400 "fields" fail m
      else with_index p (valueint p idx)
          (hvac_cmd_at (valuestring p cmd) (http.get_item json "value")) m

  -- `handle_hvac_cmd_post`
  unfoldable pub hvac_cmd_post : Handler p
  unfolding with_json hvac_cmd
  hvac_cmd_post = with_json p hvac_cmd
