-- ===== src/System/Commands.antt =====
-- The handlers on the units keep the application in order.
use daikin_d3net.Base.{ℕ, ◌<◌, not, ◌||◌, List, [], Option}
use daikin_d3net.Base.{◌++◌, ◌∷◌, if_both}
use daikin_d3net.Base.Text.{codes}
use daikin_d3net.Esp.{Err, fail, not_found}
use daikin_d3net.Gateway.{Op}
use daikin_d3net.Gateway.UnitId.{print_unsigned}
use daikin_d3net.Gateway.Discovery.{to_ms, discover_units}
use daikin_d3net.Gateway.Invariant.{discover_units-IsGateway}
use daikin_d3net.Wifi.{print_byte}
use daikin_d3net.App.{Platform, Machine, log}
use daikin_d3net.App.Server.{Request}
use daikin_d3net.Web.{is_number, is_string, valueint}
use daikin_d3net.Web.{valuestring}
use daikin_d3net.Web.Hvac.{
  unit_command, at_unit, discover, discover_post, run_command, hvac_cmd_at, hvac_cmd,
}
use daikin_d3net.Web.Hvac.{hvac_cmd_post}
use daikin_d3net.Web.Hvac.Command.{IsCommand, unit_command-IsCommand, at_unit-IsGateway}
use daikin_d3net.System.Invariant.{Safe}
use daikin_d3net.System.Pages.{stays, refuse-Safe, log-app}
use daikin_d3net.System.Handlers.{Keeps, with_json-Safe, with_index-Safe, ends-Safe}

module _ (p : Platform) where
  open p use {http}

  -- The lock given back.
  given_back :
      (out : Err × Machine p) (w : http.World)
      → Safe p out
      → Safe p (out.0, record out.1 { http = w })
  unfolding Safe
  given_back out w v = v

  at_unit-Safe :
      (index : ℕ) (op : Op p.bus) → index < 64 → IsCommand op → Keeps p (at_unit p index op)
  unfolding Safe at_unit
  at_unit-Safe index op h c m v = record {
    gateway = at_unit-IsGateway p index h m v.gateway op c;
    ota = v.ota;
    registry = v.registry;
  }

  run_command-Safe :
      (index : ℕ) (cmd : List ℕ) (val : Option http.Item)
      → index < 64
      → Keeps p (run_command p index cmd val)
  unfolding run_command
  run_command-Safe index cmd val h m v =
      let now_ms = to_ms (p.bus.time_us m.bus) in
      if_both (Safe p) _ (stays p fail _ v) (
        if_both (Safe p) _ (stays p not_found _ v) (
          given_back _ _ (
            at_unit-Safe index (unit_command p cmd val now_ms) h
              (unit_command-IsCommand p cmd val now_ms)
              (record m { http = (http.take m.http 5000).1 }) v)))

  hvac_cmd_at-Safe :
      (text : List ℕ) (val : Option http.Item) (index : ℕ)
      → index < 64
      → Keeps p (hvac_cmd_at p text val index)
  unfolding hvac_cmd_at
  hvac_cmd_at-Safe text val index h m v =
      let line = codes "hvac cmd idx=" ++ (print_unsigned index [] ++ (32 ∷ text)) in
      ends-Safe p 500 "command failed" (run_command p index text val m) (log p line)
        (run_command-Safe index text val h m v) (log-app p line)

  hvac_cmd-Safe : (json : http.Item) → Keeps p (hvac_cmd p json)
  unfolding hvac_cmd
  hvac_cmd-Safe json m v =
      let idx = http.get_item json "index" in
      let cmd = http.get_item json "cmd" in
      let val = http.get_item json "value" in
      if_both (Safe p) (not (is_number p idx) || not (is_string p cmd))
        (refuse-Safe p 400 "fields" fail m v)
        (with_index-Safe p (valueint p idx) (hvac_cmd_at p (valuestring p cmd) val)
          (hvac_cmd_at-Safe (valuestring p cmd) val) m v)

  pub hvac_cmd_post-Safe : (req : Request) → Keeps p (hvac_cmd_post p req)
  unfolding hvac_cmd_post
  hvac_cmd_post-Safe = with_json-Safe p (hvac_cmd p) hvac_cmd-Safe

  discover-Safe : Keeps p (discover p)
  unfolding discover
  discover-Safe m v =
      let (err, gateway, bus) = discover_units p.bus m.app.gateway m.bus in
      if_both (Safe p) (not (http.take m.http 5000).0) (stays p fail _ v) (
        stays p err _ (record {
          gateway = discover_units-IsGateway p.bus m.app.gateway m.bus v.gateway;
          ota = v.ota;
          registry = v.registry;
        }))

  pub discover_post-Safe : (req : Request) → Keeps p (discover_post p req)
  unfolding discover_post
  discover_post-Safe req m v =
      ends-Safe p 500 "discover failed" (discover p m)
        (λ m1.
          log p (codes "discovery complete: units=" ++ print_byte m1.app.gateway.discovered_count)
            m1)
        (discover-Safe m v)
        (λ m1.
          log-app p
            (codes "discovery complete: units=" ++ print_byte m1.app.gateway.discovered_count) m1)
