-- ===== src/System/Changes.antt =====
-- The handlers on the configuration keep the application in order.
use mathlib.Core.Path.{subst}
use daikin_d3net.Base.{
  ℕ, ◌<◌, refl, sym, Bool, true, false, not, ◌||◌, List, [], Option, none, some,
}
use daikin_d3net.Base.{if_both, if◌then◌else◌, get_or}
use daikin_d3net.Esp.{Err, ok, fail, not_found, invalid_arg, is_ok}
use daikin_d3net.Gateway.{zero_unit}
use daikin_d3net.Modbus.Master.{RtuConfig}
use daikin_d3net.Wifi.{connect_sta}
use daikin_d3net.App.{Platform, Machine, log}
use daikin_d3net.App.Server.{Request}
use daikin_d3net.Web.{is_number, is_string, valueint}
use daikin_d3net.Web.{valuestring, save_config}
use daikin_d3net.Web.Registry.{reg_set, with_config, register, unregister, registry_action}
use daikin_d3net.Web.Registry.{registry_change_at, registry_change, registry_post}
use daikin_d3net.Web.Settings.{
  with_network, wifi_connect, wifi_connect_post, rtu_of, rtu_restart, rtu_post,
}
use daikin_d3net.System.Invariant.{IsApp, reg_set-IsRegistry, Safe}
use daikin_d3net.System.Pages.{stays, refuse-Safe, reply_ok-Safe, read_json-app}
use daikin_d3net.System.Handlers.{Keeps, with_json-Safe, with_index-Safe, ends-Safe}

module _ (p : Platform) where
  open p use {http}

  -- A change of the registry, saved.
  saved-IsApp :
      (index : ℕ) (on : Bool) (unit_id : Option (List ℕ)) (m : Machine p)
      → index < 64
      → IsApp m.app
      → IsApp (save_config p (with_config p (reg_set m.app.config index on unit_id) m)).app
  unfolding save_config
  saved-IsApp index on unit_id m h v = record {
    gateway = v.gateway;
    ota = v.ota;
    registry = reg_set-IsRegistry m.app.config index on unit_id h v.registry;
  }

  register-Safe : (index : ℕ) → index < 64 → Keeps p (register p index)
  unfolding register log
  register-Safe index h m v =
      let u = get_or m.app.gateway.units index zero_unit in
      if_both (Safe p) (not (http.take m.http 2000).0) (stays p ok _ v) (
        if_both (Safe p) (not u.present) (stays p not_found _ v) (
          stays p ok _ (
            saved-IsApp index true (some u.unit_id) (record m { http = (http.take m.http 2000).1 })
              h v)))

  unregister-Safe : (index : ℕ) → index < 64 → Keeps p (unregister p index)
  unfolding unregister log
  unregister-Safe index h m v = stays p ok _ (saved-IsApp index false none m h v)

  registry_action-Safe :
      (action : List ℕ) (index : ℕ) → index < 64 → Keeps p (registry_action p action index)
  unfolding registry_action
  registry_action-Safe action index h m v =
      if_both (Safe p) _ (register-Safe index h m v)
        (if_both (Safe p) _ (unregister-Safe index h m v) (stays p invalid_arg m v))

  registry_change_at-Safe :
      (action : List ℕ) (index : ℕ) → index < 64 → Keeps p (registry_change_at p action index)
  unfolding registry_change_at
  registry_change_at-Safe action index h m v =
      ends-Safe p 500 "registry" (registry_action p action index m) (λ m1. m1)
        (registry_action-Safe action index h m v) (λ m1. refl)

  registry_change-Safe : (json : http.Item) → Keeps p (registry_change p json)
  unfolding registry_change
  registry_change-Safe json m v =
      let idx = http.get_item json "index" in
      let action = http.get_item json "action" in
      if_both (Safe p) (not (is_number p idx) || not (is_string p action))
        (refuse-Safe p 400 "fields" fail m v)
        (with_index-Safe p (valueint p idx) (registry_change_at p (valuestring p action))
          (registry_change_at-Safe (valuestring p action)) m v)

  pub registry_post-Safe : (req : Request) → Keeps p (registry_post p req)
  unfolding registry_post
  registry_post-Safe = with_json-Safe p (registry_change p) registry_change-Safe

  wifi_connect-Safe : (json : http.Item) → Keeps p (wifi_connect p json)
  unfolding wifi_connect save_config
  wifi_connect-Safe json m v =
      let ssid = http.get_item json "ssid" in
      let pass = http.get_item json "password" in
      let name = valuestring p ssid in
      let password = if is_string p pass then valuestring p pass else [] in
      let (err, wifi, radio') = connect_sta p.radio name password m.wifi m.radio in
      let m1 = record m { wifi = wifi; radio = radio' } in
      let connected : IsApp (with_config p (with_network p name password m.app.config) m1).app =
        record {
          gateway = v.gateway;
          ota = v.ota;
          registry = record { mask = v.registry.mask; ids = v.registry.ids };
        } in
      if_both (Safe p) (not (is_string p ssid)) (refuse-Safe p 400 "ssid" fail m v) (
        if_both (Safe p) (not (is_ok err)) (refuse-Safe p 500 "connect failed" err m1 v)
          (reply_ok-Safe p _ connected))

  pub wifi_connect_post-Safe : (req : Request) → Keeps p (wifi_connect_post p req)
  unfolding wifi_connect_post
  wifi_connect_post-Safe = with_json-Safe p (wifi_connect p) wifi_connect-Safe

  -- A result that may be missing.
  unfoldable pub Fine : Option (Err × Machine p) → Type 0
  Fine none = Unit {0}
  Fine (some out) = Safe p out

  rtu_restart-Safe : (cfg : RtuConfig) → Keeps p (rtu_restart p cfg)
  unfolding rtu_restart save_config Safe
  rtu_restart-Safe cfg m v = record {
    gateway = v.gateway;
    ota = v.ota;
    registry = record { mask = v.registry.mask; ids = v.registry.ids };
  }

  restarted-Fine :
      (cfg : Option RtuConfig) (m : Machine p)
      → IsApp m.app
      → Fine (elim cfg [ none ↦ none | some cfg ↦ some (rtu_restart p cfg m) ])
  unfolding Fine
  restarted-Fine none m v = tt
  restarted-Fine (some cfg) m v = rtu_restart-Safe cfg m v

  rtu_post-read :
      (json : Option http.Item) (m : Machine p)
      → IsApp m.app
      → Fine (elim json [
        | none ↦ some (fail, m)
        | some json ↦ elim (rtu_of p json m.app.config.rtu_cfg) [
          | none ↦ none
          | some cfg ↦ some (rtu_restart p cfg m)
        ]
      ])
  unfolding Fine
  rtu_post-read none m v = stays p fail m v
  rtu_post-read (some json) m v = restarted-Fine (rtu_of p json m.app.config.rtu_cfg) m v

  pub rtu_post-Fine : (req : Request) (m : Machine p) → IsApp m.app → Fine (rtu_post p req m)
  unfolding rtu_post
  rtu_post-Fine req m v = rtu_post-read _ _ (subst IsApp (sym (read_json-app p req m)) v)
