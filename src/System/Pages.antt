-- ===== src/System/Pages.antt =====
-- The handlers that only show something, and what the others share: the application stays.
use Prim.Native.String.{String}
use daikin_d3net.Base.{ℕ, ◌≡◌, refl, not, List, none, some, if_both}
use daikin_d3net.Base.{arith}
use daikin_d3net.Esp.{Err, is_ok, no_mem}
use daikin_d3net.App.{Platform, Machine, log}
use daikin_d3net.App.Server.{Request}
use daikin_d3net.App.Json.{Json}
use daikin_d3net.Wifi.{scan}
use daikin_d3net.Web.{refuse, reply_ok, reply_json, read_json, save_config}
use daikin_d3net.Web.Registry.{registry_get}
use daikin_d3net.Web.Hvac.{hvac_get}
use daikin_d3net.Web.Settings.{index_get, status_get, wifi_scan_get, logs_get, rtu_get}
use daikin_d3net.System.Invariant.{IsApp, Safe}

module _ (p : Platform) where
  open p use {http, float}

  -- A result with the application of `m`.
  pub stays : (err : Err) (m' : Machine p) → IsApp m'.app → Safe p (err, m')
  unfolding Safe
  stays err m' v = v

  pub refuse-Safe :
      (status : ℕ) (text : String) (err : Err) (m : Machine p)
      → IsApp m.app
      → Safe p (refuse p status text err m)
  unfolding Safe
  refuse-Safe status text err m v = v

  pub log-app : (line : List ℕ) (m : Machine p) → (log p line m).app ≡ m.app
  unfolding log
  log-app line m = refl

  pub save_config-app : (m : Machine p) → (save_config p m).app ≡ m.app
  unfolding save_config
  save_config-app m = refl

  pub reply_ok-Safe : (m : Machine p) → IsApp m.app → Safe p (reply_ok p m)
  unfolding reply_ok Safe
  reply_ok-Safe m v = v

  pub reply_json-Safe :
      (root : Json float.F) (m : Machine p) → IsApp m.app → Safe p (reply_json p root m)
  unfolding reply_json Safe
  reply_json-Safe root m v =
      elim (http.print root)
        as (λ body. Safe p (elim body [
          | none ↦ (no_mem, m)
          | some body ↦
              let (err, w) = http.send m.http "application/json" body in
              (err, record m { http = w })
        ])) [ none ↦ v | some body ↦ v ]

  -- Reading a tree changes nothing but the connection.
  pub read_json-app : (req : Request) (m : Machine p) → (read_json p req m).1.app ≡ m.app
  unfolding read_json
  read_json-app req m = ground arith

  pub index_get-Safe :
      (page : List ℕ) (req : Request) (m : Machine p)
      → IsApp m.app
      → Safe p (index_get p page req m)
  unfolding index_get Safe
  index_get-Safe page req m v = v

  pub status_get-Safe : (req : Request) (m : Machine p) → IsApp m.app → Safe p (status_get p req m)
  unfolding status_get
  status_get-Safe req m v = reply_json-Safe _ m v

  pub logs_get-Safe : (req : Request) (m : Machine p) → IsApp m.app → Safe p (logs_get p req m)
  unfolding logs_get
  logs_get-Safe req m v = reply_json-Safe _ m v

  pub rtu_get-Safe : (req : Request) (m : Machine p) → IsApp m.app → Safe p (rtu_get p req m)
  unfolding rtu_get
  rtu_get-Safe req m v = reply_json-Safe _ m v

  pub hvac_get-Safe : (req : Request) (m : Machine p) → IsApp m.app → Safe p (hvac_get p req m)
  unfolding hvac_get
  hvac_get-Safe req m v = reply_json-Safe _ _ v

  pub registry_get-Safe :
      (req : Request) (m : Machine p) → IsApp m.app → Safe p (registry_get p req m)
  unfolding registry_get
  registry_get-Safe req m v = reply_json-Safe _ _ v

  pub wifi_scan_get-Safe :
      (req : Request) (m : Machine p) → IsApp m.app → Safe p (wifi_scan_get p req m)
  unfolding wifi_scan_get
  wifi_scan_get-Safe req m v =
      let (err, items, count, w) = scan p.radio 20 m.radio in
      let m1 = record m { radio = w } in
      if_both (Safe p) (not (is_ok err)) (stays err _ v) (reply_json-Safe _ m1 v)
