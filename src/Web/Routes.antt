-- ===== src/Web/Routes.antt =====
-- web_server_start: the table of the routes and their registration.
use Prim.Native.String.{String}
use daikin_d3net.Base.{ℕ, Bool, true, false, not, List, [], ◌∷◌, Option, some, if◌then◌else◌}
use daikin_d3net.Esp.{Err, ok, is_ok}
use daikin_d3net.App.{Platform, Machine}
use daikin_d3net.App.Server.{Request}
use daikin_d3net.Web.{Handler}
use daikin_d3net.Web.Registry.{registry_get, registry_post}
use daikin_d3net.Web.Hvac.{hvac_get, discover_post, hvac_cmd_post}
use daikin_d3net.Web.Settings.{index_get, status_get, wifi_scan_get, wifi_connect_post, logs_get}
use daikin_d3net.Web.Settings.{rtu_get, rtu_post}
use daikin_d3net.Web.Ota.{ota_post}

-- `httpd_uri_t`. The result is none where the handler does not come to an end.
pub record Route (p : Platform) : Type 0 where
  pub uri : String
  pub is_post : Bool
  pub handler : Request → Machine p → Option (Err × Machine p)

module _ (p : Platform) (page : List ℕ) where
  open p use {http}

  abbrev pub get : String → Handler p → Route p
  get uri handler = record { uri = uri; is_post = false; handler = λ req m. some (handler req m) }

  abbrev pub post : String → Handler p → Route p
  post uri handler = record { uri = uri; is_post = true; handler = λ req m. some (handler req m) }

  -- `routes`
  unfoldable pub routes : List (Route p)
  routes =
      get "/" (index_get p page)
      ∷ get "/api/status" (status_get p)
      ∷ get "/api/wifi/scan" (wifi_scan_get p)
      ∷ post "/api/wifi/connect" (wifi_connect_post p)
      ∷ get "/api/hvac" (hvac_get p)
      ∷ post "/api/discover" (discover_post p)
      ∷ post "/api/hvac/cmd" (hvac_cmd_post p)
      ∷ get "/api/registry" (registry_get p)
      ∷ post "/api/registry" (registry_post p)
      ∷ get "/api/logs" (logs_get p)
      ∷ get "/api/rtu" (rtu_get p)
      ∷ record { uri = "/api/rtu"; is_post = true; handler = rtu_post p }
      ∷ post "/api/ota" (ota_post p)
      ∷ []

  -- The loop that registers them; a failure is only logged.
  unfoldable pub register_all : List (Route p) → http.World → http.World
  register_all [] w = w
  register_all (r ∷ rs) w = register_all rs (http.register w r.uri r.is_post).1

  -- `web_server_start`
  unfoldable pub web_server_start : Machine p → Err × Machine p
  unfolding routes register_all
  web_server_start m =
      let (err, w) = http.start m.http 16 8192 in
      if not (is_ok err)
      then (err, record m { http = w })
      else (ok, record m { http = register_all routes w })
