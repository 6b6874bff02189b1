-- ===== src/System/Answers/Changes.antt =====
-- The handlers of web_server.c that change the configuration and the one for an update: each answers
-- its request once, and gives back the lock of the gateway.
use daikin_d3net.Base.{ℕ, refl, not, ◌||◌}
use daikin_d3net.Base.{List, [], Option, none, some, if_both, if◌then◌else◌}
use daikin_d3net.Base.{Bool-cases, inl, inr}
use daikin_d3net.Base.Text.{codes}
use daikin_d3net.Esp.{Err, fail, invalid_arg, is_ok}
use daikin_d3net.Modbus.Master.{RtuConfig}
use daikin_d3net.Wifi.{connect_sta}
use daikin_d3net.App.{Platform, Machine, log}
use daikin_d3net.App.Server.{Request}
use daikin_d3net.Web.{read_json, is_number, is_string, valueint, valuestring, save_config}
use daikin_d3net.Web.Registry.{register, unregister, registry_action, registry_change_at}
use daikin_d3net.Web.Registry.{registry_change, registry_post}
use daikin_d3net.Web.Settings.{wifi_connect, wifi_connect_post, rtu_of, rtu_restart, rtu_post}
use daikin_d3net.System.Ledger.{
  Ledger, Silent, silent, from_pair, then-Silent, given_back, not_taken, then-Replied, then_quiet,
}
use daikin_d3net.System.Replies.{
  Answered, Replies, Read, read_json-Read, refuse-Answered, reply_ok-Answered, send-Replied,
  with_json-Answered, with_index-Answered, ends-Answered,
}
use daikin_d3net.System.Answers.{Answers, Quiet}

module _ (p : Platform) (l : Ledger p.float.F p.http) where
  open p use {http}

  register-Quiet : (index : ℕ) (m : Machine p) → Quiet p l m.http (register p index m)
  unfolding register Quiet log save_config
  register-Quiet index m = elim (Bool-cases (http.take m.http 2000).0) [
    | inr no_lock ↦ rw no_lock (not_taken p l m.http 2000 no_lock)
    | inl taken ↦
        let back =
          given_back p l m.http 2000 (http.take m.http 2000).1 taken
            (silent p l (http.take m.http 2000).1) in
        rw taken (if_both (Quiet p l m.http) _ back back)
  ]

  unregister-Quiet : (index : ℕ) (m : Machine p) → Quiet p l m.http (unregister p index m)
  unfolding unregister Quiet log save_config
  unregister-Quiet index m = silent p l m.http

  refused-Quiet : (err : Err) (m : Machine p) → Quiet p l m.http (err, m)
  unfolding Quiet
  refused-Quiet err m = silent p l m.http

  action-Quiet :
      (action : List ℕ) (index : ℕ) (m : Machine p)
      → Quiet p l m.http (registry_action p action index m)
  unfolding registry_action
  action-Quiet action index m =
      if_both (Quiet p l m.http) _ (register-Quiet index m)
        (if_both (Quiet p l m.http) _ (unregister-Quiet index m) (refused-Quiet invalid_arg m))

  change_at-Replies :
      (action : List ℕ) (index : ℕ) → Replies p l (registry_change_at p action index)
  unfolding registry_change_at Quiet
  change_at-Replies action index w m e =
      ends-Answered p l w 500 "registry" (registry_action p action index m) (λ m1. m1)
        (then-Silent p l e (action-Quiet action index m)) (λ m1. refl)

  change-Replies : (json : http.Item) → Replies p l (registry_change p json)
  unfolding registry_change
  change-Replies json w m e =
      let idx = http.get_item json "index" in
      let action = http.get_item json "action" in
      if_both (Answered p l w) (not (is_number p idx) || not (is_string p action))
        (refuse-Answered p l w 400 "fields" fail m e)
        (with_index-Answered p l (valueint p idx) (registry_change_at p (valuestring p action))
          (change_at-Replies (valuestring p action)) w m e)

  pub registry_post-Answers : Answers p l (registry_post p)
  unfolding registry_post
  registry_post-Answers = with_json-Answered p l (registry_change p) change-Replies

  wifi_connect-Replies : (json : http.Item) → Replies p l (wifi_connect p json)
  unfolding wifi_connect save_config
  wifi_connect-Replies json w m e =
      let ssid = http.get_item json "ssid" in
      let pass = http.get_item json "password" in
      let name = valuestring p ssid in
      let password = if is_string p pass then valuestring p pass else [] in
      let (err, wifi, radio') = connect_sta p.radio name password m.wifi m.radio in
      let m1 : Machine p = record m { wifi = wifi; radio = radio' } in
      if_both (Answered p l w) (not (is_string p ssid)) (refuse-Answered p l w 400 "ssid" fail m e)
        (if_both (Answered p l w) (not (is_ok err))
          (refuse-Answered p l w 500 "connect failed" err m1 e) (reply_ok-Answered p l w _ e))

  pub wifi_connect_post-Answers : Answers p l (wifi_connect_post p)
  unfolding wifi_connect_post
  wifi_connect_post-Answers = with_json-Answered p l (wifi_connect p) wifi_connect-Replies

  -- A result that may be missing.
  unfoldable pub Ends : http.World → Option (Err × Machine p) → Type 0
  Ends w none = Unit {0}
  Ends w (some out) = Answered p l w out

  restart-Answered :
      (cfg : RtuConfig) (w : http.World) (m : Machine p)
      → Silent p l w m.http
      → Answered p l w (rtu_restart p cfg m)
  unfolding rtu_restart save_config Answered
  restart-Answered cfg w m e =
      let text = codes "{\"ok\":true,\"reboot\":true}" in
      let sent = (http.send m.http "text/html" text).1 in
      let later = from_pair p l (l.delay_keeps sent 800) in
      let again = from_pair p l (l.restart_keeps (http.delay sent 800)) in
      then_quiet p l (then-Replied p l e (send-Replied p l m.http "text/html" text))
        (then-Silent p l later again)

  settings-Ends :
      (cfg : Option RtuConfig) (w : http.World) (m : Machine p)
      → Silent p l w m.http
      → Ends w (elim cfg [ none ↦ none | some cfg ↦ some (rtu_restart p cfg m) ])
  unfolding Ends
  settings-Ends none w m e = tt
  settings-Ends (some cfg) w m e = restart-Answered cfg w m e

  rtu-Ends :
      (w : http.World) (out : Option http.Item × Machine p)
      → Read p l w out
      → Ends w (elim out.0 [
        | none ↦ some (fail, out.1)
        | some json ↦ elim (rtu_of p json out.1.app.config.rtu_cfg) [
          | none ↦ none
          | some cfg ↦ some (rtu_restart p cfg out.1)
        ]
      ])
  unfolding Ends Read Answered
  rtu-Ends w (none, m) r = r
  rtu-Ends w (some json, m) r = settings-Ends (rtu_of p json m.app.config.rtu_cfg) w m r

  pub rtu_post-Ends : (req : Request) (m : Machine p) → Ends m.http (rtu_post p req m)
  unfolding rtu_post
  rtu_post-Ends req m = rtu-Ends m.http (read_json p req m) (read_json-Read p l req m)
