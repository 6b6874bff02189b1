-- ===== src/System/Answers.antt =====
-- The handlers of web_server.c that show something, and those on the units: each answers its
-- request once, and gives back the lock of the gateway.
pub mod Changes
pub mod Updates
use Prim.Native.String.{String}
use daikin_d3net.Base.{ℕ, ◌+◌, ◌≡◌, refl, sym, ◌∙◌, arith, true, false, not, ◌||◌, Bool}
use daikin_d3net.Base.{List, [], ◌∷◌, ◌++◌, Option, none, some, if_both, if◌then◌else◌, get_or}
use daikin_d3net.Base.{Bool-cases, inl, inr, All}
use mathlib.Core.Path.{subst}
use daikin_d3net.Base.Text.{codes}
use daikin_d3net.Esp.{Err, ok, fail, not_found, invalid_arg, is_ok}
use daikin_d3net.Gateway.{Op, zero_unit}
use daikin_d3net.Gateway.UnitId.{print_unsigned}
use daikin_d3net.Gateway.Discovery.{to_ms, discover_units}
use daikin_d3net.Wifi.{print_byte, scan, connect_sta}
use daikin_d3net.App.{Platform, Machine, log}
use daikin_d3net.App.Server.{Http, Request}
use daikin_d3net.Web.{refuse, is_number, is_string, valueint, valuestring, save_config}
use daikin_d3net.Web.Registry.{register, unregister, registry_action, registry_change_at}
use daikin_d3net.Web.Registry.{registry_change, registry_get, registry_post}
use daikin_d3net.Web.Hvac.{unit_command, at_unit, run_command, hvac_cmd_at, hvac_cmd}
use daikin_d3net.Web.Hvac.{hvac_get, discover, discover_post, hvac_cmd_post}
use daikin_d3net.Web.Settings.{index_get, status_get, wifi_scan_get, logs_get, rtu_get}
use daikin_d3net.Web.Settings.{wifi_connect, wifi_connect_post}
use daikin_d3net.System.Ledger.{
  Ledger, Silent, silent, then-Silent, given_back, not_taken, then-Replied,
}
use daikin_d3net.System.Replies.{
  Answered, Replies, refuse-Answered, reply_ok-Answered, reply_json-Answered, send-Replied,
  with_json-Answered, with_index-Answered, ends-Answered,
}

module _ (p : Platform) (l : Ledger p.float.F p.http) where
  open p use {http}

  -- A handler that answers each request once.
  abbrev pub Answers : (Request → Machine p → Err × Machine p) → Type 0
  Answers handler = (req : Request) (m : Machine p) → Answered p l m.http (handler req m)

  -- A function whose result is not a reply yet.
  unfoldable pub Quiet : http.World → Err × Machine p → Type 0
  Quiet w out = Silent p l w out.1.http

  -- The lock taken, and given back if it was to be had.
  lock_around :
      (w : http.World) (ms : ℕ)
      → Silent p l w
          (if (http.take w ms).0 then http.give (http.take w ms).1 else (http.take w ms).1)
  lock_around w ms = elim (Bool-cases (http.take w ms).0) [
    | inr no_lock ↦ rw no_lock (not_taken p l w ms no_lock)
    | inl taken ↦
        rw taken (given_back p l w ms (http.take w ms).1 taken (silent p l (http.take w ms).1))
  ]

  pub index_get-Answers : (page : List ℕ) → Answers (index_get p page)
  unfolding index_get Answered
  index_get-Answers page req m = send-Replied p l m.http "text/html" page

  pub status_get-Answers : Answers (status_get p)
  unfolding status_get
  status_get-Answers req m = reply_json-Answered p l m.http _ m (silent p l m.http)

  pub logs_get-Answers : Answers (logs_get p)
  unfolding logs_get
  logs_get-Answers req m = reply_json-Answered p l m.http _ m (silent p l m.http)

  pub rtu_get-Answers : Answers (rtu_get p)
  unfolding rtu_get
  rtu_get-Answers req m = reply_json-Answered p l m.http _ m (silent p l m.http)

  pub hvac_get-Answers : Answers (hvac_get p)
  unfolding hvac_get
  hvac_get-Answers req m = reply_json-Answered p l m.http _ _ (lock_around m.http 2000)

  pub registry_get-Answers : Answers (registry_get p)
  unfolding registry_get
  registry_get-Answers req m = reply_json-Answered p l m.http _ _ (lock_around m.http 2000)

  pub wifi_scan_get-Answers : Answers (wifi_scan_get p)
  unfolding wifi_scan_get
  wifi_scan_get-Answers req m =
      let (err, items, count, w) = scan p.radio 20 m.radio in
      let m1 : Machine p = record m { radio = w } in
      if_both (Answered p l m.http) (not (is_ok err))
        (refuse-Answered p l m.http 500 "scan failed" err m1 (silent p l m.http))
        (reply_json-Answered p l m.http _ m1 (silent p l m.http))

  run_command-Quiet :
      (index : ℕ) (cmd : List ℕ) (val : Option http.Item) (m : Machine p)
      → Quiet m.http (run_command p index cmd val m)
  unfolding run_command at_unit Quiet
  run_command-Quiet index cmd val m = elim (Bool-cases (http.take m.http 5000).0) [
    | inr no_lock ↦ rw no_lock (not_taken p l m.http 5000 no_lock)
    | inl taken ↦
        let back =
          given_back p l m.http 5000 (http.take m.http 5000).1 taken
            (silent p l (http.take m.http 5000).1) in
        rw taken (if_both (Quiet m.http) _ back back)
  ]

  hvac_cmd_at-Replies :
      (text : List ℕ) (val : Option http.Item) (index : ℕ)
      → Replies p l (hvac_cmd_at p text val index)
  unfolding hvac_cmd_at log Quiet
  hvac_cmd_at-Replies text val index w m e =
      ends-Answered p l w 500 "command failed" (run_command p index text val m)
        (log p (codes "hvac cmd idx=" ++ (print_unsigned index [] ++ (32 ∷ text))))
        (then-Silent p l e (run_command-Quiet index text val m)) (λ m1. refl)

  hvac_cmd-Replies : (json : http.Item) → Replies p l (hvac_cmd p json)
  unfolding hvac_cmd
  hvac_cmd-Replies json w m e =
      let idx = http.get_item json "index" in
      let cmd = http.get_item json "cmd" in
      let val = http.get_item json "value" in
      if_both (Answered p l w) (not (is_number p idx) || not (is_string p cmd))
        (refuse-Answered p l w 400 "fields" fail m e)
        (with_index-Answered p l (valueint p idx) (hvac_cmd_at p (valuestring p cmd) val)
          (hvac_cmd_at-Replies (valuestring p cmd) val) w m e)

  pub hvac_cmd_post-Answers : Answers (hvac_cmd_post p)
  unfolding hvac_cmd_post
  hvac_cmd_post-Answers = with_json-Answered p l (hvac_cmd p) hvac_cmd-Replies

  discover-Quiet : (m : Machine p) → Quiet m.http (discover p m)
  unfolding discover Quiet
  discover-Quiet m = elim (Bool-cases (http.take m.http 5000).0) [
    | inr no_lock ↦ rw no_lock (not_taken p l m.http 5000 no_lock)
    | inl taken ↦ rw taken (
        given_back p l m.http 5000 (http.take m.http 5000).1 taken
          (silent p l (http.take m.http 5000).1))
  ]

  pub discover_post-Answers : Answers (discover_post p)
  unfolding discover_post log Quiet
  discover_post-Answers req m =
      ends-Answered p l m.http 500 "discover failed" (discover p m)
        (λ m1.
          log p (codes "discovery complete: units=" ++ print_byte m1.app.gateway.discovered_count)
            m1)
        (discover-Quiet m) (λ m1. refl)
