-- ===== src/Web.antt =====
-- The web server (firmware/esp32_d3net/main/web_server.c): what its handlers share.
-- A handler takes a request and the machine, and returns its result and the machine. The gateway's
-- state is read and written while its lock is held, so that a handler is one step from there on.
pub mod Registry
pub mod Hvac
pub mod Settings
pub mod LogRange
pub mod LogReader
pub mod Body
pub mod Ota
pub mod Routes
use Prim.Native.String.{String}
use daikin_d3net.Base.{
  ℕ, zero, suc, ◌-◌, ◌+◌, Bool, true, false, not, List, [], ◌++◌, Option, none, some,
}
use daikin_d3net.Base.{◌==◌, ltb, if◌then◌else◌, length}
use daikin_d3net.Base.Int.{ℤ, pos}
use daikin_d3net.Base.Text.{codes}
use daikin_d3net.Esp.{Err, ok, fail, no_mem, is_ok}
use daikin_d3net.Config.Store.{save}
use daikin_d3net.App.{Platform, Machine, log}
use daikin_d3net.App.Server.{Http, Request}
use daikin_d3net.App.Json.{Json}

module _ (p : Platform) where
  open p use {http}

  abbrev pub Handler : Type 0
  Handler = Request → Machine p → Err × Machine p

  -- `httpd_resp_send_err` and the result after it
  abbrev pub refuse : ℕ → String → Err → Machine p → Err × Machine p
  refuse status text err m = (err, record m { http = http.send_err m.http status text })

  -- `httpd_resp_sendstr(req, "{\"ok\":true}")`
  unfoldable pub reply_ok : Machine p → Err × Machine p
  reply_ok m =
      let (err, w) = http.send m.http "text/html" (codes "{\"ok\":true}") in
      (err, record m { http = w })

  -- `http_reply_json`
  unfoldable pub reply_json : Json p.float.F → Machine p → Err × Machine p
  reply_json root m = elim (http.print root) [
    | none ↦ (no_mem, m)
    | some body ↦
        let (err, w) = http.send m.http "application/json" body in (err, record m { http = w })
  ]

  -- The loop of `recv_body`, from the bytes that have come: none if the connection breaks.
  unfoldable pub receive : ℕ → ℕ → List ℕ → http.World → Option (List ℕ) × http.World
  receive zero content_len buf w = (some buf, w)
  receive (suc fuel) content_len buf w =
      let (bytes, w') = http.recv w (content_len - length buf) in
      let rest = receive fuel content_len (buf ++ bytes) w' in
      if not (ltb (length buf) content_len)
      then (some buf, w)
      else if length bytes == 0
      then (none, w')
      else rest

  -- `recv_body`: the result, and the body unless it is NULL. Each round of the loop brings a byte.
  unfoldable pub recv_body : Request → http.World → Err × Option (List ℕ) × http.World
  unfolding receive
  recv_body req w =
      if req.content_len == 0
      then (ok, none, w)
      else if not (http.calloc w (req.content_len + 1))
      then (no_mem, none, w)
      else (let (body, w') = receive (req.content_len + 1) req.content_len [] w in
          elim body [ none ↦ (fail, none, w') | some buf ↦ (ok, some buf, w') ])

  -- The start of every handler that reads a body: the tree in it, or none and a refusal sent.
  unfoldable pub read_json : Request → Machine p → Option http.Item × Machine p
  unfolding recv_body
  read_json req m =
      let (err, body, w) = recv_body req m.http in
      let m1 = record m { http = w } in
      elim body [
        | none ↦ (none, (refuse 400 "body" fail m1).1)
        | some text ↦ elim (http.parse text) [
          | none ↦ (none, (refuse 400 "json" fail m1).1)
          | some json ↦ (some json, m1)
        ]
      ]

  -- Such a handler, by what it does with the tree.
  unfoldable pub with_json : (http.Item → Machine p → Err × Machine p) → Handler
  unfolding read_json
  with_json k req m =
      let (json, m1) = read_json req m in elim json [ none ↦ (fail, m1) | some json ↦ k json m1 ]

  -- `cJSON_IsNumber` and `cJSON_IsString`, false for NULL.
  abbrev pub is_number : Option http.Item → Bool
  is_number none = false
  is_number (some item) = http.is_number item

  abbrev pub is_string : Option http.Item → Bool
  is_string none = false
  is_string (some item) = http.is_string item

  -- Fields of an item that was tested before.
  abbrev pub valueint : Option http.Item → ℤ
  valueint none = pos 0
  valueint (some item) = http.valueint item

  abbrev pub valuestring : Option http.Item → List ℕ
  valuestring none = []
  valuestring (some item) = http.valuestring item

  -- `config_store_save(&app->config)`, whose result is not used.
  unfoldable pub save_config : Machine p → Machine p
  unfolding save
  save_config m = record m { nvs = (save p.nvs p.ids p.rtu m.app.config m.nvs).1 }
