-- ===== src/Web/Settings.antt =====
-- The page, the state, the Wi-Fi, the log and the line over HTTP: handle_index_get,
-- handle_status_get, handle_wifi_scan_get, handle_wifi_connect_post, handle_logs_get,
-- handle_rtu_get and handle_rtu_post.
use Prim.Native.String.{String}
use daikin_d3net.Base.{ℕ, ◌%◌, ◌^◌, true, not, List, [], ◌∷◌, Option, none, some}
use daikin_d3net.Base.{ltb, ◌==◌, if◌then◌else◌, take}
use daikin_d3net.Base.Int.{ℤ, pos}
use daikin_d3net.Base.Text.{codes}
use daikin_d3net.Esp.{Err, ok, fail, is_ok}
use daikin_d3net.Registers.Temperature.{residue}
use daikin_d3net.Modbus.Master.{RtuConfig}
use daikin_d3net.Config.{AppConfig}
use daikin_d3net.TelnetLog.{LogLine, get_logs}
use daikin_d3net.Wifi.{ScanItem, sta_ip, scan, connect_sta}
use daikin_d3net.App.{OtaState, Platform, Machine}
use daikin_d3net.App.Server.{Request}
use daikin_d3net.App.Json.{Json, bool, number, string, array, object, Items, no_items, item}
use daikin_d3net.App.Json.{no_members, member}
use daikin_d3net.Web.{
  Handler, refuse, reply_ok, reply_json, read_json, with_json, is_string, valuestring, save_config,
}
use daikin_d3net.Web.Registry.{with_config}

module _ (p : Platform) (page : List ℕ) where
  open p use {http}

  -- `handle_index_get`, of the page INDEX_HTML
  unfoldable pub index_get : Handler p
  index_get req m = let (err, w) = http.send m.http "text/html" page in (err, record m { http = w })

module _ (p : Platform) where
  open p use {http, float, radio}

  unfoldable pub ota_object : OtaState → Json float.F
  ota_object ota = object (
      member "active" (bool ota.active) (
        member "success" (bool ota.success) (
          member "bytes_received" (number (pos ota.bytes_received)) (
            member "total_bytes" (number (pos ota.total_bytes))
              (member "message" (string ota.message) no_members)))))

  -- `handle_status_get`
  unfoldable pub status_get : Handler p
  unfolding ota_object sta_ip reply_json
  status_get req m =
      let ip = (sta_ip radio m.wifi [] 32 m.radio).1 in
      let wifi =
        object
          (member "connected" (bool m.wifi.sta_connected) (member "ip" (string ip) no_members)) in
      reply_json p (object (member "wifi" wifi (member "ota" (ota_object m.app.ota) no_members))) m

  -- The loop of `handle_wifi_scan_get`.
  unfoldable pub scan_items : List ScanItem → Items float.F
  scan_items [] = no_items
  scan_items (ap ∷ aps) =
      item
        (object (
          member "ssid" (string ap.ssid)
            (member "rssi" (number ap.rssi) (member "auth" (number (pos ap.authmode)) no_members))))
        (scan_items aps)

  -- `handle_wifi_scan_get`
  unfoldable pub wifi_scan_get : Handler p
  unfolding scan scan_items reply_json
  wifi_scan_get req m =
      let (err, items, count, w) = scan radio 20 m.radio in
      let m1 = record m { radio = w } in
      if not (is_ok err)
      then refuse p 500 "scan failed" err m1
      else reply_json p (object (member "items" (array (scan_items items)) no_members)) m1

  -- The configuration after a connection to a network was started.
  abbrev pub with_network : List ℕ → List ℕ → AppConfig → AppConfig
  with_network ssid password cfg = record cfg {
    sta_ssid = take 32 ssid;
    sta_password = take 64 password;
    sta_configured = true;
  }

  -- What `handle_wifi_connect_post` does with the tree of the request.
  unfoldable pub wifi_connect : http.Item → Machine p → Err × Machine p
  unfolding connect_sta save_config reply_ok
  wifi_connect json m =
      let ssid = http.get_item json "ssid" in
      let pass = http.get_item json "password" in
      let name = valuestring p ssid in
      let password = if is_string p pass then valuestring p pass else [] in
      let (err, wifi, radio') = connect_sta radio name password m.wifi m.radio in
      let m1 = record m { wifi = wifi; radio = radio' } in
      if not (is_string p ssid)
      then refuse p 400 "ssid" fail m
      else if not (is_ok err)
      then refuse p 500 "connect failed" err m1
      else reply_ok p (save_config p (with_config p (with_network name password m1.app.config) m1))

  -- `handle_wifi_connect_post`
  unfoldable pub wifi_connect_post : Handler p
  unfolding with_json wifi_connect
  wifi_connect_post = with_json p wifi_connect

  -- The loop of `handle_logs_get`: the items, and the greatest number.
  unfoldable pub log_items : List LogLine → Items float.F
  log_items [] = no_items
  log_items (l ∷ ls) =
      item (object (member "seq" (number (pos l.seq)) (member "text" (string l.line) no_members)))
        (log_items ls)

  unfoldable pub latest_seq : List LogLine → ℕ → ℕ
  latest_seq [] latest = latest
  latest_seq (l ∷ ls) latest = latest_seq ls (if ltb latest l.seq then l.seq else latest)

  -- The tree of `handle_logs_get`.
  unfoldable pub logs : ℕ → Machine p → Json float.F
  unfolding get_logs log_items latest_seq
  logs since m =
      let lines = get_logs m.telnet since 64 in
      object (
        member "lines" (array (log_items lines))
          (member "latest" (number (pos (latest_seq lines since))) no_members))

  -- `handle_logs_get`
  unfoldable pub logs_get : Handler p
  unfolding logs reply_json
  logs_get req m =
      let since : ℕ = elim req.since [ none ↦ 0 | some text ↦ http.strtoul text % 2 ^ 32 ] in
      reply_json p (logs since m) m

  -- `(char[]){cfg->parity, 0}`, as the text up to its end.
  abbrev text_of : ℕ → List ℕ
  text_of parity = if parity == 0 then [] else parity ∷ []

  -- `handle_rtu_get`
  unfoldable pub rtu_get : Handler p
  unfolding reply_json
  rtu_get req m =
      let cfg = m.app.config.rtu_cfg in
      reply_json p
        (object (
          member "tx_pin" (number cfg.tx_pin) (
            member "rx_pin" (number cfg.rx_pin) (
              member "de_pin" (number cfg.de_pin) (
                member "re_pin" (number cfg.re_pin) (
                  member "baud_rate" (number (pos cfg.baud_rate)) (
                    member "data_bits" (number (pos cfg.data_bits)) (
                      member "stop_bits" (number (pos cfg.stop_bits)) (
                        member "parity" (string (text_of cfg.parity)) (
                          member "slave_id" (number (pos cfg.slave_id))
                            (member "timeout_ms" (number (pos cfg.timeout_ms)) no_members)))))))))))
        m

  infixl 5 ◌>>=◌
  abbrev ◌>>=◌ : {A B : Type 0} → Option A → (A → Option B) → Option B
  none >>= k = none
  some a >>= k = k a

  -- `cJSON_GetObjectItem(json, key)->valueint`: none is an access through NULL.
  abbrev pub int_of : http.Item → String → Option ℤ
  int_of json key = do it ← http.get_item json key; some (http.valueint it)

  -- `(char)cJSON_GetObjectItem(json, "parity")->valuestring[0]`, also none if it is no string.
  abbrev pub first_char : List ℕ → ℕ
  first_char [] = 0
  first_char (c ∷ cs) = c

  abbrev pub parity_of : http.Item → Option ℕ
  parity_of json = do
    it ← http.get_item json "parity"
    if http.is_string it then some (first_char (http.valuestring it)) else none

  -- The assignments of `handle_rtu_post`.
  unfoldable pub rtu_of : http.Item → RtuConfig → Option RtuConfig
  rtu_of json cfg = do
    tx_pin ← int_of json "tx_pin"
    rx_pin ← int_of json "rx_pin"
    de_pin ← int_of json "de_pin"
    re_pin ← int_of json "re_pin"
    baud_rate ← int_of json "baud_rate"
    data_bits ← int_of json "data_bits"
    stop_bits ← int_of json "stop_bits"
    parity ← parity_of json
    slave_id ← int_of json "slave_id"
    timeout_ms ← int_of json "timeout_ms"
    some (record cfg {
      tx_pin = tx_pin;
      rx_pin = rx_pin;
      de_pin = de_pin;
      re_pin = re_pin;
      baud_rate = residue 32 baud_rate;
      data_bits = residue 8 data_bits;
      stop_bits = residue 8 stop_bits;
      parity = parity;
      slave_id = residue 8 slave_id;
      timeout_ms = residue 32 timeout_ms;
    })

  -- The end of `handle_rtu_post`, with the settings of the request.
  unfoldable pub rtu_restart : RtuConfig → Machine p → Err × Machine p
  unfolding save_config
  rtu_restart cfg m =
      let m1 = save_config p (with_config p (record m.app.config { rtu_cfg = cfg }) m) in
      let w = (http.send m1.http "text/html" (codes "{\"ok\":true,\"reboot\":true}")).1 in
      (ok, record m1 { http = http.restart (http.delay w 800) })

  -- `handle_rtu_post`; none where the program reads through NULL.
  unfoldable pub rtu_post : Request → Machine p → Option (Err × Machine p)
  unfolding read_json rtu_of rtu_restart
  rtu_post req m =
      let (json, m1) = read_json p req m in
      elim json [
        | none ↦ some (fail, m1)
        | some json ↦ elim (rtu_of json m1.app.config.rtu_cfg) [
          | none ↦ none
          | some cfg ↦ some (rtu_restart cfg m1)
        ]
      ]
