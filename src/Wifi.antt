-- ===== src/Wifi.antt =====
-- The Wi-Fi manager (firmware/esp32_d3net/main/wifi_manager.h, wifi_manager.c).
pub mod Scan
use daikin_d3net.Base.{ℕ, zero, suc, ◌+◌, ◌-◌, ◌/◌, ◌%◌, ◌^◌, Bool, true, false, not, ◌&&◌, ◌||◌}
use daikin_d3net.Base.{List, [], ◌∷◌, ◌++◌, ltb, ◌==◌, if◌then◌else◌, length, take, get_or}
use daikin_d3net.Base.Int.{ℤ, pos}
use daikin_d3net.Base.Text.{is_empty}
use daikin_d3net.Esp.{Err, ok, no_mem, invalid_arg, is_ok, is_invalid_state, ◌>>?◌}
use daikin_d3net.Codec.{◌!=◌}

-- `wifi_ap_record_t`, as far as it is read, and `wifi_scan_item_t`.
pub record ScanItem : Type 0 where
  pub ssid : List ℕ
  pub rssi : ℤ
  pub authmode : ℕ

-- The parts of `wifi_config_t` that the program sets for the access point. `secured` stands for
-- WIFI_AUTH_WPA2_PSK against WIFI_AUTH_OPEN.
pub record ApConfig : Type 0 where
  pub ssid : List ℕ
  pub ssid_len : ℕ
  pub password : List ℕ
  pub secured : Bool

-- And for the station.
pub record StaConfig : Type 0 where
  pub ssid : List ℕ
  pub password : List ℕ

-- The event bases, and the events that the handler tells apart.
pub data Event : Type 0 where
  sta_disconnected sta_got_ip other_event : Event

-- The functions of ESP-IDF that the manager calls.
pub record Radio : Type 1 where
  pub World : Type 0
  pub netif_init : World → Err × World
  pub event_loop_create_default : World → Err × World
  -- Both default interfaces; the second is the station's.
  pub create_default_netifs : World → World
  pub wifi_init : World → Err × World
  -- The registration for every Wi-Fi event, and for the station's address.
  pub register_wifi_events : World → Err × World
  pub register_got_ip : World → Err × World
  pub set_mode_apsta : World → Err × World
  pub set_ap_config : World → ApConfig → Err × World
  pub set_sta_config : World → StaConfig → Err × World
  pub wifi_start : World → Err × World
  pub wifi_connect : World → Err × World
  -- `xTaskCreate` of the reconnecting task
  pub create_reconnect_task : World → Bool × World
  -- `esp_netif_get_ip_info`: the four bytes of the address
  pub get_ip_info : World → Err × ℕ × ℕ × ℕ × ℕ
  pub scan_start : World → Err × World
  pub scan_get_ap_num : World → Err × ℕ
  -- Whether there is memory for so many records.
  pub calloc : World → ℕ → Bool
  -- The records, at most so many, and their number.
  pub scan_get_ap_records : World → ℕ → Err × ℕ × List ScanItem × World

-- The static variables.
pub record WifiState : Type 0 where
  pub sta_connected : Bool
  pub netif_sta : Bool
  pub reconnect_task : Bool
  pub sta_cfg_set : Bool

abbrev pub initial : WifiState
initial = record {
  sta_connected = false;
  netif_sta = false;
  reconnect_task = false;
  sta_cfg_set = false;
}

-- The decimal figures of a number below 1000, and an address as "%d.%d.%d.%d".
abbrev pub print_byte : ℕ → List ℕ
print_byte n =
    if ltb n 10
    then (48 + n) ∷ []
    else if ltb n 100
    then (48 + n / 10) ∷ (48 + n % 10) ∷ []
    else (48 + n / 100) ∷ (48 + n / 10 % 10) ∷ (48 + n % 10) ∷ []

abbrev pub print_ip : ℕ × ℕ × ℕ × ℕ → List ℕ
print_ip (a, b, c, d) =
    print_byte a ++ 46 ∷ (print_byte b ++ 46 ∷ (print_byte c ++ 46 ∷ print_byte d))

-- `wifi_manager_sta_connected`
abbrev pub sta_connected : WifiState → Bool
sta_connected st = st.sta_connected

abbrev pub no_item : ScanItem
no_item = record { ssid = []; rssi = pos 0; authmode = 0 }

-- The loop of `wifi_manager_scan`, from index `i`.
unfoldable pub copy_items : List ScanItem → ℕ → ℕ → List ScanItem
copy_items recs zero i = []
copy_items recs (suc left) i =
    let rec = get_or recs i no_item in
    record rec { ssid = take 32 rec.ssid } ∷ copy_items recs left (i + 1)

module _ (radio : Radio) where
  open radio use {World}

  -- One round of `wifi_reconnect_task`, less the delay.
  unfoldable pub reconnect : WifiState → World → World
  reconnect st w = if st.sta_cfg_set && not st.sta_connected then (radio.wifi_connect w).1 else w

  -- `wifi_event_handler`
  unfoldable pub event_handler : Event → WifiState → World → WifiState × World
  event_handler sta_disconnected st w =
      (record st { sta_connected = false }, (radio.wifi_connect w).1)
  event_handler sta_got_ip st w = (record st { sta_connected = true }, w)
  event_handler other_event st w = (st, w)

  -- What `wifi_manager_start_apsta` sends to the driver for the access point.
  unfoldable pub ap_config : List ℕ → List ℕ → ApConfig
  ap_config ssid password = record {
    ssid = take 31 ssid;
    ssid_len = length ssid % 2 ^ 8;
    password = if is_empty password then [] else take 63 password;
    secured = not (is_empty password);
  }

  -- The calls of `wifi_manager_start_apsta` behind the interfaces, up to the start of the driver.
  unfoldable pub start_driver : List ℕ → List ℕ → World → Err × World
  unfolding ap_config
  start_driver ssid password w =
      radio.wifi_init w
      >>? radio.register_wifi_events
      >>? radio.register_got_ip
      >>? radio.set_mode_apsta
      >>? (λ w. radio.set_ap_config w (ap_config ssid password))
      >>? radio.wifi_start

  -- A result that lets the start go on.
  abbrev pub harmless : Err → Bool
  harmless err = is_ok err || is_invalid_state err

  -- `wifi_manager_start_apsta`
  unfoldable pub start_apsta : List ℕ → List ℕ → WifiState → World → Err × WifiState × World
  unfolding start_driver
  start_apsta ssid password st w =
      let (netif_err, w1) = radio.netif_init w in
      if not (harmless netif_err)
      then (netif_err, st, w1)
      else (let (loop_err, w2) = radio.event_loop_create_default w1 in
          if not (harmless loop_err)
          then (loop_err, st, w2)
          else (let st1 = record st { netif_sta = true } in
              let (err, w3) = start_driver ssid password (radio.create_default_netifs w2) in
              if not (is_ok err)
              then (err, st1, w3)
              else if st.reconnect_task
              then (ok, st1, w3)
              else (let (created, w4) = radio.create_reconnect_task w3 in
                  (ok, record st1 { reconnect_task = created }, w4))))

  -- `wifi_manager_connect_sta`
  unfoldable pub connect_sta : List ℕ → List ℕ → WifiState → World → Err × WifiState × World
  connect_sta ssid password st w =
      if is_empty ssid
      then (invalid_arg, st, w)
      else (let sta_cfg : StaConfig = record { ssid = take 31 ssid; password = take 63 password } in
          let (err, w1) = radio.set_sta_config w sta_cfg in
          if not (is_ok err)
          then (err, st, w1)
          else (let (connect_err, w2) = radio.wifi_connect w1 in
              (connect_err, record st { sta_cfg_set = true }, w2)))

  -- `wifi_manager_sta_ip` into a buffer of `out_len` characters, from the text it has.
  unfoldable pub sta_ip : WifiState → List ℕ → ℕ → World → Err × List ℕ
  sta_ip st out out_len w =
      if out_len == 0 || not st.netif_sta
      then (invalid_arg, out)
      else (let (err, a, b, c, d) = radio.get_ip_info w in
          if not (is_ok err) then (err, out) else (ok, take (out_len - 1) (print_ip (a, b, c, d))))

  -- `wifi_manager_scan`: the result, the items that were written, their number and the world.
  unfoldable pub scan : ℕ → World → Err × List ScanItem × ℕ × World
  unfolding copy_items
  scan max_items w =
      let (start_err, w1) = radio.scan_start w in
      if not (is_ok start_err)
      then (start_err, [], 0, w1)
      else (let (num_err, ap_num) = radio.scan_get_ap_num w1 in
          if not (is_ok num_err)
          then (num_err, [], 0, w1)
          else if ap_num == 0
          then (ok, [], 0, w1)
          else if not (radio.calloc w1 ap_num)
          then (no_mem, [], 0, w1)
          else (let (err, found, recs, w2) = radio.scan_get_ap_records w1 ap_num in
              if not (is_ok err)
              then (err, [], 0, w2)
              else (let n = if ltb found max_items then found else max_items in
                  (ok, copy_items recs n 0, n, w2))))
