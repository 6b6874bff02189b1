-- ===== src/System/Start.antt =====
-- app_main and start_mdns (firmware/esp32_d3net/main/main.c).
use Prim.Native.String.{String}
use daikin_d3net.Base.{ℕ, Bool, false, not, ◌||◌, ◌==◌, List, if◌then◌else◌}
use daikin_d3net.Base.Text.{codes}
use daikin_d3net.Esp.{Err, ok, other, is_ok, is_invalid_state, ◌>>?◌}
use daikin_d3net.Registers.Temperature.{Float}
use daikin_d3net.Modbus.Uart.{Uart}
use daikin_d3net.Modbus.Master.{RtuConfig, RtuContext}
use daikin_d3net.Modbus.Setup.{init_rtu}
use daikin_d3net.Modbus.Bus.{master_bus}
use daikin_d3net.Config.{AppConfig}
use daikin_d3net.Config.Nvs.{Nvs, Struct}
use daikin_d3net.Config.Store.{load}
use daikin_d3net.TelnetLog.{Sockets, s_telnet}
use daikin_d3net.Wifi.{Radio, WifiState, initial, start_apsta, connect_sta}
use daikin_d3net.App.{Platform, Machine}
use daikin_d3net.App.Server.{Http}
use daikin_d3net.Web.Routes.{web_server_start}
use daikin_d3net.System.Invariant.{initial_app}

-- What `app_main` calls beside the other files: the start of the flash and mDNS.
pub record Boot (N : Type 0) : Type 1 where
  pub nvs_flash_init : N → Err × N
  pub nvs_flash_erase : N → Err × N
  pub World : Type 0
  pub mdns_init : World → Err × World
  pub hostname_set : World → String → Err × World
  pub instance_name_set : World → String → Err × World
  -- The name, the service, its protocol and its port.
  pub service_add : World → String → String → String → ℕ → Err × World
  -- Whether there is memory for the context of the transport.
  pub calloc : World → Bool

-- `ESP_ERR_NVS_NO_FREE_PAGES` or `ESP_ERR_NVS_NEW_VERSION_FOUND`
abbrev pub is_stale : Err → Bool
is_stale (other n) = n == 0x110d || n == 0x1110
is_stale e = false

module _ {N : Type 0} (boot : Boot N) where
  open boot use {World}

  -- The start of the flash, erased where its contents cannot be used.
  unfoldable pub start_flash : N → Err × N
  start_flash n =
      let (err, n1) = boot.nvs_flash_init n in
      if is_stale err then boot.nvs_flash_erase n1 >>? boot.nvs_flash_init else (err, n1)

  -- `start_mdns`: the result of a check that aborts the program, or ESP_OK.
  unfoldable pub start_mdns : World → Err × World
  start_mdns w =
      let (err, w1) = boot.mdns_init w in
      if not (is_ok err || is_invalid_state err)
      then (ok, w1)
      else boot.hostname_set w1 "daikin-d3net"
        >>? (λ w. boot.instance_name_set w "Daikin D3Net Controller")
        >>? (λ w. boot.service_add w "Daikin D3Net Web" "_http" "_tcp" 80)
        >>? (λ w. boot.service_add w "Daikin D3Net Telnet" "_telnet" "_tcp" 23)

-- The platform of a line that was set up: the bus is the master on that line.
module _ (uart : Uart) (delay : uart.World → ℕ → uart.World) (time_us : uart.World → ℕ)
    (float : Float) (nvs : Nvs) (ids : Struct (List (List ℕ))) (rtu : Struct RtuConfig)
    (sockets : Sockets) (radio : Radio) (http : Http float.F) (boot : Boot nvs.World)
    (page : List ℕ) where
  abbrev pub platform : RtuContext → Platform
  platform ctx = record {
    float = float;
    bus = master_bus uart ctx delay time_us;
    nvs = nvs;
    ids = ids;
    rtu = rtu;
    sockets = sockets;
    radio = radio;
    http = http;
  }

  -- The worlds at the start.
  pub record Worlds : Type 0 where
    pub line : uart.World
    pub flash : nvs.World
    pub net : sockets.World
    pub air : radio.World
    pub server : http.World
    pub names : boot.World

  -- How `app_main` ends: a check aborts the program, it returns early, or its tasks run.
  pub data Startup : Type 0 where
    aborted : Err → Startup
    returned : Startup
    running : (ctx : RtuContext) → Machine (platform ctx) → Startup

  -- The station, if the configuration has a network; a failure is only logged.
  abbrev pub join : AppConfig → WifiState → radio.World → WifiState × radio.World
  join cfg st w =
      let (err, st', w') = connect_sta radio cfg.sta_ssid cfg.sta_password st w in
      if cfg.sta_configured then (st', w') else (st, w)

  -- The servers and the tasks, on a line that was set up.
  unfoldable pub serve : (ctx : RtuContext) → Machine (platform ctx) → boot.World → Startup
  unfolding web_server_start start_mdns
  serve ctx m names =
      let (web_err, m1) = web_server_start (platform ctx) page m in
      let (mdns_err, _) = start_mdns boot names in
      if not (is_ok web_err)
      then aborted web_err
      else if not (is_ok mdns_err)
      then aborted mdns_err
      else running ctx m1

  -- The rest of `app_main` behind the Wi-Fi.
  unfoldable pub start_line : AppConfig → WifiState → Worlds → Startup
  unfolding init_rtu serve
  start_line cfg st w =
      let (err, ctx, line) = init_rtu uart cfg.rtu_cfg w.line in
      if not (boot.calloc w.names)
      then returned
      else if not (is_ok err)
      then returned
      else serve ctx
          (record {
            app = initial_app cfg;
            telnet = s_telnet;
            wifi = st;
            bus = line;
            nvs = w.flash;
            sockets = w.net;
            radio = w.air;
            http = w.server;
          })
          w.names

  -- `app_main`
  unfoldable pub app_main : Worlds → Startup
  unfolding start_flash load start_apsta start_line
  app_main w =
      let (flash_err, flash) = start_flash boot w.flash in
      if not (is_ok flash_err)
      then aborted flash_err
      else (let (load_err, cfg, flash1) = load nvs ids rtu flash in
          let (wifi_err, st, air) =
            start_apsta radio (codes "DaikinD3Net-Setup") (codes "daikinsetup") initial w.air in
          if not (is_ok wifi_err)
          then aborted wifi_err
          else (let (st1, air1) = join cfg st air in
              start_line cfg st1 (record w { flash = flash1; air = air1 })))
