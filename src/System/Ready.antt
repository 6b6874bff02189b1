-- ===== src/System/Ready.antt =====
-- What app_main has set up when its tasks start.
use Prim.Native.String.{String}
use mathlib.Core.Path.{subst}
use daikin_d3net.Base.{
  ℕ, ◌^◌, ◌<◌, ◌≡◌, refl, sym, ◌∙◌, arith, Bool, true, false, not, List, length,
}
use daikin_d3net.Base.{if◌then◌else◌, if_both}
use daikin_d3net.Base.Text.{codes}
use daikin_d3net.Esp.{Err, is_ok}
use daikin_d3net.Registers.Temperature.{Float}
use daikin_d3net.Gateway.{max_units}
use daikin_d3net.Modbus.Uart.{Uart}
use daikin_d3net.Modbus.Master.{RtuConfig, RtuContext}
use daikin_d3net.Modbus.SetupLaws.{Driver}
use daikin_d3net.Modbus.LineLaws.{IsLine}
use daikin_d3net.Modbus.Setup.{init_rtu, init_rtu-initialized, init_rtu-cfg}
use daikin_d3net.Config.{AppConfig}
use daikin_d3net.Config.Nvs.{Nvs, Struct}
use daikin_d3net.Config.Store.{load}
use daikin_d3net.TelnetLog.{Sockets}
use daikin_d3net.Wifi.{Radio, WifiState, initial, start_apsta}
use daikin_d3net.App.{Platform, Machine}
use daikin_d3net.App.Server.{Http}
use daikin_d3net.Web.Routes.{web_server_start}
use daikin_d3net.System.Invariant.{IsApp, IsRegistry, initial_app, initial-IsApp}
use daikin_d3net.System.Start.{Boot, Worlds, Startup, aborted, returned, running, platform}
use daikin_d3net.System.Start.{start_flash, start_mdns, serve, start_line, app_main}
use daikin_d3net.System.Loaded.{load-IsRegistry}

module _ (uart : Uart) (delay : uart.World → ℕ → uart.World) (time_us : uart.World → ℕ)
    (float : Float) (nvs : Nvs) (ids : Struct (List (List ℕ))) (rtu : Struct RtuConfig)
    (sockets : Sockets) (radio : Radio) (http : Http float.F) (boot : Boot nvs.World)
    (page : List ℕ) where
  abbrev pub Served : RtuContext → Type 0
  Served ctx =
      Machine (platform uart delay time_us float nvs ids rtu sockets radio http boot page ctx)

  -- The context and the line are what modbus_rtu_init made of a configuration, and the application
  -- starts with that configuration and is in order.
  pub record IsSetUp (cfg : AppConfig) (ctx : RtuContext) (m : Served ctx) : Type 0 where
    pub initialized : ctx.initialized ≡ true
    pub settings : ctx.cfg ≡ cfg.rtu_cfg
    pub app : m.app ≡ initial_app cfg
    pub in_order : IsApp m.app
    pub first : uart.World
    pub set_up : is_ok (init_rtu uart cfg.rtu_cfg first).0 ≡ true
    pub line : m.bus ≡ (init_rtu uart cfg.rtu_cfg first).2

  -- The context of the master is set up with the settings of a configuration, the line has them and
  -- its pins and is ready to receive, and the application starts with that configuration and is in
  -- order.
  pub record IsReady (d : Driver uart) (cfg : AppConfig) (ctx : RtuContext) (m : Served ctx)
      : Type 0 where
    pub initialized : ctx.initialized ≡ true
    pub settings : ctx.cfg ≡ cfg.rtu_cfg
    pub line : IsLine uart d cfg.rtu_cfg m.bus
    pub app : m.app ≡ initial_app cfg
    pub in_order : IsApp m.app

  -- The configuration that app_main loads.
  abbrev pub config :
      Worlds uart delay time_us float nvs ids rtu sockets radio http boot page → AppConfig
  config w = (load nvs ids rtu (start_flash boot w.flash).1).1

module _ (uart : Uart) (delay : uart.World → ℕ → uart.World) (time_us : uart.World → ℕ)
    (float : Float) (nvs : Nvs) (ids : Struct (List (List ℕ))) (rtu : Struct RtuConfig)
    (sockets : Sockets) (radio : Radio) (http : Http float.F) (boot : Boot nvs.World)
    (page : List ℕ) (numbers : (w : nvs.World) (k : String) → (nvs.get_u64 w k).1 < 2 ^ 64)
    (rows : (bytes : List ℕ) → length (ids.of_bytes bytes) ≡ max_units) where
  abbrev Result : Type 0
  Result = Startup uart delay time_us float nvs ids rtu sockets radio http boot page

  -- A start that comes to its tasks has set everything up.
  Ready : AppConfig → Result → Type 0
  Ready cfg (aborted err) = Unit {0}
  Ready cfg returned = Unit {0}
  Ready cfg (running ctx m) =
      IsSetUp uart delay time_us float nvs ids rtu sockets radio http boot page cfg ctx m

  aborts : (cfg : AppConfig) (err : Err) → Ready cfg (aborted err)
  unfolding Ready
  aborts cfg err = tt

  web-http :
      (p : Platform) (m : Machine p)
      → (web_server_start p page m).1 ≡ record m { http = (web_server_start p page m).1.http }
  unfolding web_server_start
  web-http p m = ground arith

  serve-Ready :
      (cfg : AppConfig) (ctx : RtuContext)
      (m : Served uart delay time_us float nvs ids rtu sockets radio http boot page ctx)
      (names : boot.World)
      → IsSetUp uart delay time_us float nvs ids rtu sockets radio http boot page cfg ctx m
      → Ready cfg
          (serve uart delay time_us float nvs ids rtu sockets radio http boot page ctx m names)
  unfolding serve Ready
  serve-Ready cfg ctx m names r =
      let p = platform uart delay time_us float nvs ids rtu sockets radio http boot page ctx in
      let (web_err, m1) = web_server_start p page m in
      let (mdns_err, _) = start_mdns boot names in
      if_both (Ready cfg) (not (is_ok web_err)) {x = aborted web_err}
        {y = if not (is_ok mdns_err) then aborted mdns_err else running ctx m1} tt
        (if_both (Ready cfg) (not (is_ok mdns_err)) {x = aborted mdns_err} {y = running ctx m1} tt (
          subst (IsSetUp uart delay time_us float nvs ids rtu sockets radio http boot page cfg ctx)
            (sym (web-http p m))
            (record {
              initialized = r.initialized;
              settings = r.settings;
              app = r.app;
              in_order = r.in_order;
              first = r.first;
              set_up = r.set_up;
              line = r.line;
            })))

  -- The returns before the servers.
  before_serving :
      (cfg : AppConfig) (memory set_up : Bool) (out : Result)
      → (set_up ≡ true → Ready cfg out)
      → Ready cfg (if not memory then returned else if not set_up then returned else out)
  unfolding Ready
  before_serving cfg false set_up out h = tt
  before_serving cfg true false out h = tt
  before_serving cfg true true out h = h refl

  start_line-Ready :
      (cfg : AppConfig) (st : WifiState)
      (w : Worlds uart delay time_us float nvs ids rtu sockets radio http boot page)
      → IsRegistry cfg
      → Ready cfg
          (start_line uart delay time_us float nvs ids rtu sockets radio http boot page cfg st w)
  unfolding start_line
  start_line-Ready cfg st w r =
      let (err, ctx, line) = init_rtu uart cfg.rtu_cfg w.line in
      before_serving cfg (boot.calloc w.names) (is_ok err) _ λ set_up.
        serve-Ready cfg ctx _ w.names (record {
          initialized = init_rtu-initialized uart cfg.rtu_cfg w.line ∙ set_up;
          settings = init_rtu-cfg uart cfg.rtu_cfg w.line;
          app = refl;
          in_order = initial-IsApp cfg r;
          first = w.line;
          set_up = set_up;
          line = refl;
        })

  app_main-Ready :
      (w : Worlds uart delay time_us float nvs ids rtu sockets radio http boot page)
      → Ready
          (config uart delay time_us float nvs ids rtu sockets radio http boot page w)
          (app_main uart delay time_us float nvs ids rtu sockets radio http boot page w)
  unfolding app_main
  app_main-Ready w =
      let (flash_err, flash) = start_flash boot w.flash in
      let (load_err, cfg, flash1) = load nvs ids rtu flash in
      let (wifi_err, st, air) =
        start_apsta radio (codes "DaikinD3Net-Setup") (codes "daikinsetup") initial w.air in
      if_both (Ready cfg) (not (is_ok flash_err)) (aborts cfg flash_err) (
        if_both (Ready cfg) (not (is_ok wifi_err)) (aborts cfg wifi_err)
          (start_line-Ready cfg _ _ (load-IsRegistry nvs ids rtu numbers rows flash)))

  pub app_main-IsSetUp :
      (w : Worlds uart delay time_us float nvs ids rtu sockets radio http boot page)
      (ctx : RtuContext)
      (m : Served uart delay time_us float nvs ids rtu sockets radio http boot page ctx)
      → app_main uart delay time_us float nvs ids rtu sockets radio http boot page w ≡ running ctx m
      → IsSetUp uart delay time_us float nvs ids rtu sockets radio http boot page
          (config uart delay time_us float nvs ids rtu sockets radio http boot page w)
          ctx
          m
  unfolding Ready
  app_main-IsSetUp w ctx m e =
      subst (Ready (config uart delay time_us float nvs ids rtu sockets radio http boot page w)) e
        (app_main-Ready w)
