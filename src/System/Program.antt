-- ===== src/System/Program.antt =====
-- The program from app_main on.
use Prim.Native.String.{String}
use daikin_d3net.Base.{ℕ, ◌^◌, ◌<◌, ◌≡◌, true, List, length}
use daikin_d3net.Registers.Temperature.{Float}
use daikin_d3net.Gateway.{max_units}
use daikin_d3net.Modbus.Uart.{Uart}
use daikin_d3net.Modbus.Master.{RtuConfig, RtuContext}
use daikin_d3net.Config.Nvs.{Nvs, Struct}
use daikin_d3net.TelnetLog.{Sockets}
use daikin_d3net.Wifi.{Radio}
use daikin_d3net.App.{Platform, Machine}
use daikin_d3net.App.Server.{Http}
use daikin_d3net.System.Invariant.{IsApp}
use daikin_d3net.System.Start.{Boot, Worlds, running, platform, app_main}
use daikin_d3net.System.Ready.{app_main-IsSetUp}
use daikin_d3net.System.Steps.{State, Reach, preserved}

module _ (uart : Uart) (delay : uart.World → ℕ → uart.World) (time_us : uart.World → ℕ)
    (float : Float) (nvs : Nvs) (ids : Struct (List (List ℕ))) (rtu : Struct RtuConfig)
    (sockets : Sockets) (radio : Radio) (http : Http float.F) (boot : Boot nvs.World)
    (page : List ℕ) (numbers : (w : nvs.World) (k : String) → (nvs.get_u64 w k).1 < 2 ^ 64)
    (rows : (bytes : List ℕ) → length (ids.of_bytes bytes) ≡ max_units)
    (w : Worlds uart delay time_us float nvs ids rtu sockets radio http boot page)
    (ctx : RtuContext) where
  abbrev on : Platform
  on = platform uart delay time_us float nvs ids rtu sockets radio http boot page ctx

  -- Wherever app_main comes to its tasks, every state that requests, rounds of the tasks,
  -- connections and events of the radio lead to has a gateway of 64 units whose blocks have their
  -- sizes, each present one with the index and the id of its place and counted, no update under
  -- way and a successful one of fewer than 2^31 bytes received in full, and a registry that fits
  -- its types: for a store whose numbers fit 64 bits, and a struct that has 64 rows of ids.
  pub app_main-IsApp :
      (m : Machine on) (s : State on page)
      → app_main uart delay time_us float nvs ids rtu sockets radio http boot page w ≡ running ctx m
      → Reach on page (true, m) s
      → IsApp s.1.app
  app_main-IsApp m s e steps =
      let ready =
        app_main-IsSetUp uart delay time_us float nvs ids rtu sockets radio http boot page numbers
          rows w ctx m e in
      preserved on page steps ready.in_order
