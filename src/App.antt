-- ===== src/App.antt =====
-- The application: its context (firmware/esp32_d3net/main/app_context.h) and the static state of
-- its modules, on a platform.
pub mod Json
pub mod Server
pub mod Tasks
use daikin_d3net.Base.{ℕ, Bool, List}
use daikin_d3net.Registers.Temperature.{Float}
use daikin_d3net.Gateway.Bus.{Transport}
use daikin_d3net.Gateway.{Gateway}
use daikin_d3net.Modbus.Master.{RtuConfig}
use daikin_d3net.Config.{AppConfig}
use daikin_d3net.Config.Nvs.{Nvs, Struct}
use daikin_d3net.TelnetLog.{TelnetLog, Sockets, logf}
use daikin_d3net.Wifi.{Radio, WifiState}
use Server.{Http}

-- `ota_state_t`
pub record OtaState : Type 0 where
  pub active : Bool
  pub success : Bool
  pub message : List ℕ
  pub bytes_received : ℕ
  pub total_bytes : ℕ

-- `app_context_t`, less the lock, which belongs to the scheduler.
pub record AppContext : Type 0 where
  pub gateway : Gateway
  pub ota : OtaState
  pub config : AppConfig

-- Everything that is not the program's own.
pub record Platform : Type 1 where
  pub float : Float
  pub bus : Transport
  pub nvs : Nvs
  pub ids : Struct (List (List ℕ))
  pub rtu : Struct RtuConfig
  pub sockets : Sockets
  pub radio : Radio
  pub http : Http float.F

-- The state of the program, and the worlds of the platform's parts, which do not touch each other.
pub record Machine (p : Platform) : Type 0 where
  pub app : AppContext
  pub telnet : TelnetLog
  pub wifi : WifiState
  pub bus : p.bus.World
  pub nvs : p.nvs.World
  pub sockets : p.sockets.World
  pub radio : p.radio.World
  pub http : p.http.World

module _ (p : Platform) where
  -- `telnet_server_logf`
  unfoldable pub log : List ℕ → Machine p → Machine p
  unfolding logf
  log text m =
      let (telnet, sockets) = logf p.sockets m.telnet text m.sockets in
      record m { telnet = telnet; sockets = sockets }
