-- ===== src/Config.antt =====
-- The stored configuration (firmware/esp32_d3net/main/app_context.h, config_store.c).
pub mod Nvs
pub mod Store
pub mod RoundTrip
use daikin_d3net.Base.{ℕ, Bool, false, List, [], replicate}
use daikin_d3net.Base.Int.{pos}
use daikin_d3net.Gateway.{max_units}
use daikin_d3net.Modbus.Master.{RtuConfig}

-- `app_config_t`. The texts of `registered_ids` are those of its 64 rows.
pub record AppConfig : Type 0 where
  pub sta_ssid : List ℕ
  pub sta_password : List ℕ
  pub sta_configured : Bool
  pub registered_mask : ℕ
  pub registered_ids : List (List ℕ)
  pub rtu_cfg : RtuConfig

-- What `set_rtu_defaults` writes.
abbrev pub rtu_defaults : RtuConfig
rtu_defaults = record {
  uart_num = pos 1;
  tx_pin = pos 17;
  rx_pin = pos 16;
  de_pin = pos 4;
  re_pin = pos 5;
  baud_rate = 19200;
  data_bits = 8;
  stop_bits = 2;
  parity = b'N';
  slave_id = 1;
  timeout_ms = 3000;
}

abbrev pub no_ids : List (List ℕ)
no_ids = replicate max_units []

-- `memset(cfg, 0, sizeof(*cfg))` and `set_rtu_defaults(cfg)`
abbrev pub default_config : AppConfig
default_config = record {
  sta_ssid = [];
  sta_password = [];
  sta_configured = false;
  registered_mask = 0;
  registered_ids = no_ids;
  rtu_cfg = rtu_defaults;
}
