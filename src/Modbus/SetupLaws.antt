-- ===== src/Modbus/SetupLaws.antt =====
-- What a serial line is after a modbus_rtu_init that succeeded: its settings, its pins and its
-- direction.
use daikin_d3net.Base.{ℕ, ◌^◌, ◌<◌, ◌≡◌, ◌↔◌, arith, Bool, true, false, ◌==◌}
use daikin_d3net.Base.{if◌then◌else◌}
use daikin_d3net.Base.Int.{ℤ, pos, negsuc}
use daikin_d3net.Esp.{ok}
use daikin_d3net.Codec.{is_negative}
use daikin_d3net.Modbus.Uart.{Uart, UartConfig, even, odd, data_7_bits, stop_bits_2}
use daikin_d3net.Modbus.Master.{RtuConfig}
use daikin_d3net.Modbus.Setup.{uart_cfg}

abbrev pub same_pin : ℤ → ℤ → Bool
same_pin (pos a) (pos b) = a == b
same_pin (pos a) (negsuc b) = false
same_pin (negsuc a) (pos b) = false
same_pin (negsuc a) (negsuc b) = a == b

-- The state of the serial driver and the pins: the settings of a port, its pins for sending and
-- receiving, whether a pin is an output, and its level. A call of the driver that succeeds has the
-- effect that it is called for, and a call on a pin changes no other pin.
pub record Driver (uart : Uart) : Type 0 where
  pub settings : uart.World → ℤ → UartConfig
  pub pins : uart.World → ℤ → ℤ × ℤ
  pub is_output : uart.World → ℤ → Bool
  pub level : uart.World → ℤ → ℕ
  pub param_config_sets :
      (w : uart.World) (port : ℤ) (c : UartConfig)
      → (uart.param_config w port c).0 ≡ ok
      → settings (uart.param_config w port c).1 port ≡ c
  pub set_pin_sets :
      (w : uart.World) (port tx rx : ℤ)
      → is_negative tx ≡ false
      → is_negative rx ≡ false
      → (uart.set_pin w port tx rx).0 ≡ ok
      → pins (uart.set_pin w port tx rx).1 port ≡ (tx, rx)
  pub set_pin_keeps :
      (w : uart.World) (port tx rx : ℤ)
      → settings (uart.set_pin w port tx rx).1 port ≡ settings w port
  pub reset_pin_keeps :
      (w : uart.World) (pin port : ℤ) → settings (uart.reset_pin w pin) port ≡ settings w port
  pub set_output_keeps :
      (w : uart.World) (pin port : ℤ) → settings (uart.set_output w pin) port ≡ settings w port
  pub set_level_keeps :
      (w : uart.World) (pin port : ℤ) (n : ℕ)
      → (settings (uart.set_level w pin n) port ≡ settings w port)
        × (pins (uart.set_level w pin n) port ≡ pins w port)
        × (is_output (uart.set_level w pin n) port ≡ is_output w port)
  pub reset_pin_pins :
      (w : uart.World) (pin port : ℤ)
      → same_pin pin (pins w port).0 ≡ false
      → same_pin pin (pins w port).1 ≡ false
      → pins (uart.reset_pin w pin) port ≡ pins w port
  pub set_output_pins :
      (w : uart.World) (pin port : ℤ)
      → same_pin pin (pins w port).0 ≡ false
      → same_pin pin (pins w port).1 ≡ false
      → pins (uart.set_output w pin) port ≡ pins w port
  pub reset_pin_outputs :
      (w : uart.World) (pin other : ℤ)
      → is_output (uart.reset_pin w pin) other
        ≡ (if same_pin pin other then false else is_output w other)
  pub set_output_outputs :
      (w : uart.World) (pin other : ℤ)
      → is_output (uart.set_output w pin) other
        ≡ (if same_pin pin other then true else is_output w other)
  pub set_level_levels :
      (w : uart.World) (pin other : ℤ) (n : ℕ)
      → level (uart.set_level w pin n) other ≡ (if same_pin pin other then n else level w other)

-- A configuration of a line that has both pins for the data, apart from those for the direction,
-- and a rate that an int can hold.
pub record IsWired (cfg : RtuConfig) : Type 0 where
  pub tx : is_negative cfg.tx_pin ≡ false
  pub rx : is_negative cfg.rx_pin ≡ false
  pub de : (same_pin cfg.de_pin cfg.tx_pin ≡ false) × (same_pin cfg.de_pin cfg.rx_pin ≡ false)
  pub re : (same_pin cfg.re_pin cfg.tx_pin ≡ false) × (same_pin cfg.re_pin cfg.rx_pin ≡ false)
  pub rate : cfg.baud_rate < 2 ^ 31

-- The settings are those of a configuration.
pub record IsFormat (cfg : RtuConfig) (c : UartConfig) : Type 0 where
  pub baud_rate : c.baud_rate ≡ pos cfg.baud_rate
  pub seven : (c.data_bits ≡ data_7_bits) ↔ (cfg.data_bits ≡ 7)
  pub two : (c.stop_bits ≡ stop_bits_2) ↔ (cfg.stop_bits ≡ 2)
  pub even_parity : (c.parity ≡ even) ↔ (cfg.parity ≡ b'E')
  pub odd_parity : (c.parity ≡ odd) ↔ (cfg.parity ≡ b'O')

pub uart_cfg-IsFormat : (cfg : RtuConfig) → cfg.baud_rate < 2 ^ 31 → IsFormat cfg (uart_cfg cfg)
uart_cfg-IsFormat cfg h = record {
  baud_rate = ground arith;
  seven = (λ e. ground arith, λ e. ground arith);
  two = (λ e. ground arith, λ e. ground arith);
  even_parity = (λ e. ground arith, λ e. ground arith);
  odd_parity = (λ e. ground arith, λ e. ground arith);
}
