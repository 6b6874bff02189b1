-- ===== src/Modbus/Uart.antt =====
-- The serial driver, the pins and the tick count, which the firmware takes from ESP-IDF.
use daikin_d3net.Base.{ℕ, ◌≤◌, ◌<◌, List, length, All}
use daikin_d3net.Base.Int.{ℤ}
use daikin_d3net.Esp.{Err}

-- `uart_config_t`, less the flow control and the clock, which are fixed.
pub data WordLength : Type 0 where
  data_7_bits data_8_bits : WordLength

pub data StopBits : Type 0 where
  stop_bits_1 stop_bits_2 : StopBits

pub data Parity : Type 0 where
  disable even odd : Parity

pub record UartConfig : Type 0 where
  pub baud_rate : ℤ
  pub data_bits : WordLength
  pub parity : Parity
  pub stop_bits : StopBits

pub record Uart : Type 1 where
  pub World : Type 0
  -- `uart_driver_install` with a receive buffer of so many bytes, `uart_param_config` and
  -- `uart_set_pin`
  pub driver_install : World → ℤ → ℕ → Err × World
  pub param_config : World → ℤ → UartConfig → Err × World
  pub set_pin : World → ℤ → ℤ → ℤ → Err × World
  -- `gpio_reset_pin`, and `gpio_set_direction` to an output
  pub reset_pin : World → ℤ → World
  pub set_output : World → ℤ → World
  -- `uart_flush_input`
  pub flush_input : World → ℤ → World
  -- `uart_write_bytes`: the number of bytes that were taken, or -1.
  pub write_bytes : World → ℤ → List ℕ → ℤ × World
  -- `uart_wait_tx_done`, with a timeout in ticks.
  pub wait_tx_done : World → ℤ → ℕ → Err × World
  -- `xTaskGetTickCount`
  pub tick_count : World → ℕ
  -- `uart_read_bytes` of at most so many bytes within so many ticks: the bytes that came, none on
  -- an error.
  pub read_bytes : World → ℤ → ℕ → ℕ → List ℕ × World
  -- `gpio_set_level`
  pub set_level : World → ℤ → ℕ → World
  -- `pdMS_TO_TICKS`
  pub ms_to_ticks : ℕ → ℕ
  -- A read brings no more bytes than were asked for.
  pub length-read_bytes :
      (w : World) (port : ℤ) (most ticks : ℕ) → length (read_bytes w port most ticks).0 ≤ most
  pub read_bytes-byte :
      (w : World) (port : ℤ) (most ticks : ℕ) → All (λ x. x < 256) (read_bytes w port most ticks).0
