-- ===== src/Modbus/Setup.antt =====
-- modbus_rtu_init: the driver, the settings of the line, the pins and the direction.
use daikin_d3net.Base.{ℕ, true, false, not, ◌==◌, if◌then◌else◌, ◌≡◌, ◌≢◌, arith, List, []}
use daikin_d3net.Base.Int.{ℤ, pos}
use daikin_d3net.Esp.{Err, ok, invalid_state, is_ok, is_ok-eq}
use daikin_d3net.Codec.{is_negative}
use daikin_d3net.Registers.Temperature.{cast}
use daikin_d3net.Modbus.Uart.{
  Uart, UartConfig, Parity, even, odd, disable, data_7_bits, data_8_bits,
}
use daikin_d3net.Modbus.Uart.{stop_bits_1, stop_bits_2}
use daikin_d3net.Modbus.Master.{RtuConfig, RtuContext, set_rx, transceive}

-- The parity of a configuration's character.
abbrev pub parity_of : ℕ → Parity
parity_of parity = if parity == b'E' then even else if parity == b'O' then odd else disable

-- `uart_cfg`
abbrev pub uart_cfg : RtuConfig → UartConfig
uart_cfg cfg = record {
  baud_rate = cast 32 (pos cfg.baud_rate);
  data_bits = if cfg.data_bits == 7 then data_7_bits else data_8_bits;
  parity = parity_of cfg.parity;
  stop_bits = if cfg.stop_bits == 2 then stop_bits_2 else stop_bits_1;
}

module _ (uart : Uart) where
  open uart use {World, driver_install, param_config, reset_pin, set_output}

  -- A direction pin, if the board has it.
  abbrev pub prepare_pin : ℤ → World → World
  prepare_pin pin w = if is_negative pin then w else set_output (reset_pin w pin) pin

  -- `modbus_rtu_init`: the result, the context and the world.
  unfoldable pub init_rtu : RtuConfig → World → Err × RtuContext × World
  unfolding set_rx
  init_rtu cfg w =
      let ctx : RtuContext = record { cfg = cfg; initialized = false } in
      let (install_err, w1) = driver_install w cfg.uart_num 2048 in
      if not (is_ok install_err)
      then (install_err, ctx, w1)
      else (let (param_err, w2) = param_config w1 cfg.uart_num (uart_cfg cfg) in
          if not (is_ok param_err)
          then (param_err, ctx, w2)
          else (let (pin_err, w3) = uart.set_pin w2 cfg.uart_num cfg.tx_pin cfg.rx_pin in
              if not (is_ok pin_err) then (pin_err, ctx, w3) else (
                ok,
                record ctx { initialized = true },
                set_rx uart cfg (prepare_pin cfg.re_pin (prepare_pin cfg.de_pin w3)),
              )))

  pub init_rtu-initialized :
      (cfg : RtuConfig) (w : World) → (init_rtu cfg w).1.initialized ≡ is_ok (init_rtu cfg w).0
  unfolding init_rtu
  init_rtu-initialized cfg w = ground arith

  pub init_rtu-cfg : (cfg : RtuConfig) (w : World) → (init_rtu cfg w).1.cfg ≡ cfg
  unfolding init_rtu
  init_rtu-cfg cfg w = ground arith

  transceive_refused :
      (ctx : RtuContext) (tx : List ℕ) (expected : ℕ) (w : World)
      → ctx.initialized ≡ false
      → transceive uart ctx tx expected w ≡ (invalid_state, [], w)
  unfolding transceive
  transceive_refused ctx tx expected w e = rw e

  -- A context that modbus_rtu_init failed to set up refuses every transfer with
  -- ESP_ERR_INVALID_STATE, receives nothing and does not touch the line.
  pub init_rtu_failed :
      (cfg : RtuConfig) (w : World) (tx : List ℕ) (expected : ℕ) (later : World)
      → (init_rtu cfg w).0 ≢ ok
      → transceive uart (init_rtu cfg w).1 tx expected later ≡ (invalid_state, [], later)
  init_rtu_failed cfg w tx expected later h =
      transceive_refused (init_rtu cfg w).1 tx expected later
        (ground (arith, init_rtu-initialized cfg w, is_ok-eq (init_rtu cfg w).0, h))
