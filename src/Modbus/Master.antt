-- ===== src/Modbus/Master.antt =====
-- The master: sending a frame, collecting the answer, and the two functions on registers.
use daikin_d3net.Base.{ℕ, zero, suc, ◌+◌, ◌-◌, ◌*◌, ◌%◌, ◌^◌, Bool, false, not}
use daikin_d3net.Base.{List, [], ◌++◌, ◌==◌, ltb, leb, if◌then◌else◌, length}
use daikin_d3net.Base.Int.{ℤ, pos, negsuc}
use daikin_d3net.Esp.{Err, ok, fail, invalid_arg, invalid_state, invalid_size, timeout, is_ok}
use daikin_d3net.Codec.{Words, is_negative}
use daikin_d3net.Gateway.Bus.{RegType}
use daikin_d3net.Modbus.Uart.{Uart}
use daikin_d3net.Modbus.Frame.{read_request, write_request, read_answer, write_answer}

-- `modbus_rtu_config_t`; the parity is the code of a character.
pub record RtuConfig : Type 0 where
  pub uart_num : ℤ
  pub tx_pin : ℤ
  pub rx_pin : ℤ
  pub de_pin : ℤ
  pub re_pin : ℤ
  pub baud_rate : ℕ
  pub data_bits : ℕ
  pub stop_bits : ℕ
  pub parity : ℕ
  pub slave_id : ℕ
  pub timeout_ms : ℕ

-- `modbus_rtu_ctx_t`
pub record RtuContext : Type 0 where
  pub cfg : RtuConfig
  pub initialized : Bool

-- `written == (int)tx_len`
abbrev pub counts : ℤ → ℕ → Bool
counts (pos m) n = m == n
counts (negsuc m) n = false

module _ (uart : Uart) where
  open uart use {World, flush_input, write_bytes, wait_tx_done, tick_count, read_bytes, set_level}
  open uart use {ms_to_ticks}

  -- The pin is driven if the board has it.
  abbrev pub drive : ℤ → ℕ → World → World
  drive pin level w = if is_negative pin then w else set_level w pin level

  -- `rtu_set_tx`
  unfoldable pub set_tx : RtuConfig → World → World
  set_tx cfg w = drive cfg.re_pin 1 (drive cfg.de_pin 1 w)

  -- `rtu_set_rx`
  unfoldable pub set_rx : RtuConfig → World → World
  set_rx cfg w = drive cfg.re_pin 0 (drive cfg.de_pin 0 w)

  -- The receiving loop of `rtu_transceive`, from the bytes that have come so far.
  unfoldable pub receive : ℕ → ℤ → ℕ → ℕ → List ℕ → World → List ℕ × World
  receive zero port expected deadline rx w = (rx, w)
  receive (suc fuel) port expected deadline rx w =
      let now = tick_count w in
      let (bytes, w') = read_bytes w port (expected - length rx) (deadline - now) in
      let rest = receive fuel port expected deadline (rx ++ bytes) w' in
      if not (ltb (length rx) expected)
      then (rx, w)
      else if leb deadline now
      then (rx, w)
      else if length bytes == 0
      then (rx, w')
      else rest

  -- `rtu_transceive`: the result, the bytes received and the world. Each round of the loop brings a
  -- byte at least, so it has no more rounds than bytes are expected, and one to stop.
  unfoldable pub transceive : RtuContext → List ℕ → ℕ → World → Err × List ℕ × World
  unfolding set_tx set_rx receive
  transceive ctx tx expected w =
      let cfg = ctx.cfg in
      if not ctx.initialized
      then (invalid_state, [], w)
      else (let (written, w1) =
            write_bytes (set_tx cfg (flush_input w cfg.uart_num)) cfg.uart_num tx in
          if not (counts written (length tx))
          then (fail, [], set_rx cfg w1)
          else (let (err, w2) = wait_tx_done w1 cfg.uart_num (ms_to_ticks cfg.timeout_ms) in
              let w3 = set_rx cfg w2 in
              if not (is_ok err)
              then (err, [], w3)
              else (let deadline = (tick_count w3 + ms_to_ticks cfg.timeout_ms) % 2 ^ 32 in
                  let (rx, w4) = receive (expected + 1) cfg.uart_num expected deadline [] w3 in
                  (if leb 5 (length rx) then ok else timeout, rx, w4))))

  -- `modbus_rtu_read_registers`
  unfoldable pub read_registers : RtuContext → RegType → ℕ → ℕ → Words → World → Err × Words × World
  unfolding transceive read_request read_answer
  read_registers ctx reg_type address count out_words w =
      if count == 0
      then (invalid_arg, out_words, w)
      else if ltb 260 (5 + count * 2)
      then (invalid_size, out_words, w)
      else (let (err, resp, w') =
            transceive ctx (read_request ctx.cfg.slave_id reg_type address count) (5 + count * 2)
              w in
          if not (is_ok err)
          then (err, out_words, w')
          else if ltb (length resp) (5 + count * 2)
          then (timeout, out_words, w')
          else (let (result, out) = read_answer ctx.cfg.slave_id reg_type count resp out_words in
              (result, out, w')))

  -- `modbus_rtu_write_registers`
  unfoldable pub write_registers : RtuContext → ℕ → ℕ → Words → World → Err × World
  unfolding transceive write_request write_answer
  write_registers ctx address count words w =
      if count == 0
      then (invalid_arg, w)
      else if ltb 256 (9 + count * 2)
      then (invalid_size, w)
      else (let (err, resp, w') =
            transceive ctx (write_request ctx.cfg.slave_id address count words) 8 w in
          if not (is_ok err)
          then (err, w')
          else if ltb (length resp) 8
          then (timeout, w')
          else (write_answer ctx.cfg.slave_id address count resp, w'))
