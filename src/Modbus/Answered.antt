-- ===== src/Modbus/Answered.antt =====
-- modbus_rtu_read_registers and modbus_rtu_write_registers with a device that answers in time, and
-- the gateway's bus on such a line.
use daikin_d3net.Base.{ℕ, ◌+◌, ◌*◌, ◌≤◌, ◌<◌, ◌≡◌, refl, arith, true, []}
use daikin_d3net.Base.{◌∷◌, length, length-append, ◌==◌, ltb, false}
use daikin_d3net.Esp.{ok}
use daikin_d3net.Codec.{Words}
use mathlib.Core.Path.{subst}
use daikin_d3net.Gateway.Bus.{RegType}
use daikin_d3net.Gateway.Answering.{Answers}
use daikin_d3net.Modbus.Uart.{Uart}
use daikin_d3net.Modbus.Crc.{crc16}
use daikin_d3net.Modbus.CrcLaws.{crc16-lt}
use daikin_d3net.Modbus.Frame.{
  with_crc, word_bytes, low_byte, high_byte, read_function, read_request, write_request,
  read_answer, write_answer,
}
use daikin_d3net.Modbus.FrameLaws.{
  answer_frame, read_answer-answer_frame, length-word_bytes, crc_of_bytes,
}
use daikin_d3net.Modbus.WriteLaws.{acknowledgement}
use daikin_d3net.Modbus.Master.{RtuContext, transceive, read_registers, write_registers}
use daikin_d3net.Modbus.Slave.{Slave, IsExchange, transceive-IsExchange}
use daikin_d3net.Modbus.Bus.{master_bus}

length-answer_frame :
    (slave_id : ℕ) (ty : RegType) (ws : Words)
    → length (answer_frame slave_id ty ws) ≡ 5 + length ws * 2
unfolding answer_frame with_crc
length-answer_frame slave_id ty ws =
    let body = slave_id ∷ read_function ty ∷ low_byte (length ws * 2) ∷ word_bytes ws in
    omega (
      arith,
      length-append body (low_byte (crc16 body) ∷ high_byte (crc16 body) ∷ []),
      length-word_bytes ws,
    )

length-acknowledgement :
    (slave_id address count : ℕ) → length (acknowledgement slave_id address count) ≡ 8
unfolding acknowledgement with_crc
length-acknowledgement slave_id address count = omega arith

-- The acknowledgement of a device passes the checks.
write_answer-acknowledgement :
    (slave_id address count : ℕ)
    → slave_id < 256
    → write_answer slave_id address count (acknowledgement slave_id address count) ≡ ok
unfolding write_answer acknowledgement with_crc
write_answer-acknowledgement slave_id address count h =
    let body =
      slave_id
      ∷ 0x10
      ∷ high_byte address
      ∷ low_byte address
      ∷ high_byte count
      ∷ low_byte count
      ∷ [] in
    let small = crc16-lt body (omega arith) in
    let sum =
      crc_of_bytes (low_byte (crc16 body)) (high_byte (crc16 body)) (omega arith) (omega arith) in
    ground (arith, sum, small)

module _ (uart : Uart) (ctx : RtuContext) (line : Slave uart ctx) (ready : ctx.initialized ≡ true)
    (address_fits : ctx.cfg.slave_id < 256) where
  -- On a line that is up, whose device answers in time and in whatever pieces, a
  -- modbus_rtu_read_registers of 1 to 125 registers, with an initialized context and a slave
  -- address of one byte, returns ESP_OK with exactly the registers of the device, and leaves the
  -- line up.
  pub read_registers_answered :
      (w : uart.World) (ty : RegType) (address count : ℕ) (buffer : Words)
      → line.Up w
      → 0 < count
      → count ≤ 125
      → let out = read_registers uart ctx ty address count buffer w in
        (out.0 ≡ ok) × (out.1 ≡ line.regs w ty address count) × line.Up out.2
  unfolding read_registers
  read_registers_answered w ty address count buffer v some few =
      let slave_id = ctx.cfg.slave_id in
      let ws = line.regs w ty address count in
      let reply = answer_frame slave_id ty ws in
      let size : length reply ≡ 5 + count * 2 =
        omega (arith, length-answer_frame slave_id ty ws, line.length-regs w ty address count) in
      let tx = read_request slave_id ty address count in
      let exchange =
        transceive-IsExchange uart ctx line ready tx reply w v (omega (arith, size))
          (line.answers_read w ty address count v some few) in
      let whole : IsExchange uart ctx line ready reply (transceive uart ctx tx (5 + count * 2) w) =
        subst (λ n. IsExchange uart ctx line ready reply (transceive uart ctx tx n w)) size
          exchange in
      let accepted : read_answer slave_id ty count reply buffer ≡ (ok, ws) =
        subst (λ n. read_answer slave_id ty n reply buffer ≡ (ok, ws))
          (line.length-regs w ty address count)
          (read_answer-answer_frame slave_id ty ws buffer address_fits
            (line.regs-Are16 w ty address count)) in
      let nonzero : (count == 0) ≡ false = ground arith in
      let fits : ltb 260 (5 + count * 2) ≡ false = ground arith in
      let all : ltb (length reply) (5 + count * 2) ≡ false = ground (arith, size) in
      rw (nonzero, fits, whole.done, whole.heard, all, accepted) (refl, refl, whole.up)

  pub write_registers_answered :
      (w : uart.World) (address count : ℕ) (words : Words)
      → line.Up w
      → 0 < count
      → count ≤ 123
      → length words ≡ count
      → let out = write_registers uart ctx address count words w in (out.0 ≡ ok) × line.Up out.1
  unfolding write_registers
  write_registers_answered w address count words v some few counted =
      let slave_id = ctx.cfg.slave_id in
      let reply = acknowledgement slave_id address count in
      let size = length-acknowledgement slave_id address count in
      let tx = write_request slave_id address count words in
      let exchange =
        transceive-IsExchange uart ctx line ready tx reply w v (omega (arith, size))
          (line.answers_write w address count words v some few counted) in
      let nonzero : (count == 0) ≡ false = ground arith in
      let fits : ltb 256 (9 + count * 2) ≡ false = ground arith in
      let whole : IsExchange uart ctx line ready reply (transceive uart ctx tx 8 w) =
        subst (λ n. IsExchange uart ctx line ready reply (transceive uart ctx tx n w)) size
          exchange in
      let all : ltb (length reply) 8 ≡ false = ground (arith, size) in
      rw
        (
          nonzero,
          fits,
          whole.done,
          whole.heard,
          all,
          write_answer-acknowledgement slave_id address count address_fits,
        )
        (refl, whole.up)

  -- The bus of the gateway on this line, with delays that leave the line up.
  abbrev pub line-Answers :
      (delay : uart.World → ℕ → uart.World) (time_us : uart.World → ℕ)
      → ((w : uart.World) (ms : ℕ) → line.Up w → line.Up (delay w ms))
      → Answers (master_bus uart ctx delay time_us)
  line-Answers delay time_us waits = record {
    Alive = line.Up;
    reads = λ w ty address count buffer v some few.
        let out = read_registers_answered w ty address count buffer v some (omega arith) in
        (out.0, out.2);
    writes = λ w address count words v some few sized.
        write_registers_answered w address count words v some (omega arith) sized.count;
    waits = waits;
  }
