-- ===== src/Modbus/Slave.antt =====
-- A line with a device on it that answers in time, and what the receiving loop and the exchange of
-- frames (rtu_transceive of modbus_rtu.c) make of it.
use daikin_d3net.Base.{ℕ, zero, suc, ◌+◌, ◌-◌, ◌%◌, ◌^◌, ◌≤◌, ◌<◌, ◌≡◌, refl, ap, sym, ◌∙◌, arith}
use daikin_d3net.Base.{true, List, [], ◌∷◌, ◌++◌, leb, length}
use daikin_d3net.Base.{length-append}
use daikin_d3net.Base.Int.{ℤ, pos}
use daikin_d3net.Esp.{Err, ok}
use daikin_d3net.Codec.{Words}
use mathlib.Core.List.{append-nil, append_assoc}
use daikin_d3net.Gateway.Bus.{RegType}
use daikin_d3net.Modbus.Uart.{Uart}
use daikin_d3net.Modbus.Frame.{read_request, write_request}
use daikin_d3net.Modbus.FrameLaws.{Are16, answer_frame}
use daikin_d3net.Modbus.WriteLaws.{acknowledgement}
use daikin_d3net.Modbus.Master.{RtuContext, receive, transceive, set_tx, set_rx, counts}

module _ (uart : Uart) (ctx : RtuContext) where
  port : ℤ
  port = ctx.cfg.uart_num

  -- The driver after a frame was handed over, and after it was sent and the line turned round.
  abbrev pub handed : List ℕ → uart.World → ℤ × uart.World
  handed tx w =
      uart.write_bytes (set_tx uart ctx.cfg (uart.flush_input w ctx.cfg.uart_num)) ctx.cfg.uart_num
        tx

  abbrev pub sent : List ℕ → uart.World → Err × uart.World
  sent tx w =
      uart.wait_tx_done (handed tx w).1 ctx.cfg.uart_num (uart.ms_to_ticks ctx.cfg.timeout_ms)

  abbrev pub listening : List ℕ → uart.World → uart.World
  listening tx w = set_rx uart ctx.cfg (sent tx w).1

  -- The tick at which a wait that begins now ends.
  abbrev pub deadline_from : uart.World → ℕ
  deadline_from w = (uart.tick_count w + uart.ms_to_ticks ctx.cfg.timeout_ms) % 2 ^ 32

  -- A device at the address of the context. While the line is up the driver takes and sends what it
  -- is given, and the device answers every request before the wait ends: a read with the frame of
  -- its registers, a write with the acknowledgement. The bytes of an answer arrive in order, as
  -- many at a time as the line gives, at least one to a read of the driver.
  pub record Slave : Type 1 where
    pub Up : uart.World → Type 0
    pub regs : uart.World → RegType → ℕ → ℕ → Words
    -- What is still to arrive, until the given tick.
    pub Arrives : uart.World → ℕ → List ℕ → Type 0
    pub length-regs :
        (w : uart.World) (ty : RegType) (address count : ℕ)
        → length (regs w ty address count) ≡ count
    pub regs-Are16 :
        (w : uart.World) (ty : RegType) (address count : ℕ) → Are16 (regs w ty address count)
    pub takes : (w : uart.World) (tx : List ℕ) → Up w → (handed tx w).0 ≡ pos (length tx)
    pub sends : (w : uart.World) (tx : List ℕ) → Up w → (sent tx w).0 ≡ ok
    pub answers_read :
        (w : uart.World) (ty : RegType) (address count : ℕ)
        → Up w
        → 0 < count
        → count ≤ 125
        → let w' = listening (read_request ctx.cfg.slave_id ty address count) w in
          Arrives w' (deadline_from w') (answer_frame ctx.cfg.slave_id ty (regs w ty address count))
    pub answers_write :
        (w : uart.World) (address count : ℕ) (words : Words)
        → Up w
        → 0 < count
        → count ≤ 123
        → length words ≡ count
        → let w' = listening (write_request ctx.cfg.slave_id address count words) w in
          Arrives w' (deadline_from w') (acknowledgement ctx.cfg.slave_id address count)
    pub arrives :
        (w : uart.World) (deadline most : ℕ) (bytes : List ℕ)
        → Arrives w deadline bytes
        → 0 < most
        → 0 < length bytes
        → let (got, w') = uart.read_bytes w ctx.cfg.uart_num most (deadline - uart.tick_count w) in
          (uart.tick_count w < deadline)
          × (0 < length got)
          × ((rest : List ℕ) × (got ++ rest ≡ bytes) × Arrives w' deadline rest)
    pub settled : (w : uart.World) (deadline : ℕ) → Arrives w deadline [] → Up w

module _ (uart : Uart) (ctx : RtuContext) (line : Slave uart ctx) (expected deadline : ℕ) where
  -- What the loop has collected in the end, and what is left on the line: nothing.
  unfoldable pub IsHeard : List ℕ → List ℕ × uart.World → Type 0
  IsHeard reply out = (out.0 ≡ reply) × line.Arrives out.1 deadline []

  -- One round that brings some bytes.
  abbrev got : List ℕ → uart.World → List ℕ × uart.World
  got rx w =
      uart.read_bytes w ctx.cfg.uart_num (expected - length rx) (deadline - uart.tick_count w)

  receive-round :
      (fuel : ℕ) (rx : List ℕ) (w : uart.World)
      → length rx < expected
      → uart.tick_count w < deadline
      → 0 < length (got rx w).0
      → receive uart (suc fuel) ctx.cfg.uart_num expected deadline rx w
        ≡ receive uart fuel ctx.cfg.uart_num expected deadline (rx ++ (got rx w).0) (got rx w).1
  unfolding receive
  receive-round fuel rx w room early some = ground arith

  receive-end :
      (fuel : ℕ) (rx : List ℕ) (w : uart.World)
      → length rx ≡ expected
      → receive uart fuel ctx.cfg.uart_num expected deadline rx w ≡ (rx, w)
  unfolding receive
  receive-end zero rx w full = refl
  receive-end (suc fuel) rx w full = ground arith

  -- With a round for each byte that is expected, the loop hears the whole answer.
  pub receive-IsHeard :
      (fuel : ℕ) (rx bytes : List ℕ) (w : uart.World)
      → length rx + length bytes ≡ expected
      → length bytes ≤ fuel
      → line.Arrives w deadline bytes
      → IsHeard (rx ++ bytes) (receive uart fuel ctx.cfg.uart_num expected deadline rx w)
  unfolding IsHeard
  receive-IsHeard fuel rx [] w total enough a =
      rw (receive-end fuel rx w (omega (arith, total))) (sym (append-nil rx), a)
  receive-IsHeard zero rx (b ∷ bytes) w total enough a = absurd (omega arith)
  receive-IsHeard (suc fuel) rx (b ∷ bytes) w total enough a =
      let (early, some, (rest, whole, left)) =
        line.arrives w deadline (expected - length rx) (b ∷ bytes) a (omega (arith, total))
          (omega arith) in
      let new = (got rx w).0 in
      let size : length new + length rest ≡ length (b ∷ bytes) =
        sym (length-append new rest) ∙ ap length whole in
      rw
        (
          receive-round fuel rx w (omega (arith, total)) early some,
          sym whole,
          sym (append_assoc rx new rest),
        )
        (receive-IsHeard fuel (rx ++ new) rest (got rx w).1
          (omega (arith, length-append rx new, size, total)) (omega (arith, size, some, enough))
          left)

module _ (uart : Uart) (ctx : RtuContext) (line : Slave uart ctx)
    (ready : ctx.initialized ≡ true) where
  -- The result of an exchange: the whole answer, and a line that is up again.
  pub record IsExchange (reply : List ℕ) (out : Err × List ℕ × uart.World) : Type 0 where
    pub done : out.0 ≡ ok
    pub heard : out.1 ≡ reply
    pub up : line.Up out.2

  pub transceive-IsExchange :
      (tx reply : List ℕ) (w : uart.World)
      → line.Up w
      → 5 ≤ length reply
      → line.Arrives
          (listening uart ctx tx w)
          (deadline_from uart ctx (listening uart ctx tx w))
          reply
      → IsExchange reply (transceive uart ctx tx (length reply) w)
  unfolding transceive IsHeard
  transceive-IsExchange tx reply w v enough a =
      let deadline = deadline_from uart ctx (listening uart ctx tx w) in
      let heard =
        receive-IsHeard uart ctx line (length reply) deadline (length reply + 1) [] reply
          (listening uart ctx tx w) (omega arith) (omega arith) a in
      let taken : counts (handed uart ctx tx w).0 (length tx) ≡ true =
        rw (line.takes w tx v) (ground arith) in
      let long : leb 5 (length reply) ≡ true = ground arith in
      rw (ready, taken, line.sends w tx v, heard.0, long)
        (record { done = refl; heard = refl; up = line.settled _ deadline heard.1 })
