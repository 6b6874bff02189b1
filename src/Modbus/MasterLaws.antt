-- ===== src/Modbus/MasterLaws.antt =====
-- The receiving loop, and modbus_rtu_read_registers as a whole.
use daikin_d3net.Base.{ℕ, zero, suc, ◌+◌, ◌-◌, ◌*◌, ◌%◌, ◌^◌, ◌≤◌, ◌<◌, ◌≡◌, ◌≢◌, arith}
use daikin_d3net.Base.{Bool, false, not, List, [], ◌∷◌, ◌++◌, ◌==◌, ltb, leb, if◌then◌else◌, length}
use daikin_d3net.Base.{length-append, Bool-cases, inl, inr, if_both}
use daikin_d3net.Base.Int.{ℤ}
use daikin_d3net.Esp.{
  Err, ok, fail, invalid_arg, invalid_size, timeout, is_ok, is_ok-eq, invalid_state,
}
use daikin_d3net.Codec.{Words}
use daikin_d3net.Gateway.Bus.{RegType}
use daikin_d3net.Modbus.Uart.{Uart}
use daikin_d3net.Modbus.CrcLaws.{IsBytes}
use daikin_d3net.Modbus.Frame.{read_request, read_answer}
use daikin_d3net.Modbus.FrameLaws.{Are16, answer_frame}
use daikin_d3net.Modbus.AnswerLaws.{read_answer_sound}
use daikin_d3net.Modbus.Master.{
  RtuContext, receive, transceive, read_registers, set_tx, set_rx, counts,
}

All-append : (xs ys : List ℕ) → IsBytes xs → IsBytes ys → IsBytes (xs ++ ys)
All-append [] ys v w = w
All-append (x ∷ xs) ys v w = (v.0, All-append xs ys v.1 w)

-- Bytes of an answer that do not exceed what is expected.
pub record IsPart (expected : ℕ) (rx : List ℕ) : Type 0 where
  pub short : length rx ≤ expected
  pub bytes : IsBytes rx

module _ (uart : Uart) (port : ℤ) (expected deadline : ℕ) where
  IsPart-append :
      (rx : List ℕ) (w : uart.World) (ticks : ℕ)
      → IsPart expected rx
      → IsPart expected (rx ++ (uart.read_bytes w port (expected - length rx) ticks).0)
  IsPart-append rx w ticks v = record {
    short = omega (
      arith,
      v.short,
      length-append rx (uart.read_bytes w port (expected - length rx) ticks).0,
      uart.length-read_bytes w port (expected - length rx) ticks,
    );
    bytes = All-append rx _ v.bytes (uart.read_bytes-byte w port (expected - length rx) ticks);
  }

  -- The loop never receives more than is expected.
  receive-IsPart :
      (fuel : ℕ) (rx : List ℕ) (w : uart.World)
      → IsPart expected rx
      → IsPart expected (receive uart fuel port expected deadline rx w).0
  unfolding receive
  receive-IsPart zero rx w v = v
  receive-IsPart (suc fuel) rx w v =
      let (bytes, w') =
        uart.read_bytes w port (expected - length rx) (deadline - uart.tick_count w) in
      let next =
        receive-IsPart fuel (rx ++ bytes) w'
          (IsPart-append rx w (deadline - uart.tick_count w) v) in
      let Part : List ℕ × uart.World → Type 0 = λ out. IsPart expected out.0 in
      let stopped = if_both Part (length bytes == 0) {x = (rx, w')} v next in
      let late = if_both Part (leb deadline (uart.tick_count w)) {x = (rx, w)} v stopped in
      if_both Part (not (ltb (length rx) expected)) {x = (rx, w)} v late

  -- The receiving loop, from some bytes on, gives the same with one more round of fuel once the
  -- fuel and the bytes received exceed what is expected: such a fuel is enough for the loop to end
  -- by itself.
  pub receive_fuel :
      (fuel : ℕ) (rx : List ℕ) (w : uart.World)
      → expected < fuel + length rx
      → receive uart (suc fuel) port expected deadline rx w
        ≡ receive uart fuel port expected deadline rx w
  unfolding receive
  receive_fuel zero rx w h = ground arith
  receive_fuel (suc fuel) rx w h =
      let (bytes, w') =
        uart.read_bytes w port (expected - length rx) (deadline - uart.tick_count w) in
      elim (Bool-cases (length bytes == 0)) [
        | inl e ↦ rw e
        | inr e ↦
            rw (receive_fuel fuel (rx ++ bytes) w' (ground (arith, length-append rx bytes, e)))
      ]

pub not_less : (n m : ℕ) → n ≤ m → ltb n m ≡ false → n ≡ m
not_less n m h e = ground arith

-- What a read that returns ESP_OK has gone through.
passed :
    {World : Type 0} (none large short : Bool) (err : Err) (out : Words) (w w' : World)
    (answer : Err × Words)
    → let r : Err × Words × World =
        (if none
          then (invalid_arg, out, w)
          else if large
          then (invalid_size, out, w)
          else if not (is_ok err)
          then (err, out, w')
          else if short
          then (timeout, out, w')
          else (answer.0, answer.1, w')) in
      r.0 ≡ ok → (short ≡ false) × (answer.0 ≡ ok) × (r.1 ≡ answer.1)
passed none large short err out w w' answer e = ground (arith, is_ok-eq err)

module _ (uart : Uart) (ctx : RtuContext) where
  -- What the driver hands over is no longer than the buffer, and bytes.
  pub transceive-IsPart :
      (tx : List ℕ) (expected : ℕ) (w : uart.World)
      → IsPart expected (transceive uart ctx tx expected w).1
  unfolding transceive
  transceive-IsPart tx expected w =
      let none : IsPart expected [] = record { short = omega arith; bytes = tt } in
      let cfg = ctx.cfg in
      let (written, w1) =
        uart.write_bytes (set_tx uart cfg (uart.flush_input w cfg.uart_num)) cfg.uart_num tx in
      let (err, w2) = uart.wait_tx_done w1 cfg.uart_num (uart.ms_to_ticks cfg.timeout_ms) in
      let w3 = set_rx uart cfg w2 in
      let deadline = (uart.tick_count w3 + uart.ms_to_ticks cfg.timeout_ms) % 2 ^ 32 in
      let Part : Err × List ℕ × uart.World → Type 0 = λ out. IsPart expected out.1 in
      let heard = receive-IsPart uart cfg.uart_num expected deadline (expected + 1) [] w3 none in
      let sent = if_both Part (not (is_ok err)) {x = (err, [], w3)} none heard in
      let taken =
        if_both Part (not (counts written (length tx))) {x = (fail, [], set_rx uart cfg w1)} none
          sent in
      if_both Part (not ctx.initialized) {x = (invalid_state, [], w)} none taken

  module _ (ty : RegType) (address count : ℕ) (out : Words) (w : uart.World) where
    abbrev pub received : List ℕ
    received =
        (transceive uart ctx (read_request ctx.cfg.slave_id ty address count) (5 + count * 2) w).1

    -- A modbus_rtu_read_registers that returns ESP_OK has received exactly the frame that carries
    -- the words it returns, checksum included, and these are as many 16-bit words as were asked
    -- for.
    pub read_registers_sound :
        (read_registers uart ctx ty address count out w).0 ≡ ok
        → let words = (read_registers uart ctx ty address count out w).1 in
          (received ≡ answer_frame ctx.cfg.slave_id ty words) × (length words ≡ count) × Are16 words
    unfolding read_registers
    read_registers_sound e =
        let part =
          transceive-IsPart (read_request ctx.cfg.slave_id ty address count) (5 + count * 2) w in
        let answer = read_answer ctx.cfg.slave_id ty count received out in
        let (all, accepted, same) =
          passed (count == 0) (ltb 260 (5 + count * 2)) (ltb (length received) (5 + count * 2))
            (transceive uart ctx (read_request ctx.cfg.slave_id ty address count) (5 + count * 2)
              w).0
            out w
            (transceive uart ctx (read_request ctx.cfg.slave_id ty address count) (5 + count * 2)
              w).2
            answer e in
        rw same (
          read_answer_sound ctx.cfg.slave_id ty count received out part.bytes
            (not_less (length received) (5 + count * 2) part.short all) accepted)

    -- A modbus_rtu_read_registers that does not return ESP_OK leaves the buffer of the caller as
    -- it was.
    pub read_registers_failed :
        (read_registers uart ctx ty address count out w).0 ≢ ok
        → (read_registers uart ctx ty address count out w).1 ≡ out
    unfolding read_registers read_answer
    read_registers_failed e = ground arith
