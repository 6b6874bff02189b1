-- ===== src/Modbus/WriteLaws.antt =====
-- What is accepted as an answer to a write.
use daikin_d3net.Base.{ℕ, ◌+◌, ◌*◌, ◌<◌, ◌≡◌, ◌∙◌, arith}
use daikin_d3net.Base.{Bool, false, not, List, [], ◌∷◌, ◌==◌, ltb, if◌then◌else◌, length}
use daikin_d3net.Esp.{Err, ok, invalid_arg, invalid_size, timeout, is_ok, is_ok-eq}
use daikin_d3net.Codec.{Words, ◌!=◌}
use daikin_d3net.Modbus.Uart.{Uart}
use daikin_d3net.Modbus.Crc.{crc16}
use daikin_d3net.Modbus.CrcLaws.{IsBytes}
use daikin_d3net.Modbus.Frame.{with_crc, high_byte, low_byte, write_request, write_answer}
use daikin_d3net.Modbus.FrameLaws.{crc_of_bytes}
use daikin_d3net.Modbus.Master.{RtuContext, transceive, write_registers}
use daikin_d3net.Modbus.MasterLaws.{not_less, transceive-IsPart}

-- The acknowledgement of a device: the head of the request.
unfoldable pub acknowledgement : ℕ → ℕ → ℕ → List ℕ
acknowledgement slave_id address count =
    with_crc (
      slave_id
      ∷ 0x10
      ∷ high_byte address
      ∷ low_byte address
      ∷ high_byte count
      ∷ low_byte count
      ∷ [])

same_when_not : (a b : ℕ) → (a != b) ≡ false → a ≡ b
same_when_not a b e = ground arith

eight_bytes :
    (slave_id address count a b c d e f x y : ℕ)
    → x < 256
    → y < 256
    → write_answer slave_id address count (a ∷ b ∷ c ∷ d ∷ e ∷ f ∷ x ∷ y ∷ []) ≡ ok
    → (a ∷ b ∷ c ∷ d ∷ e ∷ f ∷ x ∷ y ∷ []) ≡ acknowledgement slave_id address count
unfolding write_answer acknowledgement with_crc
eight_bytes slave_id address count a b c d e f x y hx hy r =
    let crc = crc16 (a ∷ b ∷ c ∷ d ∷ e ∷ f ∷ []) in
    let sum = crc_of_bytes x y hx hy in
    let heads : (a ≡ slave_id)
        × (b ≡ 0x10)
        × (c ≡ high_byte address)
        × (d ≡ low_byte address)
        × (e ≡ high_byte count)
        × (f ≡ low_byte count)
        × (x + y * 256 ≡ crc) =
      ground (arith, r, sum) in
    let low : x ≡ low_byte crc = omega (arith, heads.6) in
    let high : y ≡ high_byte crc = omega (arith, heads.6) in
    (λ i. a ∷ b ∷ c ∷ d ∷ e ∷ f ∷ low i ∷ high i ∷ [])
    ∙ (λ i. with_crc (heads.0 i ∷ heads.1 i ∷ heads.2 i ∷ heads.3 i ∷ heads.4 i ∷ heads.5 i ∷ []))

write_answer_sound :
    (slave_id address count : ℕ) (resp : List ℕ)
    → IsBytes resp
    → length resp ≡ 8
    → write_answer slave_id address count resp ≡ ok
    → resp ≡ acknowledgement slave_id address count
write_answer_sound slave_id address count (a ∷ b ∷ c ∷ d ∷ e ∷ f ∷ x ∷ y ∷ []) v h r =
    eight_bytes slave_id address count a b c d e f x y (omega arith) (omega arith) r
write_answer_sound slave_id address count [] v h r = absurd (omega arith)
write_answer_sound slave_id address count (a ∷ []) v h r = absurd (omega arith)
write_answer_sound slave_id address count (a ∷ b ∷ []) v h r = absurd (omega arith)
write_answer_sound slave_id address count (a ∷ b ∷ c ∷ []) v h r = absurd (omega arith)
write_answer_sound slave_id address count (a ∷ b ∷ c ∷ d ∷ []) v h r = absurd (omega arith)
write_answer_sound slave_id address count (a ∷ b ∷ c ∷ d ∷ e ∷ []) v h r = absurd (omega arith)
write_answer_sound slave_id address count (a ∷ b ∷ c ∷ d ∷ e ∷ f ∷ []) v h r = absurd (omega arith)
write_answer_sound slave_id address count (a ∷ b ∷ c ∷ d ∷ e ∷ f ∷ x ∷ []) v h r =
    absurd (omega arith)
write_answer_sound slave_id address count (a ∷ b ∷ c ∷ d ∷ e ∷ f ∷ x ∷ y ∷ z ∷ zs) v h r =
    absurd (omega arith)

-- What a write that returns ESP_OK has gone through.
passed :
    {World : Type 0} (none large short : Bool) (err answer : Err) (w w' : World)
    → let r : Err × World =
        (if none
          then (invalid_arg, w)
          else if large
          then (invalid_size, w)
          else if not (is_ok err)
          then (err, w')
          else if short
          then (timeout, w')
          else (answer, w')) in
      r.0 ≡ ok → (short ≡ false) × (answer ≡ ok)
passed none large short err answer w w' e = ground (arith, is_ok-eq err)

module _ (uart : Uart) (ctx : RtuContext) (address count : ℕ) (words : Words) (w : uart.World) where
  -- A modbus_rtu_write_registers that returns ESP_OK has received exactly the acknowledgement of
  -- its own request: the slave, the address and the count that were sent, and their checksum.
  pub write_registers_sound :
      (write_registers uart ctx address count words w).0 ≡ ok
      → (transceive uart ctx (write_request ctx.cfg.slave_id address count words) 8 w).1
        ≡ acknowledgement ctx.cfg.slave_id address count
  unfolding write_registers
  write_registers_sound e =
      let tx = write_request ctx.cfg.slave_id address count words in
      let (err, resp, w') = transceive uart ctx tx 8 w in
      let part = transceive-IsPart uart ctx tx 8 w in
      let (all, accepted) =
        passed (count == 0) (ltb 256 (9 + count * 2)) (ltb (length resp) 8) err
          (write_answer ctx.cfg.slave_id address count resp) w w' e in
      write_answer_sound ctx.cfg.slave_id address count resp part.bytes
        (not_less (length resp) 8 part.short all) accepted
