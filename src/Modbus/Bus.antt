-- ===== src/Modbus/Bus.antt =====
-- The master as the bus of the gateway: modbus_rtu_read_registers and modbus_rtu_write_registers
-- are what the function pointers `read_fn` and `write_fn` lead to. The delay and the clock are the
-- system's.
use daikin_d3net.Base.{ℕ, ap, Bool-cases, inl, inr}
use daikin_d3net.Esp.{is_ok, is_ok-eq}
use daikin_d3net.Codec.{Words}
use daikin_d3net.Codec.View.{IsWords}
use daikin_d3net.Gateway.Bus.{Transport, RegType}
use daikin_d3net.Modbus.Uart.{Uart}
use daikin_d3net.Modbus.Master.{RtuContext, read_registers, write_registers}
use daikin_d3net.Modbus.MasterLaws.{read_registers_sound, read_registers_failed}

module _ (uart : Uart) (ctx : RtuContext) where
  -- A modbus_rtu_read_registers, whatever it returns, leaves a buffer of as many 16-bit words as
  -- were asked for an array of that many 16-bit words.
  pub read_registers-IsWords :
      (w : uart.World) (ty : RegType) (address count : ℕ) (buffer : Words)
      → IsWords count buffer
      → IsWords count (read_registers uart ctx ty address count buffer w).1
  read_registers-IsWords w ty address count buffer v =
      elim (Bool-cases (is_ok (read_registers uart ctx ty address count buffer w).0)) [
        | inl e ↦
            let sound = read_registers_sound uart ctx ty address count buffer w (is_ok-eq _ e) in
            record { count = sound.1; small = v.small; fit = sound.2 }
        | inr e ↦
            rw (read_registers_failed uart ctx ty address count buffer w (λ q. cc (e, ap is_ok q)))
              v
      ]

  -- The gateway's bus.
  abbrev pub master_bus : (uart.World → ℕ → uart.World) → (uart.World → ℕ) → Transport
  master_bus delay time_us = record {
    World = uart.World;
    read_fn = λ w ty address count buffer. read_registers uart ctx ty address count buffer w;
    write_fn = λ w address count words. write_registers uart ctx address count words w;
    delay = delay;
    time_us = time_us;
    read-IsWords = read_registers-IsWords;
    read_failed =
        λ w ty address count buffer. read_registers_failed uart ctx ty address count buffer w;
  }
