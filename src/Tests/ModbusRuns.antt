-- ===== src/Tests/ModbusRuns.antt =====
-- The Modbus theorems on a line whose device has one answer ready.
use daikin_d3net.Base.{◌≡◌, ◌≢◌, refl, arith}
use daikin_d3net.Base.{[], ◌∷◌, length}
use daikin_d3net.Base.Int.{pos}
use daikin_d3net.Esp.{ok, fail, invalid_state}
use daikin_d3net.Modbus.Setup.{init_rtu, init_rtu_failed}
use daikin_d3net.Gateway.Bus.{holding}
use daikin_d3net.Modbus.Uart.{Uart}
use daikin_d3net.Modbus.Bus.{read_registers-IsWords}
use daikin_d3net.Codec.View.{IsWords}
use daikin_d3net.Modbus.Crc.{crc16}
use daikin_d3net.Modbus.CrcLaws.{crc16_detects}
use daikin_d3net.Modbus.Frame.{read_answer, write_request}
use daikin_d3net.Modbus.WriteLaws.{acknowledgement, write_registers_sound}
use daikin_d3net.Modbus.Master.{transceive, write_registers}
use daikin_d3net.Modbus.FrameLaws.{Are16, answer_frame, read_answer-answer_frame}
use daikin_d3net.Modbus.Master.{receive, read_registers}
use daikin_d3net.Modbus.MasterLaws.{
  received, receive_fuel, read_registers_sound, read_registers_failed,
}
use daikin_d3net.Tests.Line.{Line, uart, context, line}

-- The register has the value 5.
read_registers_runs : (read_registers uart context holding 2006 1 (0 ∷ []) line).0 ≡ ok
unfolding read_registers crc16
read_registers_runs = refl

read_registers_sound_example :
    let words = (read_registers uart context holding 2006 1 (0 ∷ []) line).1 in
    (received uart context holding 2006 1 (0 ∷ []) line ≡ answer_frame 1 holding words)
    × (length words ≡ 1)
    × Are16 words
read_registers_sound_example =
    read_registers_sound uart context holding 2006 1 (0 ∷ []) line read_registers_runs

-- 200 registers do not fit the response buffer.
read_registers_refuses : (read_registers uart context holding 2006 200 (7 ∷ []) line).0 ≢ ok
unfolding read_registers
read_registers_refuses e = cc e

read_registers_failed_example :
    (read_registers uart context holding 2006 200 (7 ∷ []) line).1 ≡ 7 ∷ []
read_registers_failed_example =
    read_registers_failed uart context holding 2006 200 (7 ∷ []) line read_registers_refuses

receive_fuel_example : receive uart 9 (pos 1) 7 200 [] line ≡ receive uart 8 (pos 1) 7 200 [] line
receive_fuel_example = receive_fuel uart (pos 1) 7 200 8 [] line (omega arith)

crc16_detects_example : crc16 (1 ∷ 3 ∷ 2 ∷ 0 ∷ 5 ∷ []) ≢ crc16 (1 ∷ 3 ∷ 3 ∷ 0 ∷ 5 ∷ [])
crc16_detects_example =
    crc16_detects (1 ∷ 3 ∷ []) (0 ∷ 5 ∷ []) 2 3 (omega arith) (omega arith) (omega arith)
      (omega arith) (omega arith)

read_answer-answer_frame_example :
    read_answer 1 holding 2 (answer_frame 1 holding (5 ∷ 65535 ∷ [])) [] ≡ (ok, 5 ∷ 65535 ∷ [])
read_answer-answer_frame_example =
    read_answer-answer_frame 1 holding (5 ∷ 65535 ∷ []) [] (omega arith) (omega arith)

-- A line whose device acknowledges a write of three registers at 2006.
abbrev acknowledging : Line
acknowledging = record line { reply = 1 ∷ 16 ∷ 7 ∷ 214 ∷ 0 ∷ 3 ∷ 96 ∷ 132 ∷ [] }

write_registers_runs :
    (write_registers uart context 2006 3 (97 ∷ 2 ∷ 210 ∷ []) acknowledging).0 ≡ ok
unfolding write_registers crc16
write_registers_runs = refl

write_registers_sound_example :
    (transceive uart context (write_request 1 2006 3 (97 ∷ 2 ∷ 210 ∷ [])) 8 acknowledging).1
    ≡ acknowledgement 1 2006 3
write_registers_sound_example =
    write_registers_sound uart context 2006 3 (97 ∷ 2 ∷ 210 ∷ []) acknowledging write_registers_runs

read_registers-IsWords_example :
    IsWords 1 (read_registers uart context holding 2006 1 (0 ∷ []) line).1
read_registers-IsWords_example =
    read_registers-IsWords uart context line holding 2006 1 (0 ∷ []) (omega arith)

-- A driver that is not to be had.
abbrev missing : Uart
missing = record uart { driver_install = λ w num size. (fail, w) }

init_rtu_fails : (init_rtu missing context.cfg line).0 ≢ ok
unfolding init_rtu
init_rtu_fails e = cc e

init_rtu_failed_example :
    transceive missing (init_rtu missing context.cfg line).1 (1 ∷ 2 ∷ []) 8 line
    ≡ (invalid_state, [], line)
init_rtu_failed_example =
    init_rtu_failed missing context.cfg line (1 ∷ 2 ∷ []) 8 line init_rtu_fails
