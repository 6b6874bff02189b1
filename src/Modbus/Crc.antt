-- ===== src/Modbus/Crc.antt =====
-- modbus_crc16.
use daikin_d3net.Base.{ℕ, zero, suc, ◌/◌, ◌%◌, ◌^◌, bit_and, bit_xor, List, [], ◌∷◌, if◌then◌else◌}
use daikin_d3net.Codec.{◌!=◌}

-- One round of the inner loop.
unfoldable pub crc_shift : ℕ → ℕ
crc_shift crc = if bit_and crc 1 != 0 then bit_xor (crc / 2) 0xA001 % 2 ^ 16 else crc / 2

-- The inner loop, with the given number of rounds left.
unfoldable pub crc_rounds : ℕ → ℕ → ℕ
unfolding crc_shift
crc_rounds zero crc = crc
crc_rounds (suc left) crc = crc_rounds left (crc_shift crc)

-- The outer loop, from the value that the bytes before have left.
unfoldable pub crc_from : ℕ → List ℕ → ℕ
unfolding crc_rounds
crc_from crc [] = crc
crc_from crc (byte ∷ bytes) = crc_from (crc_rounds 8 (bit_xor crc byte)) bytes

-- `modbus_crc16`
unfoldable pub crc16 : List ℕ → ℕ
unfolding crc_from
crc16 bytes = crc_from 0xFFFF bytes
