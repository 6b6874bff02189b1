-- ===== src/Modbus/Frame.antt =====
-- The frames of modbus_rtu_read_registers and modbus_rtu_write_registers: the bytes of a request,
-- and what is checked of the bytes of an answer.
use daikin_d3net.Base.{ℕ, zero, suc, ◌+◌, ◌-◌, ◌*◌, ◌/◌, ◌%◌, ◌^◌, bit_or, ◌||◌}
use daikin_d3net.Base.{List, [], ◌∷◌, ◌++◌, if◌then◌else◌, get_or, length, take}
use daikin_d3net.Esp.{Err, ok, fail, invalid_crc}
use daikin_d3net.Codec.{Words, ◌!=◌}
use daikin_d3net.Gateway.Bus.{RegType, input, holding}
use daikin_d3net.Modbus.Crc.{crc16}

-- `(uint8_t)(x >> 8U)` of a word, and `(uint8_t)(x & 0xFFU)`.
abbrev pub high_byte : ℕ → ℕ
high_byte x = x / 2 ^ 8 % 2 ^ 8

abbrev pub low_byte : ℕ → ℕ
low_byte x = x % 2 ^ 8

-- A frame with its checksum behind it, the low byte first.
unfoldable pub with_crc : List ℕ → List ℕ
with_crc body = body ++ low_byte (crc16 body) ∷ high_byte (crc16 body) ∷ []

-- `req[1]` of a read.
abbrev pub read_function : RegType → ℕ
read_function holding = 0x03
read_function input = 0x04

-- The eight bytes of a read request.
unfoldable pub read_request : ℕ → RegType → ℕ → ℕ → List ℕ
unfolding with_crc
read_request slave_id reg_type address count = with_crc (
    slave_id
    ∷ read_function reg_type
    ∷ high_byte address
    ∷ low_byte address
    ∷ high_byte count
    ∷ low_byte count
    ∷ [])

-- The loop that copies the words of a write request.
unfoldable pub word_bytes : Words → List ℕ
word_bytes [] = []
word_bytes (w ∷ ws) = high_byte w ∷ low_byte w ∷ word_bytes ws

-- The bytes of a write request, for `count` words.
unfoldable pub write_request : ℕ → ℕ → ℕ → Words → List ℕ
unfolding with_crc word_bytes
write_request slave_id address count words = with_crc (
    slave_id
    ∷ 0x10
    ∷ high_byte address
    ∷ low_byte address
    ∷ high_byte count
    ∷ low_byte count
    ∷ low_byte (count * 2)
    ∷ word_bytes (take count words))

-- `(uint16_t)resp[k] | ((uint16_t)resp[k + 1] << 8U)`
abbrev pub received_crc : List ℕ → ℕ → ℕ
received_crc resp k = bit_or (get_or resp k 0) (get_or resp (k + 1) 0 * 2 ^ 8 % 2 ^ 16)

-- The loop that decodes the words of an answer at index `i`, with `left` rounds left.
unfoldable pub decode_words : List ℕ → ℕ → ℕ → Words
decode_words resp zero i = []
decode_words resp (suc left) i =
    bit_or (get_or resp (3 + i * 2) 0 * 2 ^ 8 % 2 ^ 16) (get_or resp (4 + i * 2) 0)
    ∷ decode_words resp left (i + 1)

-- The checks on an answer to a read that has all `5 + count * 2` bytes, and the words in it.
unfoldable pub read_answer : ℕ → RegType → ℕ → List ℕ → Words → Err × Words
unfolding decode_words
read_answer slave_id reg_type count resp out_words =
    let got = length resp in
    if get_or resp 0 0 != slave_id
      || (get_or resp 1 0 != read_function reg_type || get_or resp 2 0 != low_byte (count * 2))
    then (fail, out_words)
    else if received_crc resp (got - 2) != crc16 (take (got - 2) resp)
    then (invalid_crc, out_words)
    else (ok, decode_words resp count 0)

-- The checks on the eight bytes of an answer to a write.
unfoldable pub write_answer : ℕ → ℕ → ℕ → List ℕ → Err
write_answer slave_id address count resp =
    if get_or resp 0 0 != slave_id
      || (get_or resp 1 0 != 0x10
          || (get_or resp 2 0 != high_byte address
              || (get_or resp 3 0 != low_byte address
                  || (get_or resp 4 0 != high_byte count || get_or resp 5 0 != low_byte count))))
    then fail
    else if received_crc resp 6 != crc16 (take 6 resp)
    then invalid_crc
    else ok
