-- ===== src/Codec.antt =====
-- The register codec: bits, unsigned and sign-magnitude fields of an array of 16-bit words
-- (firmware/esp32_d3net/main/d3net_codec.c, the functions up to d3net_sint_set).
-- A setter returns the new array beside the dirty flag. Every caller of the setters passes a
-- flag, so the test for a NULL flag is not modelled.
pub mod View
pub mod Reading
pub mod Field
pub mod Signed
use daikin_d3net.Base.{ℕ, zero, suc, ◌+◌, ◌-◌, ◌/◌, ◌%◌, ◌^◌, bit_and, bit_or}
use daikin_d3net.Base.{Bool, true, false, not, List, ltb, ◌==◌, if◌then◌else◌, get_or, set}
use daikin_d3net.Base.Int.{ℤ, pos, negsuc}

-- `uint16_t words[]`.
abbrev pub Words : Type 0
Words = List ℕ

-- The tests and values of C's `bool`.
infix 50 ◌!=◌
abbrev pub ◌!=◌ : ℕ → ℕ → Bool
a != b = not (a == b)

abbrev pub same : Bool → Bool → Bool
same true b = b
same false b = not b

-- `d3net_valid_bit`
abbrev pub valid_bit : ℕ → ℕ → Bool
valid_bit word_count bit_pos = ltb (bit_pos / 16) word_count

-- `(uint16_t)(1U << (bit_pos % 16U))`
abbrev pub bit_mask : ℕ → ℕ
bit_mask bit_pos = 2 ^ (bit_pos % 16) % 2 ^ 16

-- `(uint16_t)(~mask)`, for a mask of 16 bits.
abbrev pub inverted : ℕ → ℕ
inverted mask = 2 ^ 16 - 1 - mask

-- `d3net_bit_get`
unfoldable pub bit_get : Words → ℕ → ℕ → Bool
bit_get words word_count bit_pos =
    if not (valid_bit word_count bit_pos)
    then false
    else bit_and (get_or words (bit_pos / 16) 0) (bit_mask bit_pos) != 0

-- `d3net_bit_set`: the array and the dirty flag after the call.
unfoldable pub bit_set : Words → ℕ → ℕ → Bool → Bool → Words × Bool
bit_set words word_count bit_pos value dirty =
    if not (valid_bit word_count bit_pos)
    then (words, dirty)
    else (let idx = bit_pos / 16 % 2 ^ 16 in
        let mask = bit_mask bit_pos in
        let word = get_or words idx 0 in
        if same (bit_and word mask != 0) value then (words, dirty) else (
          set words idx (if value then bit_or word mask else bit_and word (inverted mask)),
          true,
        ))

-- The loop of `d3net_uint_get` at index `i`, with the given number of rounds left.
unfoldable pub uint_get_loop : Words → ℕ → ℕ → ℕ → ℕ → ℕ → ℕ
unfolding bit_get
uint_get_loop words word_count start zero i value = value
uint_get_loop words word_count start (suc left) i value =
    uint_get_loop words word_count start left (i + 1) (
      if bit_get words word_count ((start + i) % 2 ^ 16)
      then bit_or value (2 ^ i % 2 ^ 32)
      else value)

-- `d3net_uint_get`
unfoldable pub uint_get : Words → ℕ → ℕ → ℕ → ℕ
unfolding uint_get_loop
uint_get words word_count start len = uint_get_loop words word_count start len 0 0

-- The loop of `d3net_uint_set`.
unfoldable pub uint_set_loop : Words → ℕ → ℕ → ℕ → ℕ → ℕ → Bool → Words × Bool
unfolding bit_set
uint_set_loop words word_count start zero i value dirty = (words, dirty)
uint_set_loop words word_count start (suc left) i value dirty =
    let (words', dirty') =
      bit_set words word_count ((start + i) % 2 ^ 16) (bit_and value (2 ^ i % 2 ^ 32) != 0) dirty in
    uint_set_loop words' word_count start left (i + 1) value dirty'

-- `d3net_uint_set`
unfoldable pub uint_set : Words → ℕ → ℕ → ℕ → ℕ → Bool → Words × Bool
unfolding uint_set_loop
uint_set words word_count start len value dirty =
    uint_set_loop words word_count start len 0 value dirty

-- `(int32_t)value` of a `uint32_t`, and `-value`.
abbrev pub to_int32 : ℕ → ℤ
to_int32 value = if ltb value (2 ^ 31) then pos value else negsuc (2 ^ 32 - value - 1)

abbrev pub neg : ℤ → ℤ
neg (pos zero) = pos zero
neg (pos (suc n)) = negsuc n
neg (negsuc n) = pos (suc n)

abbrev pub is_negative : ℤ → Bool
is_negative (pos n) = false
is_negative (negsuc n) = true

-- `(uint32_t)(sign ? -value : value)`
abbrev pub magnitude : ℤ → ℕ
magnitude (pos n) = n % 2 ^ 32
magnitude (negsuc n) = suc n % 2 ^ 32

-- `d3net_sint_get`
unfoldable pub sint_get : Words → ℕ → ℕ → ℕ → ℤ
unfolding uint_get bit_get
sint_get words word_count start len =
    if ltb len 2
    then pos 0
    else (let value = to_int32 (uint_get words word_count start (len - 1)) in
        if bit_get words word_count ((start + len - 1) % 2 ^ 16) then neg value else value)

-- `d3net_sint_set`
unfoldable pub sint_set : Words → ℕ → ℕ → ℕ → ℤ → Bool → Words × Bool
unfolding uint_set bit_set
sint_set words word_count start len value dirty =
    if ltb len 2
    then (words, dirty)
    else (let (words', dirty') =
          uint_set words word_count start (len - 1) (magnitude value) dirty in
        bit_set words' word_count ((start + len - 1) % 2 ^ 16) (is_negative value) dirty')
