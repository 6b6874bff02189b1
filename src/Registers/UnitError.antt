-- ===== src/Registers/UnitError.antt =====
-- The error block of a unit (`d3net_unit_error_t`, two words).
use daikin_d3net.Base.{ℕ, ◌%◌, ◌^◌, Bool}
use daikin_d3net.Codec.{Words, bit_get, uint_get}

abbrev pub address : ℕ
address = 3600

abbrev pub count : ℕ
count = 2

-- `d3net_error_code_char0`: the code of the character.
unfoldable pub code_char0 : Words → ℕ
unfolding uint_get
code_char0 e = uint_get e count 0 8 % 2 ^ 8

-- `d3net_error_code_char1`
unfoldable pub code_char1 : Words → ℕ
unfolding uint_get
code_char1 e = uint_get e count 8 8 % 2 ^ 8

-- `d3net_error_subcode`
unfoldable pub subcode : Words → ℕ
unfolding uint_get
subcode e = uint_get e count 16 6 % 2 ^ 8

-- `d3net_error_error`
unfoldable pub error : Words → Bool
unfolding bit_get
error e = bit_get e count 24

-- `d3net_error_alarm`
unfoldable pub alarm : Words → Bool
unfolding bit_get
alarm e = bit_get e count 25

-- `d3net_error_warning`
unfoldable pub warning : Words → Bool
unfolding bit_get
warning e = bit_get e count 26

-- `d3net_error_unit_number`
unfoldable pub unit_number : Words → ℕ
unfolding uint_get
unit_number e = uint_get e count 28 4 % 2 ^ 8
