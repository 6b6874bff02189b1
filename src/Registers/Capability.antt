-- ===== src/Registers/Capability.antt =====
-- The capability block of a unit (`d3net_unit_cap_t`, three words).
use daikin_d3net.Base.{ℕ, ◌%◌, ◌^◌, Bool}
use daikin_d3net.Base.Int.{ℤ}
use daikin_d3net.Codec.{Words, bit_get, uint_get, sint_get}
use daikin_d3net.Registers.Temperature.{cast}

abbrev pub address : ℕ
address = 1000

abbrev pub count : ℕ
count = 3

-- `d3net_cap_mode_fan`
unfoldable pub mode_fan : Words → Bool
unfolding bit_get
mode_fan c = bit_get c count 0

-- `d3net_cap_mode_cool`
unfoldable pub mode_cool : Words → Bool
unfolding bit_get
mode_cool c = bit_get c count 1

-- `d3net_cap_mode_heat`
unfoldable pub mode_heat : Words → Bool
unfolding bit_get
mode_heat c = bit_get c count 2

-- `d3net_cap_mode_auto`
unfoldable pub mode_auto : Words → Bool
unfolding bit_get
mode_auto c = bit_get c count 3

-- `d3net_cap_mode_dry`
unfoldable pub mode_dry : Words → Bool
unfolding bit_get
mode_dry c = bit_get c count 4

-- `d3net_cap_fan_speed`
unfoldable pub fan_speed : Words → Bool
unfolding bit_get
fan_speed c = bit_get c count 15

-- `d3net_cap_fan_dir`
unfoldable pub fan_dir : Words → Bool
unfolding bit_get
fan_dir c = bit_get c count 11

-- `d3net_cap_fan_speed_steps`
unfoldable pub fan_speed_steps : Words → ℕ
unfolding uint_get
fan_speed_steps c = uint_get c count 12 3 % 2 ^ 8

-- `d3net_cap_fan_dir_steps`
unfoldable pub fan_dir_steps : Words → ℕ
unfolding uint_get
fan_dir_steps c = uint_get c count 8 3 % 2 ^ 8

-- `d3net_cap_cool_setpoint_upper`
unfoldable pub cool_setpoint_upper : Words → ℤ
unfolding sint_get
cool_setpoint_upper c = cast 8 (sint_get c count 16 8)

-- `d3net_cap_cool_setpoint_lower`
unfoldable pub cool_setpoint_lower : Words → ℤ
unfolding sint_get
cool_setpoint_lower c = cast 8 (sint_get c count 24 8)

-- `d3net_cap_heat_setpoint_upper`
unfoldable pub heat_setpoint_upper : Words → ℤ
unfolding sint_get
heat_setpoint_upper c = cast 8 (sint_get c count 32 8)

-- `d3net_cap_heat_setpoint_lower`
unfoldable pub heat_setpoint_lower : Words → ℤ
unfolding sint_get
heat_setpoint_lower c = cast 8 (sint_get c count 40 8)
