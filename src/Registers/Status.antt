-- ===== src/Registers/Status.antt =====
-- The status block of a unit (`d3net_unit_status_t`, six words). The setters change the program's
-- own copy; their dirty flag is a local variable that is thrown away.
use daikin_d3net.Base.{ℕ, Bool, false}
use daikin_d3net.Base.Int.{ℤ}
use daikin_d3net.Codec.{Words, ◌!=◌, bit_get, bit_set, uint_get, uint_set, sint_get, sint_set}
use daikin_d3net.Registers.Temperature.{Float, degrees, to_tenths}

abbrev pub address : ℕ
address = 2000

abbrev pub count : ℕ
count = 6

-- `d3net_status_power_get`
unfoldable pub power_get : Words → Bool
unfolding bit_get
power_get s = bit_get s count 0

-- `d3net_status_power_set`
unfoldable pub power_set : Words → Bool → Words
unfolding bit_set
power_set s value = (bit_set s count 0 value false).0

-- `d3net_status_oper_mode_get`
unfoldable pub oper_mode_get : Words → ℕ
unfolding uint_get
oper_mode_get s = uint_get s count 16 4

-- `d3net_status_oper_mode_set`
unfoldable pub oper_mode_set : Words → ℕ → Words
unfolding uint_set
oper_mode_set s mode = (uint_set s count 16 4 mode false).0

-- `d3net_status_oper_current_get`
unfoldable pub oper_current_get : Words → ℕ
unfolding uint_get
oper_current_get s = uint_get s count 24 4

-- `d3net_status_fan_speed_get`
unfoldable pub fan_speed_get : Words → ℕ
unfolding uint_get
fan_speed_get s = uint_get s count 12 3

-- `d3net_status_fan_speed_set`
unfoldable pub fan_speed_set : Words → ℕ → Words
unfolding uint_set
fan_speed_set s speed = (uint_set s count 12 3 speed false).0

-- `d3net_status_fan_dir_get`
unfoldable pub fan_dir_get : Words → ℕ
unfolding uint_get
fan_dir_get s = uint_get s count 8 3

-- `d3net_status_fan_dir_set`
unfoldable pub fan_dir_set : Words → ℕ → Words
unfolding uint_set
fan_dir_set s dir = (uint_set s count 8 3 dir false).0

-- `d3net_status_filter_warning_get`
unfoldable pub filter_warning_get : Words → Bool
unfolding uint_get
filter_warning_get s = uint_get s count 20 4 != 0

-- `x10` of the two functions on the setpoint: tenths of a degree.
unfoldable pub setpoint_x10 : Words → ℤ
unfolding sint_get
setpoint_x10 s = sint_get s count 32 16

module _ (float : Float) where
  open float use {F}

  -- `d3net_status_temp_setpoint_get`
  unfoldable pub temp_setpoint_get : Words → F
  unfolding setpoint_x10
  temp_setpoint_get s = degrees float (setpoint_x10 s)

  -- `d3net_status_temp_setpoint_set`
  unfoldable pub temp_setpoint_set : Words → F → Words
  unfolding sint_set
  temp_setpoint_set s value_c = (sint_set s count 32 16 (to_tenths float value_c) false).0

  -- `d3net_status_temp_current_get`
  unfoldable pub temp_current_get : Words → F
  unfolding sint_get
  temp_current_get s = degrees float (sint_get s count 64 16)
