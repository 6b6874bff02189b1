-- ===== src/Registers/Holding.antt =====
-- The holding block of a unit, through which it is controlled (`d3net_unit_holding_t`).
use daikin_d3net.Base.{ℕ, ◌+◌, ◌-◌, ◌*◌, ◌%◌, ◌^◌, Bool, true, false, ◌==◌, ltb, if◌then◌else◌}
use daikin_d3net.Base.Int.{ℤ}
use daikin_d3net.Codec.{Words, ◌!=◌, bit_get, bit_set, uint_get, uint_set, sint_get, sint_set}
use daikin_d3net.Registers.Temperature.{Float, degrees, to_tenths}
use daikin_d3net.Registers.Status

abbrev pub address : ℕ
address = 2000

abbrev pub count : ℕ
count = 3

-- `d3net_unit_holding_t`; the times are `uint64_t` milliseconds.
pub record Holding : Type 0 where
  pub words : Words
  pub dirty : Bool
  pub last_read_ms : ℕ
  pub last_write_ms : ℕ

-- The block with the result of a setter of the codec.
abbrev pub store : Holding → Words × Bool → Holding
store h out = record h { words = out.0; dirty = out.1 }

-- `d3net_holding_power_get`
unfoldable pub power_get : Holding → Bool
unfolding bit_get
power_get h = bit_get h.words count 0

-- `d3net_holding_power_set`
unfoldable pub power_set : Holding → Bool → Holding
unfolding bit_set
power_set h value = store h (bit_set h.words count 0 value h.dirty)

-- `d3net_holding_oper_mode_get`
unfoldable pub oper_mode_get : Holding → ℕ
unfolding uint_get
oper_mode_get h = uint_get h.words count 16 4

-- `d3net_holding_oper_mode_set`
unfoldable pub oper_mode_set : Holding → ℕ → Holding
unfolding uint_set
oper_mode_set h mode = store h (uint_set h.words count 16 4 mode h.dirty)

-- `x10` of the two functions on the setpoint.
unfoldable pub setpoint_x10 : Holding → ℤ
unfolding sint_get
setpoint_x10 h = sint_get h.words count 32 16

module _ (float : Float) where
  open float use {F}

  -- `d3net_holding_temp_setpoint_get`
  unfoldable pub temp_setpoint_get : Holding → F
  unfolding setpoint_x10
  temp_setpoint_get h = degrees float (setpoint_x10 h)

  -- `d3net_holding_temp_setpoint_set`
  unfoldable pub temp_setpoint_set : Holding → F → Holding
  unfolding sint_set
  temp_setpoint_set h value_c =
      store h (sint_set h.words count 32 16 (to_tenths float value_c) h.dirty)

-- `d3net_holding_fan_control_get`
unfoldable pub fan_control_get : Holding → Bool
unfolding uint_get
fan_control_get h = uint_get h.words count 4 4 == 6

-- `d3net_holding_fan_control_set`
unfoldable pub fan_control_set : Holding → Bool → Holding
unfolding uint_set
fan_control_set h enabled = store h (uint_set h.words count 4 4 (if enabled then 6 else 0) h.dirty)

-- `d3net_holding_fan_speed_get`
unfoldable pub fan_speed_get : Holding → ℕ
unfolding uint_get
fan_speed_get h = uint_get h.words count 12 3

-- `d3net_holding_fan_speed_set`
unfoldable pub fan_speed_set : Holding → ℕ → Holding
unfolding uint_set fan_control_set
fan_speed_set h speed = fan_control_set (store h (uint_set h.words count 12 3 speed h.dirty)) true

-- `d3net_holding_fan_dir_get`
unfoldable pub fan_dir_get : Holding → ℕ
unfolding uint_get
fan_dir_get h = uint_get h.words count 8 3

-- `d3net_holding_fan_dir_set`
unfoldable pub fan_dir_set : Holding → ℕ → Holding
unfolding uint_set fan_control_set
fan_dir_set h dir = fan_control_set (store h (uint_set h.words count 8 3 dir h.dirty)) true

-- `d3net_holding_filter_reset_get`
unfoldable pub filter_reset_get : Holding → Bool
unfolding uint_get
filter_reset_get h = uint_get h.words count 20 4 != 0

-- `d3net_holding_filter_reset_set`
unfoldable pub filter_reset_set : Holding → Bool → Holding
unfolding uint_set
filter_reset_set h value = store h (uint_set h.words count 20 4 (if value then 15 else 0) h.dirty)

-- `d3net_holding_mark_read`
unfoldable pub mark_read : Holding → ℕ → Holding
mark_read h now_ms = record h { last_read_ms = now_ms }

-- `d3net_holding_mark_written`
unfoldable pub mark_written : Holding → ℕ → Holding
mark_written h now_ms = record h { last_write_ms = now_ms; dirty = false }

-- `uint64_t` subtraction.
abbrev pub elapsed : ℕ → ℕ → ℕ
elapsed now_ms since_ms = (now_ms + 2 ^ 64 - since_ms) % 2 ^ 64

-- `d3net_holding_read_within`
unfoldable pub read_within : Holding → ℕ → ℕ → Bool
read_within h now_ms sec =
    if h.last_read_ms == 0 then false else ltb (elapsed now_ms h.last_read_ms) (sec * 1000 % 2 ^ 64)

-- `d3net_holding_write_within`
unfoldable pub write_within : Holding → ℕ → ℕ → Bool
write_within h now_ms sec =
    if h.last_write_ms == 0
    then false
    else ltb (elapsed now_ms h.last_write_ms) (sec * 1000 % 2 ^ 64)

-- `d3net_holding_sync_from_status`
unfoldable pub sync_from_status : Float → Holding → Words → Holding
unfolding power_set fan_dir_set fan_speed_set oper_mode_set temp_setpoint_set
sync_from_status float h s =
    let h1 = power_set h (Status.power_get s) in
    let h2 = fan_dir_set h1 (Status.fan_dir_get s) in
    let h3 = fan_speed_set h2 (Status.fan_speed_get s) in
    let h4 = oper_mode_set h3 (Status.oper_mode_get s) in
    temp_setpoint_set float h4 (Status.temp_setpoint_get float s)
