-- ===== src/Registers/StatusLaws.antt =====
-- What the setters of the status block write is read back by its getters.
use daikin_d3net.Base.{ℕ, ◌%◌, ◌^◌, ◌<◌, ◌≡◌, sym, ◌∙◌, arith, Bool, false}
use daikin_d3net.Codec.{Words, bit_set}
use daikin_d3net.Codec.View.{IsWords, bit_set-IsWords, bit_at-bit_set}
use daikin_d3net.Codec.Field.{uint_set-IsWords, uint_get-uint_set, bit_at-uint_set}
use daikin_d3net.Codec.Reading.{bit_get_in_range}
use daikin_d3net.Codec.Signed.{abs, sint_set-IsWords, sint_get-sint_set}
use daikin_d3net.Registers.Temperature.{Float, to_tenths}
use daikin_d3net.Registers.Status

module _ (s : Words) (v : IsWords 6 s) where
  pub power_set-IsWords : (b : Bool) → IsWords 6 (Status.power_set s b)
  unfolding Status.power_set
  power_set-IsWords b = bit_set-IsWords v 0 b false

  pub power_get-power_set : (b : Bool) → Status.power_get (Status.power_set s b) ≡ b
  unfolding Status.power_get Status.power_set
  power_get-power_set b =
      bit_get_in_range (bit_set s 6 0 b false).0 6 0 (omega arith)
      ∙ bit_at-bit_set v 0 b false 0 (omega arith)

  pub oper_mode_set-IsWords : (mode : ℕ) → IsWords 6 (Status.oper_mode_set s mode)
  unfolding Status.oper_mode_set
  oper_mode_set-IsWords mode = uint_set-IsWords v 16 4 (omega arith) (omega arith) mode false

  pub oper_mode_get-oper_mode_set :
      (mode : ℕ) → Status.oper_mode_get (Status.oper_mode_set s mode) ≡ mode % 16
  unfolding Status.oper_mode_get Status.oper_mode_set
  oper_mode_get-oper_mode_set mode = uint_get-uint_set v 16 4 (omega arith) (omega arith) mode false

  pub power_get-oper_mode_set :
      (mode : ℕ) → Status.power_get (Status.oper_mode_set s mode) ≡ Status.power_get s
  unfolding Status.power_get Status.oper_mode_set
  power_get-oper_mode_set mode =
      bit_get_in_range (Status.oper_mode_set s mode) 6 0 (omega arith)
      ∙ (bit_at-uint_set v 16 4 (omega arith) (omega arith) mode false 0
          ∙ sym (bit_get_in_range s 6 0 (omega arith)))

  pub fan_speed_set-IsWords : (speed : ℕ) → IsWords 6 (Status.fan_speed_set s speed)
  unfolding Status.fan_speed_set
  fan_speed_set-IsWords speed = uint_set-IsWords v 12 3 (omega arith) (omega arith) speed false

  pub fan_speed_get-fan_speed_set :
      (speed : ℕ) → Status.fan_speed_get (Status.fan_speed_set s speed) ≡ speed % 8
  unfolding Status.fan_speed_get Status.fan_speed_set
  fan_speed_get-fan_speed_set speed =
      uint_get-uint_set v 12 3 (omega arith) (omega arith) speed false

  pub fan_dir_set-IsWords : (dir : ℕ) → IsWords 6 (Status.fan_dir_set s dir)
  unfolding Status.fan_dir_set
  fan_dir_set-IsWords dir = uint_set-IsWords v 8 3 (omega arith) (omega arith) dir false

  pub fan_dir_get-fan_dir_set : (dir : ℕ) → Status.fan_dir_get (Status.fan_dir_set s dir) ≡ dir % 8
  unfolding Status.fan_dir_get Status.fan_dir_set
  fan_dir_get-fan_dir_set dir = uint_get-uint_set v 8 3 (omega arith) (omega arith) dir false

  pub temp_setpoint_set-IsWords :
      (float : Float) (value_c : float.F) → IsWords 6 (Status.temp_setpoint_set float s value_c)
  unfolding Status.temp_setpoint_set
  temp_setpoint_set-IsWords float value_c =
      sint_set-IsWords v 32 16 (omega arith) (omega arith) (omega arith) (to_tenths float value_c)
        false

  pub setpoint_x10-temp_setpoint_set :
      (float : Float) (value_c : float.F)
      → abs (to_tenths float value_c) < 2 ^ 15
      → Status.setpoint_x10 (Status.temp_setpoint_set float s value_c) ≡ to_tenths float value_c
  unfolding Status.temp_setpoint_set Status.setpoint_x10
  setpoint_x10-temp_setpoint_set float value_c h =
      sint_get-sint_set v 32 16 (omega arith) (omega arith) (omega arith) (to_tenths float value_c)
        false h
