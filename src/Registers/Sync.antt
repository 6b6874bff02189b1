-- ===== src/Registers/Sync.antt =====
-- d3net_holding_sync_from_status: the holding block is brought into agreement with the status.
use daikin_d3net.Base.{ℕ, ◌+◌, ◌-◌, ◌^◌, ◌<◌, ◌≡◌, ap, ◌∙◌, arith, ◌⊎◌}
use daikin_d3net.Base.{true, ◌==◌, if◌then◌else◌}
use daikin_d3net.Base.Bits.{digit, digit-lt, digit_ext}
use daikin_d3net.Codec.{Words, ◌!=◌, bit_get, uint_get}
use daikin_d3net.Codec.View.{bit_at, IsWords, Tracks, Tracks-trans}
use daikin_d3net.Codec.Reading.{
  in_range, uint_get_ext, test-uint_get, bit_get_in_range, uint_get-lt, digit-uint_get,
}
use daikin_d3net.Codec.Signed.{abs, sint_get-sint_set, abs-sint_get-lt}
use daikin_d3net.Registers.Temperature.{Float, to_tenths, to_tenths-degrees}
use daikin_d3net.Registers.Status
use daikin_d3net.Registers.Holding
use daikin_d3net.Registers.Holding.{Holding}
use daikin_d3net.Registers.Writes.{
  Writes, Writes-trans, put, power_set-Writes, oper_mode_set-Writes,
}
use daikin_d3net.Registers.Writes.{
  fan_speed_set-Writes, fan_dir_set-Writes, temp_setpoint_set-Writes,
}
use daikin_d3net.Registers.Writes.{put_setpoint}

-- The holding block asks for what the status shows, and for the fan to be controlled.
pub record Agrees (h : Holding) (s : Words) : Type 0 where
  pub power : Holding.power_get h ≡ Status.power_get s
  pub oper_mode : Holding.oper_mode_get h ≡ Status.oper_mode_get s
  pub fan_speed : Holding.fan_speed_get h ≡ Status.fan_speed_get s
  pub fan_dir : Holding.fan_dir_get h ≡ Status.fan_dir_get s
  pub setpoint : Holding.setpoint_x10 h ≡ Status.setpoint_x10 s
  pub fan_control : Holding.fan_control_get h ≡ true

module _ (float : Float) (h : Holding) (v : IsWords 3 h.words) (s : Words) (w : IsWords 6 s) where
  -- All but the last step of the sync.
  discrete : Holding
  discrete =
      Holding.oper_mode_set
        (Holding.fan_speed_set
          (Holding.fan_dir_set (Holding.power_set h (Status.power_get s)) (Status.fan_dir_get s))
          (Status.fan_speed_get s))
        (Status.oper_mode_get s)

  discrete-Writes :
      Writes
        (λ q o. put 16 4 (Status.oper_mode_get s) q (
          put 4 4 6 q (
            put 12 3 (Status.fan_speed_get s) q (
              put 4 4 6 q
                (put 8 3 (Status.fan_dir_get s) q (if q == 0 then Status.power_get s else o))))))
        h
        discrete
  unfolding discrete
  discrete-Writes =
      let a = power_set-Writes h v (Status.power_get s) in
      let b = fan_dir_set-Writes _ a.valid (Status.fan_dir_get s) in
      let c = fan_speed_set-Writes _ b.valid (Status.fan_speed_get s) in
      let d = oper_mode_set-Writes _ c.valid (Status.oper_mode_get s) in
      Writes-trans (Writes-trans (Writes-trans a b) c) d

  abbrev synced : Holding
  synced = Holding.sync_from_status float h s

  last : Writes (put_setpoint (to_tenths float (Status.temp_setpoint_get float s))) discrete synced
  unfolding discrete Holding.sync_from_status
  last =
      temp_setpoint_set-Writes float discrete discrete-Writes.valid
        (Status.temp_setpoint_get float s)

  pub sync-IsWords : IsWords 3 synced.words
  sync-IsWords = last.valid

  -- The three fields that are copied from the same places, and the fan's control field.
  fan_control_bits :
      (q : ℕ) → in_range 4 4 q ≡ true → bit_at synced.words q ≡ (digit 6 (q - 4) == 1)
  fan_control_bits q e = last.bits q ∙ (ground arith ∙ (discrete-Writes.bits q ∙ ground arith))

  copied :
      (len start : ℕ) (q : ℕ)
      → in_range start len q ≡ true
      → ((start ≡ 8) × (len ≡ 3)) ⊎ ((start ≡ 12) × (len ≡ 3)) ⊎ ((start ≡ 16) × (len ≡ 4))
      → bit_at synced.words q ≡ bit_at s q
  unfolding Status.oper_mode_get Status.fan_speed_get Status.fan_dir_get
  copied len start q e which =
      last.bits q
      ∙ (ground arith
          ∙ (discrete-Writes.bits q
              ∙ ground (
                arith,
                test-uint_get s 6 8 3 q (omega arith) (omega arith) (omega arith),
                test-uint_get s 6 12 3 q (omega arith) (omega arith) (omega arith),
                test-uint_get s 6 16 4 q (omega arith) (omega arith) (omega arith),
              )))

  copied_field :
      (start len : ℕ)
      → ((start ≡ 8) × (len ≡ 3)) ⊎ ((start ≡ 12) × (len ≡ 3)) ⊎ ((start ≡ 16) × (len ≡ 4))
      → uint_get synced.words 3 start len ≡ uint_get s 6 start len
  copied_field start len which =
      uint_get_ext synced.words s start start len (omega arith) (omega arith) (omega arith)
        (omega arith) (omega arith) (λ j p. copied len start (start + j) (ground arith) which)

  copied_power : bit_get synced.words 3 0 ≡ bit_get s 6 0
  unfolding Status.power_get
  copied_power =
      bit_get_in_range synced.words 3 0 (omega arith) ∙ (last.bits 0 ∙ discrete-Writes.bits 0)

  fan_control_six : uint_get synced.words 3 4 4 ≡ 6
  fan_control_six =
      digit_ext 4 _ 6 (uint_get-lt synced.words 3 4 (omega arith) 4 (omega arith) (omega arith))
        (omega arith)
        λ j p.
          digit-uint_get synced.words 3 4 (omega arith) 4 j (omega arith) (omega arith)
          ∙ ground (
            arith,
            fan_control_bits (4 + j) (ground arith),
            digit-lt 6 j,
            ap (digit 6) {x = 4 + j - 4} {y = j},
          )

  x10_fits : abs (Status.setpoint_x10 s) < 2 ^ 15
  unfolding Status.setpoint_x10
  x10_fits = abs-sint_get-lt s 6 32 16 (omega arith) (omega arith) (omega arith) (omega arith)

  copied_setpoint : Holding.setpoint_x10 synced ≡ Status.setpoint_x10 s
  unfolding Holding.sync_from_status Holding.setpoint_x10 Status.temp_setpoint_get discrete
      Holding.temp_setpoint_set
  copied_setpoint = rw (to_tenths-degrees float (Status.setpoint_x10 s) x10_fits) (
      sint_get-sint_set discrete-Writes.valid 32 16 (omega arith) (omega arith) (omega arith)
        (Status.setpoint_x10 s) discrete.dirty x10_fits)

  -- After d3net_holding_sync_from_status the holding block asks for the power, mode, fan speed,
  -- fan direction and setpoint that the status shows, and for control of the fan.
  pub sync-Agrees : Agrees synced s
  unfolding Holding.power_get Status.power_get Holding.oper_mode_get Status.oper_mode_get
      Holding.fan_speed_get Status.fan_speed_get Holding.fan_dir_get Status.fan_dir_get
      Holding.fan_control_get
  sync-Agrees = record {
    power = copied_power;
    oper_mode = copied_field 16 4 (ground arith);
    fan_speed = copied_field 12 3 (ground arith);
    fan_dir = copied_field 8 3 (ground arith);
    setpoint = copied_setpoint;
    fan_control = rw fan_control_six;
  }

  -- d3net_holding_sync_from_status leaves the filter reset request as it was.
  pub filter_reset-sync : Holding.filter_reset_get synced ≡ Holding.filter_reset_get h
  unfolding Holding.filter_reset_get
  filter_reset-sync =
      ap (λ (t : ℕ). t != 0)
        (uint_get_ext {n = 3} {m = 3} synced.words h.words 20 20 4 (omega arith) (omega arith)
          (omega arith) (omega arith) (omega arith)
          (λ j p.
            last.bits (20 + j) ∙ (ground arith ∙ (discrete-Writes.bits (20 + j) ∙ ground arith))))

  -- The dirty flag vouches for the words, and the times stay.
  pub sync-Tracks : Tracks (h.words, h.dirty) (synced.words, synced.dirty)
  sync-Tracks = Tracks-trans discrete-Writes.tracks last.tracks

  pub sync-times : (synced.last_read_ms ≡ h.last_read_ms) × (synced.last_write_ms ≡ h.last_write_ms)
  sync-times =
      (last.read_at ∙ discrete-Writes.read_at, last.written_at ∙ discrete-Writes.written_at)
