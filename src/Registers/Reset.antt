-- ===== src/Registers/Reset.antt =====
-- The filter reset request of the holding block, and what depends on the words of a block alone.
use daikin_d3net.Base.{ℕ, ◌+◌, ◌≤◌, ◌≡◌, ◌⊎◌, ap, sym, ◌∙◌, arith}
use daikin_d3net.Base.{Bool, ◌==◌, if◌then◌else◌}
use daikin_d3net.Codec.{Words, ◌!=◌, bit_get, uint_get, sint_get}
use daikin_d3net.Codec.View.{IsWords}
use daikin_d3net.Codec.Field.{uint_get-uint_set}
use daikin_d3net.Codec.Reading.{uint_get_ext, bit_get_in_range}
use daikin_d3net.Codec.Signed.{sint_get_ext}
use daikin_d3net.Registers.Holding
use daikin_d3net.Registers.Holding.{Holding}
use daikin_d3net.Registers.Sync.{Agrees}
use daikin_d3net.Registers.Writes.{Writes, put, filter_reset_set-Writes}

-- Agreement looks at the words of the block alone.
pub Agrees-words : {h h' : Holding} {s : Words} → h'.words ≡ h.words → Agrees h s → Agrees h' s
unfolding Holding.power_get Holding.oper_mode_get Holding.fan_speed_get Holding.fan_dir_get
    Holding.fan_control_get Holding.setpoint_x10
Agrees-words {h} {h'} e a = record {
  power = ap (λ ws. bit_get ws 3 0) e ∙ a.power;
  oper_mode = ap (λ ws. uint_get ws 3 16 4) e ∙ a.oper_mode;
  fan_speed = ap (λ ws. uint_get ws 3 12 3) e ∙ a.fan_speed;
  fan_dir = ap (λ ws. uint_get ws 3 8 3) e ∙ a.fan_dir;
  setpoint = ap (λ ws. sint_get ws 3 32 16) e ∙ a.setpoint;
  fan_control = ap (λ ws. uint_get ws 3 4 4 == 6) e ∙ a.fan_control;
}

pub filter_reset_get-words :
    (h h' : Holding) → h'.words ≡ h.words → Holding.filter_reset_get h' ≡ Holding.filter_reset_get h
unfolding Holding.filter_reset_get
filter_reset_get-words h h' e = ap (λ ws. uint_get ws 3 20 4 != 0) e

module _ (h : Holding) (v : IsWords 3 h.words) (b : Bool) where
  -- A request that is made is read back.
  pub filter_reset_get-filter_reset_set :
      Holding.filter_reset_get (Holding.filter_reset_set h b) ≡ b
  unfolding Holding.filter_reset_get Holding.filter_reset_set
  filter_reset_get-filter_reset_set =
      rw (uint_get-uint_set v 20 4 (omega arith) (omega arith) (if b then 15 else 0) h.dirty)
        (ground arith)

  writes : Writes (put 20 4 (if b then 15 else 0)) h (Holding.filter_reset_set h b)
  writes = filter_reset_set-Writes h v b

  other_field :
      (start len : ℕ)
      → start + len ≤ 48
      → len ≤ 32
      → (start + len ≤ 20) ⊎ (24 ≤ start)
      → uint_get (Holding.filter_reset_set h b).words 3 start len ≡ uint_get h.words 3 start len
  other_field start len i k apart =
      uint_get_ext {n = 3} {m = 3} (Holding.filter_reset_set h b).words h.words start start len
        (omega arith) (omega arith) i i k (λ j p. writes.bits (start + j) ∙ ground arith)

  -- Making or taking back a filter reset request leaves a holding block asking for what the status
  -- shows.
  pub filter_reset_set-Agrees : {s : Words} → Agrees h s → Agrees (Holding.filter_reset_set h b) s
  unfolding Holding.power_get Holding.oper_mode_get Holding.fan_speed_get Holding.fan_dir_get
      Holding.fan_control_get Holding.setpoint_x10
  filter_reset_set-Agrees a =
      let h' = Holding.filter_reset_set h b in
      record {
        power =
            bit_get_in_range h'.words 3 0 (omega arith)
            ∙ (writes.bits 0 ∙ (sym (bit_get_in_range h.words 3 0 (omega arith)) ∙ a.power));
        oper_mode = other_field 16 4 (omega arith) (omega arith) (omega arith) ∙ a.oper_mode;
        fan_speed = other_field 12 3 (omega arith) (omega arith) (omega arith) ∙ a.fan_speed;
        fan_dir = other_field 8 3 (omega arith) (omega arith) (omega arith) ∙ a.fan_dir;
        setpoint =
            sint_get_ext {n = 3} h'.words h.words 32 16 (omega arith) (omega arith) (omega arith)
              (omega arith) (λ j p. writes.bits (32 + j) ∙ ground arith)
            ∙ a.setpoint;
        fan_control =
            ap (λ (t : ℕ). t == 6) (other_field 4 4 (omega arith) (omega arith) (omega arith))
            ∙ a.fan_control;
      }
