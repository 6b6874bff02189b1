-- ===== src/Registers/Writes.antt =====
-- What each setter of the holding block does to its bits, its dirty flag and its times.
use daikin_d3net.Base.{ℕ, ◌+◌, ◌-◌, ◌≤◌, ◌≡◌, refl, ap, ◌∙◌, arith}
use daikin_d3net.Base.{Bool, ◌==◌, if◌then◌else◌}
use daikin_d3net.Base.Int.{ℤ}
use daikin_d3net.Base.Bits.{digit}
use daikin_d3net.Codec.{uint_set, is_negative, magnitude}
use daikin_d3net.Codec.View.{bit_at, IsWords, Tracks, Tracks-trans, bit_set-IsWords, bit_at-bit_set}
use daikin_d3net.Codec.View.{bit_set-Tracks}
use daikin_d3net.Codec.Field.{uint_set-IsWords, bit_at-uint_set, uint_set-Tracks}
use daikin_d3net.Codec.Reading.{in_range}
use daikin_d3net.Codec.Signed.{sint_set-IsWords, bit_at-sint_set, sint_set-Tracks}
use daikin_d3net.Registers.Temperature.{Float, to_tenths}
use daikin_d3net.Registers.Holding
use daikin_d3net.Registers.Holding.{Holding}

-- From `h` to `h'` every bit changes by `f`, which is given the position and the old bit. The
-- dirty flag tracks the change and the times stay.
pub record Writes (f : ℕ → Bool → Bool) (h h' : Holding) : Type 0 where
  pub valid : IsWords 3 h'.words
  pub bits : (q : ℕ) → bit_at h'.words q ≡ f q (bit_at h.words q)
  pub tracks : Tracks (h.words, h.dirty) (h'.words, h'.dirty)
  pub read_at : h'.last_read_ms ≡ h.last_read_ms
  pub written_at : h'.last_write_ms ≡ h.last_write_ms

pub Writes-trans :
    {f g : ℕ → Bool → Bool} {a b c : Holding}
    → Writes f a b
    → Writes g b c
    → Writes (λ q o. g q (f q o)) a c
Writes-trans {f} {g} u v = record {
  valid = v.valid;
  bits = λ q. v.bits q ∙ ap (g q) (u.bits q);
  tracks = Tracks-trans u.tracks v.tracks;
  read_at = v.read_at ∙ u.read_at;
  written_at = v.written_at ∙ u.written_at;
}

-- The change that a write of `value` to the field of `len` bits from `start` makes.
abbrev pub put : ℕ → ℕ → ℕ → ℕ → Bool → Bool
put start len value q old = if in_range start len q then digit value (q - start) == 1 else old

module _ (h : Holding) (v : IsWords 3 h.words) where
  put-Writes :
      (start len value : ℕ)
      → start + len ≤ 48
      → len ≤ 32
      → Writes
          (put start len value)
          h
          (Holding.store h (uint_set h.words 3 start len value h.dirty))
  put-Writes start len value i k = record {
    valid = uint_set-IsWords v start len i k value h.dirty;
    bits = bit_at-uint_set v start len i k value h.dirty;
    tracks = uint_set-Tracks v start len i k value h.dirty;
    read_at = refl;
    written_at = refl;
  }

  pub power_set-Writes :
      (b : Bool) → Writes (λ q o. if q == 0 then b else o) h (Holding.power_set h b)
  unfolding Holding.power_set
  power_set-Writes b = record {
    valid = bit_set-IsWords v 0 b h.dirty;
    bits = λ q. bit_at-bit_set v 0 b h.dirty q (omega arith);
    tracks = bit_set-Tracks v 0 b h.dirty;
    read_at = refl;
    written_at = refl;
  }

  pub oper_mode_set-Writes : (mode : ℕ) → Writes (put 16 4 mode) h (Holding.oper_mode_set h mode)
  unfolding Holding.oper_mode_set
  oper_mode_set-Writes mode = put-Writes 16 4 mode (omega arith) (omega arith)

  pub filter_reset_set-Writes :
      (b : Bool) → Writes (put 20 4 (if b then 15 else 0)) h (Holding.filter_reset_set h b)
  unfolding Holding.filter_reset_set
  filter_reset_set-Writes b = put-Writes 20 4 (if b then 15 else 0) (omega arith) (omega arith)

pub fan_speed_set-Writes :
    (h : Holding)
    → IsWords 3 h.words
    → (speed : ℕ)
    → Writes (λ q o. put 4 4 6 q (put 12 3 speed q o)) h (Holding.fan_speed_set h speed)
unfolding Holding.fan_speed_set
fan_speed_set-Writes h v speed =
    let first = put-Writes h v 12 3 speed (omega arith) (omega arith) in
    Writes-trans first (put-Writes _ first.valid 4 4 6 (omega arith) (omega arith))

pub fan_dir_set-Writes :
    (h : Holding)
    → IsWords 3 h.words
    → (dir : ℕ) → Writes (λ q o. put 4 4 6 q (put 8 3 dir q o)) h (Holding.fan_dir_set h dir)
unfolding Holding.fan_dir_set
fan_dir_set-Writes h v dir =
    let first = put-Writes h v 8 3 dir (omega arith) (omega arith) in
    Writes-trans first (put-Writes _ first.valid 4 4 6 (omega arith) (omega arith))

-- The change that a signed field of 16 bits from 32 on makes.
abbrev pub put_setpoint : ℤ → ℕ → Bool → Bool
put_setpoint x q old =
    if q == 47
    then is_negative x
    else if in_range 32 15 q
    then digit (magnitude x) (q - 32) == 1
    else old

pub temp_setpoint_set-Writes :
    (float : Float) (h : Holding)
    → IsWords 3 h.words
    → (value_c : float.F)
    → Writes (put_setpoint (to_tenths float value_c)) h (Holding.temp_setpoint_set float h value_c)
unfolding Holding.temp_setpoint_set
temp_setpoint_set-Writes float h v value_c =
    let x = to_tenths float value_c in
    record {
      valid = sint_set-IsWords v 32 16 (omega arith) (omega arith) (omega arith) x h.dirty;
      bits = bit_at-sint_set v 32 16 (omega arith) (omega arith) (omega arith) x h.dirty;
      tracks = sint_set-Tracks v 32 16 (omega arith) (omega arith) (omega arith) x h.dirty;
      read_at = refl;
      written_at = refl;
    }
