-- ===== src/Tests/Sample.antt =====
-- A bus with one block of holding registers behind it, fractions for C's float, and a unit.
use daikin_d3net.Base.{ℕ, zero, suc, ◌+◌, ◌-◌, ◌*◌, ◌/◌, ◌^◌, ◌≤◌, ◌<◌, ◌≡◌, ◌≢◌, refl, ap, arith}
use daikin_d3net.Base.{Bool, true, false, ◌&&◌, ltb, ◌==◌, if◌then◌else◌, Bool-cases, inl, inr}
use daikin_d3net.Base.{[], ◌∷◌, length, replicate, length-replicate, All}
use daikin_d3net.Base.Int.{ℤ, pos, negsuc}
use daikin_d3net.Esp.{Err, ok, fail, timeout}
use daikin_d3net.Codec.{Words, neg}
use daikin_d3net.Codec.View.{IsWords}
use daikin_d3net.Codec.Signed.{abs}
use daikin_d3net.Registers.Temperature.{Float}
use daikin_d3net.Gateway.Bus.{Transport, RegType}
use daikin_d3net.Gateway.{HvacUnit, Link, init}
use daikin_d3net.Gateway.Device.{Device}

abbrev pub fits : Words → Bool
fits [] = true
fits (w ∷ ws) = ltb w (2 ^ 16) && fits ws

fits-All : (ws : Words) → fits ws ≡ true → All (λ w. w < 2 ^ 16) ws
fits-All [] h = tt
fits-All (w ∷ ws) h = (ground arith, fits-All ws (ground arith))

zeros-All : (n : ℕ) → All (λ w. w < 2 ^ 16) (replicate n 0)
zeros-All zero = tt
zeros-All (suc n) = (omega arith, zeros-All n)

-- The block that was written last, whether the bus answers, and a clock in microseconds.
pub record Block : Type 0 where
  pub at : ℕ
  pub words : Words
  pub online : Bool
  pub clock : ℕ

abbrev pub holds : Words → ℕ → Bool
holds ws count = length ws == count && fits ws

unfoldable pub block_regs : Block → ℕ → ℕ → Words
block_regs w address count =
    if address == w.at && holds w.words count then w.words else replicate count 0

block_regs-IsWords :
    (w : Block) (address count : ℕ) → count ≤ 4096 → IsWords count (block_regs w address count)
unfolding block_regs
block_regs-IsWords w address count h = elim (Bool-cases (address == w.at && holds w.words count)) [
  | inl e ↦ rw e (record { count = ground arith; small = h; fit = fits-All w.words (ground arith) })
  | inr e ↦ rw e (record { count = length-replicate count 0; small = h; fit = zeros-All count })
]

unfoldable pub block_read : Block → RegType → ℕ → ℕ → Words → Err × Words × Block
unfolding block_regs
block_read w ty address count buffer =
    if w.online then (ok, block_regs w address count, w) else (timeout, buffer, w)

unfoldable pub block_write : Block → ℕ → ℕ → Words → Err × Block
block_write w address count words =
    if w.online && holds words count
    then (ok, record w { at = address; words = words })
    else (fail, w)

pub block_read-IsWords :
    (w : Block) (ty : RegType) (address count : ℕ) (buffer : Words)
    → IsWords count buffer
    → IsWords count (block_read w ty address count buffer).1
unfolding block_read
block_read-IsWords w ty address count buffer v = elim (Bool-cases w.online) [
  | inl e ↦ rw e (block_regs-IsWords w address count v.small)
  | inr e ↦ rw e v
]

pub block_read_failed :
    (w : Block) (ty : RegType) (address count : ℕ) (buffer : Words)
    → (block_read w ty address count buffer).0 ≢ ok
    → (block_read w ty address count buffer).1 ≡ buffer
unfolding block_read
block_read_failed w ty address count buffer h = ground arith

abbrev pub bus : Transport
bus = record {
  World = Block;
  read_fn = block_read;
  write_fn = block_write;
  delay = λ w ms. record w { clock = w.clock + ms * 1000 };
  time_us = λ w. w.clock;
  read-IsWords = block_read-IsWords;
  read_failed = block_read_failed;
}

pub block_write_ok :
    (w : Block) (address count : ℕ) (words : Words)
    → (block_write w address count words).0 ≡ ok
    → block_regs (block_write w address count words).1 address count ≡ words
unfolding block_write block_regs
block_write_ok w address count words e = ground arith

pub block_read_ok :
    (w : Block) (address count : ℕ) (buffer : Words)
    → (block_read w RegType.holding address count buffer).0 ≡ ok
    → (block_read w RegType.holding address count buffer).1
      ≡ block_regs (block_read w RegType.holding address count buffer).2 address count
unfolding block_read
block_read_ok w address count buffer e = ground arith

pub block_read_keeps :
    (w : Block) (ty : RegType) (address count : ℕ) (buffer : Words) (a c : ℕ)
    → block_regs (block_read w ty address count buffer).2 a c ≡ block_regs w a c
unfolding block_read
block_read_keeps w ty address count buffer a c = ground arith

unfoldable pub device : Device bus
unfolding block_regs
device = record {
  regs = block_regs;
  write_ok = block_write_ok;
  read_ok = block_read_ok;
  read_keeps = block_read_keeps;
  delay_keeps = λ w ms a c. refl;
}

-- Fractions. The divisor and the factor of the program are positive.
pub record Fraction : Type 0 where
  pub num : ℤ
  pub den : ℕ

abbrev scale : ℤ → ℕ → ℤ
scale (pos n) k = pos (n * k)
scale (negsuc n) k = negsuc (suc n * k - 1)

abbrev round : ℤ → ℕ → ℤ
round (pos n) d = pos ((2 * n + d) / (2 * d))
round (negsuc n) d = neg (pos ((2 * suc n + d) / (2 * d)))

unfoldable pub llround : Fraction → ℤ
llround f = round f.num f.den

abbrev over : Fraction → Fraction → Fraction
over f g = record { num = scale f.num g.den; den = f.den * abs g.num }

abbrev times : Fraction → Fraction → Fraction
times f g = record { num = scale f.num (abs g.num); den = f.den * g.den }

pub fraction_tenths :
    (x : ℤ)
    → abs x < 2 ^ 15
    → llround (
        times
          (over (record { num = x; den = 1 }) (record { num = pos 10; den = 1 }))
          (record { num = pos 10; den = 1 }))
      ≡ x
unfolding llround
fraction_tenths (pos n) h = ground arith
fraction_tenths (negsuc n) h =
    let rounded : (2 * suc (suc (suc n * 1 - 1) * 10 - 1) + 10) / 20 ≡ suc n = omega arith in
    ap (λ m. neg (pos m)) rounded

abbrev pub fractions : Float
fractions = record {
  F = Fraction;
  of_int = λ x. record { num = x; den = 1 };
  ◌/F◌ = over;
  ◌*F◌ = times;
  ten = record { num = pos 10; den = 1 };
  llround = llround;
  tenths = fraction_tenths;
}

-- Unit 2, whose holding block was read a second after the start.
abbrev pub unit : HvacUnit
unit = record {
  present = true;
  index = 2;
  unit_id = [];
  last_error_read_ms = 0;
  cap = 0 ∷ 0 ∷ 0 ∷ [];
  status = 0 ∷ 2 ∷ 210 ∷ 0 ∷ 0 ∷ 0 ∷ [];
  hold = record { words = 0 ∷ 2 ∷ 0 ∷ []; dirty = false; last_read_ms = 1000; last_write_ms = 0 };
  error = 0 ∷ 0 ∷ [];
}

abbrev pub world : Block
world = record { at = 2006; words = 0 ∷ 2 ∷ 0 ∷ []; online = true; clock = 5000000 }

abbrev pub link : Link bus
link = record { gw = init 1; unit = unit; world = world }
