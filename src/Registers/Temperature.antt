-- ===== src/Registers/Temperature.antt =====
-- Temperatures: fields hold tenths of a degree, the program computes with C's float.
use daikin_d3net.Base.{ℕ, ◌-◌, ◌%◌, ◌^◌, ◌<◌, ◌≡◌, ltb, if◌then◌else◌, arith}
use daikin_d3net.Base.Int.{ℤ, pos, negsuc}
use daikin_d3net.Codec.Signed.{abs}

-- C's float, with the operations that the codec uses. An int of 16 bits divided by ten and
-- multiplied by ten is off by far less than one half, so rounding gives the int back.
pub record Float : Type 1 where
  pub F : Type 0
  pub of_int : ℤ → F
  pub ◌/F◌ : F → F → F
  pub ◌*F◌ : F → F → F
  pub ten : F
  pub llround : F → ℤ
  pub tenths : (x : ℤ) → abs x < 2 ^ 15 → llround (◌*F◌ (◌/F◌ (of_int x) ten) ten) ≡ x

-- The cast of a signed integer to `k` bits.
abbrev pub residue : ℕ → ℤ → ℕ
residue k (pos n) = n % 2 ^ k
residue k (negsuc n) = 2 ^ k - 1 - n % 2 ^ k

abbrev pub cast : ℕ → ℤ → ℤ
cast k z =
    if ltb (residue k z) (2 ^ (k - 1)) then pos (residue k z) else negsuc (2 ^ k - residue k z - 1)

pub cast-int32 : (z : ℤ) → abs z < 2 ^ 15 → cast 32 z ≡ z
cast-int32 (pos n) h = ground arith
cast-int32 (negsuc n) h = ground arith

pub cast-int8 : (z : ℤ) → abs z < 2 ^ 7 → cast 8 z ≡ z
cast-int8 (pos n) h = ground arith
cast-int8 (negsuc n) h = ground arith

module _ (float : Float) where
  open float use {F, of_int, ◌/F◌, ◌*F◌, ten, llround}

  -- `(float)x10 / 10.0f`
  abbrev pub degrees : ℤ → F
  degrees x10 = ◌/F◌ (of_int x10) ten

  -- `(int32_t)llroundf(value_c * 10.0f)`
  abbrev pub to_tenths : F → ℤ
  to_tenths value_c = cast 32 (llround (◌*F◌ value_c ten))

pub to_tenths-degrees :
    (float : Float) (x : ℤ) → abs x < 2 ^ 15 → to_tenths float (degrees float x) ≡ x
to_tenths-degrees float x h = rw (float.tenths x h) (cast-int32 x h)
