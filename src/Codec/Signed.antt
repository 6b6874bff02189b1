-- ===== src/Codec/Signed.antt =====
-- Sign-magnitude fields: d3net_sint_get and d3net_sint_set.
use native.Mathlib.Nat.{mod-eq_of_lt, pow-le-pow_right}
use daikin_d3net.Base.{ℕ, zero, suc, ◌+◌, ◌-◌, ◌*◌, ◌%◌, ◌^◌, ◌≤◌, ◌<◌}
use daikin_d3net.Base.{◌≡◌, refl, sym, ap, ap₂, ◌∙◌, arith, Bool, true, false}
use daikin_d3net.Base.{◌==◌, if◌then◌else◌}
use daikin_d3net.Base.Int.{ℤ, pos, negsuc}
use daikin_d3net.Base.Bits.{digit}
use daikin_d3net.Codec.{Words, bit_set, uint_get, uint_set, sint_get, sint_set, neg}
use daikin_d3net.Codec.{is_negative, magnitude}
use daikin_d3net.Codec.View.{bit_at, IsWords, bit_set-IsWords, bit_at-bit_set}
use daikin_d3net.Codec.View.{Tracks, Tracks-trans, bit_set-Tracks}
use daikin_d3net.Codec.Reading.{in_range, bit_get_in_range, uint_get-lt, uint_get_ext}
use daikin_d3net.Codec.Field.{uint_set-IsWords, bit_at-uint_set, uint_get-uint_set}
use daikin_d3net.Codec.Field.{uint_set-Tracks}

-- The absolute value.
abbrev pub abs : ℤ → ℕ
abs (pos n) = n
abs (negsuc n) = suc n

-- The value with a given sign and magnitude.
abbrev pub signed : Bool → ℕ → ℤ
signed s m = if s then neg (pos m) else pos m

abs-signed : (s : Bool) (m : ℕ) → abs (signed s m) ≡ m
abs-signed true zero = refl
abs-signed true (suc m) = refl
abs-signed false m = refl

signed-is_negative : (z : ℤ) → signed (is_negative z) (abs z) ≡ z
signed-is_negative (pos n) = refl
signed-is_negative (negsuc n) = refl

magnitude-eq-abs : (z : ℤ) → abs z < 2 ^ 31 → magnitude z ≡ abs z
magnitude-eq-abs (pos n) h = omega arith
magnitude-eq-abs (negsuc n) h = omega arith

two_pow_le_31 : (k : ℕ) → k ≤ 31 → 2 ^ k ≤ 2 ^ 31
two_pow_le_31 k h = pow-le-pow_right {n = 2} (omega arith) h

module _ (words : Words) (n start len : ℕ) (small : n ≤ 4096) (inside : start + len ≤ 16 * n)
    (wide : 2 ≤ len) (narrow : len ≤ 32) where
  -- The sign is the top bit of the field, the magnitude the bits below it.
  sint_get_lem :
      sint_get words n start len
      ≡ signed (bit_at words (start + len - 1)) (uint_get words n start (len - 1))
  unfolding sint_get
  sint_get_lem =
      let fits : uint_get words n start (len - 1) < 2 ^ 31 = omega (
        arith,
        two_pow_le_31 (len - 1),
        uint_get-lt words n start small (len - 1) (omega arith) (omega arith),
      ) in
      let top : (start + len - 1) % 2 ^ 16 ≡ start + len - 1 = omega arith in
      rw (top, bit_get_in_range words n (start + len - 1) (omega arith)) (ground arith)

  -- A value read stays within the magnitude of the field.
  pub abs-sint_get-lt : abs (sint_get words n start len) < 2 ^ (len - 1)
  abs-sint_get-lt =
      rw
        (
          sint_get_lem,
          abs-signed (bit_at words (start + len - 1)) (uint_get words n start (len - 1)),
        )
        (uint_get-lt words n start small (len - 1) (omega arith) (omega arith))

-- The value of a signed field depends on its bits alone.
pub sint_get_ext :
    {n : ℕ} (xs ys : Words) (start len : ℕ)
    → n ≤ 4096
    → start + len ≤ 16 * n
    → 2 ≤ len
    → len ≤ 32
    → ((j : ℕ) → j < len → bit_at xs (start + j) ≡ bit_at ys (start + j))
    → sint_get xs n start len ≡ sint_get ys n start len
sint_get_ext {n} xs ys start len small h two k e =
    let top : start + (len - 1) ≡ start + len - 1 = omega arith in
    sint_get_lem xs n start len small h two k
    ∙ ap₂ signed (rw top at (e (len - 1) (omega arith))) (
        uint_get_ext xs ys start start (len - 1) small small (omega arith) (omega arith)
          (omega arith) (λ j p. e j (omega arith)))
    ∙ sym (sint_get_lem ys n start len small h two k)

module _ {n : ℕ} {words : Words} (v : IsWords n words) (start len : ℕ)
    (inside : start + len ≤ 16 * n) (wide : 2 ≤ len) (narrow : len ≤ 32) (value : ℤ)
    (dirty : Bool) where
  lower : Words × Bool
  lower = uint_set words n start (len - 1) (magnitude value) dirty

  lower-IsWords : IsWords n lower.0
  unfolding lower
  lower-IsWords =
      uint_set-IsWords v start (len - 1) (omega arith) (omega arith) (magnitude value) dirty

  sint_set_lem :
      sint_set words n start len value dirty
      ≡ bit_set lower.0 n (start + len - 1) (is_negative value) lower.1
  unfolding sint_set lower
  sint_set_lem =
      let top : (start + len - 1) % 2 ^ 16 ≡ start + len - 1 = omega (arith, v.small) in
      rw top (ground arith)

  pub sint_set-IsWords : IsWords n (sint_set words n start len value dirty).0
  sint_set-IsWords =
      rw sint_set_lem (bit_set-IsWords lower-IsWords (start + len - 1) (is_negative value) lower.1)

  pub bit_at-sint_set :
      (q : ℕ)
      → bit_at (sint_set words n start len value dirty).0 q ≡ (
          if q == start + len - 1
          then is_negative value
          else if in_range start (len - 1) q
          then digit (magnitude value) (q - start) == 1
          else bit_at words q)
  unfolding lower
  bit_at-sint_set q = rw (sint_set_lem) (
      bit_at-bit_set lower-IsWords (start + len - 1) (is_negative value) lower.1 q (omega arith)
      ∙ ap (λ b. if q == start + len - 1 then is_negative value else b)
          (bit_at-uint_set v start (len - 1) (omega arith) (omega arith) (magnitude value) dirty q))

  -- A signed field of 2 to 32 bits in sign and magnitude reads back the value written to it, if
  -- its magnitude fits beside the sign.
  pub sint_get-sint_set :
      abs value < 2 ^ (len - 1)
      → sint_get (sint_set words n start len value dirty).0 n start len ≡ value
  unfolding lower
  sint_get-sint_set h =
      let out = (sint_set words n start len value dirty).0 in
      let sign : bit_at out (start + len - 1) ≡ is_negative value =
        bit_at-sint_set (start + len - 1) ∙ ground arith in
      let below : uint_get out n start (len - 1) ≡ uint_get lower.0 n start (len - 1) =
        uint_get_ext out lower.0 start start (len - 1) v.small v.small (omega arith) (omega arith)
          (omega arith)
          λ j p. rw sint_set_lem (
            bit_at-bit_set lower-IsWords (start + len - 1) (is_negative value) lower.1 (start + j)
              (omega arith)
            ∙ ground arith) in
      let read : uint_get lower.0 n start (len - 1) ≡ abs value =
        uint_get-uint_set v start (len - 1) (omega arith) (omega arith) (magnitude value) dirty
        ∙ rw (magnitude-eq-abs value (omega (arith, two_pow_le_31 (len - 1)))) (mod-eq_of_lt h) in
      sint_get_lem out n start len v.small inside wide narrow
      ∙ (ap₂ signed sign (below ∙ read) ∙ signed-is_negative value)

  pub sint_set-Tracks : Tracks (words, dirty) (sint_set words n start len value dirty)
  unfolding lower
  sint_set-Tracks = rw sint_set_lem (
      Tracks-trans
        (uint_set-Tracks v start (len - 1) (omega arith) (omega arith) (magnitude value) dirty)
        (bit_set-Tracks lower-IsWords (start + len - 1) (is_negative value) lower.1))
