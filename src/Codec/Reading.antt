-- ===== src/Codec/Reading.antt =====
-- What d3net_uint_get reads: the bits of a field, as digits of a number.
use native.Mathlib.Nat.{mod-eq_of_lt}
use daikin_d3net.Base.{ℕ, zero, suc, ◌+◌, ◌-◌, ◌*◌, ◌%◌, ◌^◌, ◌≤◌, ◌<◌, bit_or, max}
use daikin_d3net.Base.{◌≡◌, sym, ap, ◌∙◌, arith, Bool, true, false, ◌&&◌}
use daikin_d3net.Base.{ltb, leb, ◌==◌, if◌then◌else◌}
use daikin_d3net.Base.Bits.{
  digit, digit-bit_or, digit-pow, digit-lt, digit_ext, bit_or-lt, digit-zero,
}
use daikin_d3net.Base.Bits.{digit-ge}
use daikin_d3net.Codec.{Words, bit_get, uint_get_loop, uint_get}
use daikin_d3net.Codec.View.{bit_at, bit_get-eq-bit_at}
use daikin_d3net.Codec.View.{two_pow_le}

-- A bit as a number.
abbrev pub to_digit : Bool → ℕ
to_digit true = 1
to_digit false = 0

-- Position `q` lies in the `len` bits from `lo`.
abbrev pub in_range : ℕ → ℕ → ℕ → Bool
in_range lo len q = leb lo q && ltb q (lo + len)

pub shifted-one : (i : ℕ) → i < 32 → 2 ^ i % 2 ^ 32 ≡ 2 ^ i
shifted-one i h = mod-eq_of_lt (two_pow_le i 32 h)

pub bit_get_in_range : (words : Words) (n p : ℕ) → p < 16 * n → bit_get words n p ≡ bit_at words p
bit_get_in_range words n p h = bit_get-eq-bit_at words n p ∙ ground arith

pub position : (start i n : ℕ) → n ≤ 4096 → start + i < 16 * n → (start + i) % 2 ^ 16 ≡ start + i
position start i n small h = omega arith

-- What one round of the reading loop does to the value.
get_round : Bool → ℕ → ℕ → ℕ
get_round b value i = if b then bit_or value (2 ^ i) else value

get_round-lt : (b : Bool) (value i : ℕ) → value < 2 ^ i → get_round b value i < 2 ^ (i + 1)
unfolding get_round
get_round-lt true value i h =
    bit_or-lt (i + 1) value (2 ^ i) (omega (arith, two_pow_le i (i + 1)))
      (two_pow_le i (i + 1) (omega arith))
get_round-lt false value i h = omega (arith, two_pow_le i (i + 1))

digit-get_round :
    (b : Bool) (value i j : ℕ)
    → digit (get_round b value i) j
      ≡ (if i == j then max (digit value j) (to_digit b) else digit value j)
unfolding get_round
digit-get_round true value i j =
    ground (arith, digit-bit_or j value (2 ^ i), digit-pow i j, digit-lt value j)
digit-get_round false value i j = ground arith

module _ (words : Words) (n start : ℕ) (small : n ≤ 4096) where
  uint_get_loop-suc :
      (left i value : ℕ)
      → start + i < 16 * n
      → i < 32
      → uint_get_loop words n start (suc left) i value
        ≡ uint_get_loop words n start left (i + 1) (get_round (bit_at words (start + i)) value i)
  unfolding uint_get_loop get_round
  uint_get_loop-suc left i value h k =
      rw (position start i n small h, bit_get_in_range words n (start + i) h, shifted-one i k)

  digit-uint_get_loop :
      (left i value j : ℕ)
      → value < 2 ^ i
      → start + (i + left) ≤ 16 * n
      → i + left ≤ 32
      → digit (uint_get_loop words n start left i value) j
        ≡ (if in_range i left j then to_digit (bit_at words (start + j)) else digit value j)
  unfolding uint_get_loop
  digit-uint_get_loop zero i value j v h k = ground arith
  digit-uint_get_loop (suc left) i value j v h k =
      rw (uint_get_loop-suc left i value (omega arith) (omega arith)) (
        ground (
          arith,
          digit-uint_get_loop left (i + 1) (get_round (bit_at words (start + i)) value i) j
              (get_round-lt (bit_at words (start + i)) value i v) (omega arith) (omega arith),
          digit-get_round (bit_at words (start + i)) value i j,
          digit-ge i value j v,
          ap (λ (t : ℕ). bit_at words (start + t)) {x = i} {y = j},
        ))

  uint_get_loop-lt :
      (left i e value : ℕ)
      → i + left ≡ e
      → value < 2 ^ i
      → start + e ≤ 16 * n
      → e ≤ 32
      → uint_get_loop words n start left i value < 2 ^ e
  unfolding uint_get_loop
  uint_get_loop-lt zero i e value ie v h k = let same_end : e ≡ i = omega arith in rw same_end v
  uint_get_loop-lt (suc left) i e value ie v h k =
      rw (uint_get_loop-suc left i value (omega arith) (omega arith)) (
        uint_get_loop-lt left (i + 1) e (get_round (bit_at words (start + i)) value i) (omega arith)
          (get_round-lt (bit_at words (start + i)) value i v) h k)

  -- Digit `j` of the value read is bit `start + j` of the array, and the value has `len` digits.
  pub digit-uint_get :
      (len j : ℕ)
      → start + len ≤ 16 * n
      → len ≤ 32
      → digit (uint_get words n start len) j
        ≡ (if ltb j len then to_digit (bit_at words (start + j)) else 0)
  unfolding uint_get
  digit-uint_get len j h k =
      ground (
        arith,
        digit-uint_get_loop len 0 0 j (omega arith) (omega arith) (omega arith),
        digit-zero j,
      )

  pub uint_get-lt :
      (len : ℕ) → start + len ≤ 16 * n → len ≤ 32 → uint_get words n start len < 2 ^ len
  unfolding uint_get
  uint_get-lt len h k = uint_get_loop-lt len 0 len 0 (omega arith) (omega arith) h k

-- The value of a field depends on its bits alone, wherever they stand.
pub uint_get_ext :
    {n m : ℕ} (xs ys : Words) (start start' len : ℕ)
    → n ≤ 4096
    → m ≤ 4096
    → start + len ≤ 16 * n
    → start' + len ≤ 16 * m
    → len ≤ 32
    → ((j : ℕ) → j < len → bit_at xs (start + j) ≡ bit_at ys (start' + j))
    → uint_get xs n start len ≡ uint_get ys m start' len
uint_get_ext {n} {m} xs ys start start' len sn sm hn hm k e =
    digit_ext len _ _ (uint_get-lt xs n start sn len hn k) (uint_get-lt ys m start' sm len hm k)
      λ j p.
        digit-uint_get xs n start sn len j hn k
        ∙ ap (λ b. if ltb j len then to_digit b else 0) (e j p)
        ∙ sym (digit-uint_get ys m start' sm len j hm k)

-- A digit of a field, as a test, is a bit of the array.
pub test-uint_get :
    (words : Words) (n start len q : ℕ)
    → n ≤ 4096
    → start + len ≤ 16 * n
    → len ≤ 32
    → in_range start len q ≡ true
    → (digit (uint_get words n start len) (q - start) == 1) ≡ bit_at words q
test-uint_get words n start len q small h k e = ground (
  arith,
  digit-uint_get words n start small len (q - start) h k,
  ap (bit_at words) {x = start + (q - start)} {y = q},
)
