-- ===== src/Base/Bits.antt =====
-- The binary digits of a number, and the digit of each bit operation of C at every width.
use Prim.Native.Nat.{digits, bit_and-bitwise, bit_or-bitwise, bit_xor-bitwise, differ}
use native.Mathlib.Nat.{pow-suc, mod-add-div', two-pow-succ, mod-lt, one-le-pow, mod-eq_of_lt}
use native.Mathlib.Nat.{add-mul-mod_self_right}
use daikin_d3net.Base.{ℕ, zero, suc, ◌+◌, ◌-◌, ◌*◌, ◌/◌, ◌%◌, ◌^◌, ◌≤◌, ◌<◌, min, max}
use daikin_d3net.Base.{bit_and, bit_or, bit_xor, ◌≡◌, refl, sym, arith}
use daikin_d3net.Base.{◌==◌, if◌then◌else◌, ap, ◌∙◌}

-- The digit of `a` of weight `2 ^ j`.
abbrev pub digit : ℕ → ℕ → ℕ
digit a zero = a % 2
digit a (suc j) = digit (a / 2) j

-- The three bit operations go through the digits in one way: `f` on the digits of both, and `z` on
-- what is left of the second number when the first is used up.
module _ (z : ℕ → ℕ) (f : ℕ → ℕ → ℕ) where
  used_up : (rounds b : ℕ) → digits z f rounds 0 b ≡ z b
  used_up zero b = refl
  used_up (suc rounds) b = refl

  -- Any number of rounds that covers the first number will do.
  enough_rounds : (a k l b : ℕ) → a ≤ k → a ≤ l → digits z f k a b ≡ digits z f l a b
  enough_rounds zero k l b hk hl = used_up k b ∙ sym (used_up l b)
  enough_rounds (suc a) zero l b hk hl = absurd (omega arith)
  enough_rounds (suc a) (suc k) zero b hk hl = absurd (omega arith)
  enough_rounds (suc a) (suc k) (suc l) b hk hl =
      let halves = enough_rounds (suc a / 2) k l (b / 2) (omega arith) (omega arith) in rw halves

  halving :
      ((b : ℕ) → z b ≡ z (b / 2) * 2 + f 0 (b % 2))
      → (a b : ℕ) → digits z f a a b ≡ digits z f (a / 2) (a / 2) (b / 2) * 2 + f (a % 2) (b % 2)
  halving base zero b = base b
  halving base (suc a) b =
      omega (arith, enough_rounds (suc a / 2) a (suc a / 2) (b / 2) (omega arith) (omega arith))

bit_and_step : (x y : ℕ) → bit_and x y ≡ bit_and (x / 2) (y / 2) * 2 + min (x % 2) (y % 2)
bit_and_step x y = simp bit_and-bitwise (halving (λ _. 0) min (λ b. omega arith) x y)

bit_or_step : (x y : ℕ) → bit_or x y ≡ bit_or (x / 2) (y / 2) * 2 + max (x % 2) (y % 2)
bit_or_step x y = simp bit_or-bitwise (halving (λ b. b) max (λ b. omega arith) x y)

no_common_digits : (rounds x : ℕ) → digits (λ _. 0) min rounds x 0 ≡ 0
no_common_digits zero x = refl
no_common_digits (suc rounds) zero = refl
no_common_digits (suc rounds) (suc x) = omega (arith, no_common_digits rounds (suc x / 2))

bit_and-zero : (x : ℕ) → bit_and x 0 ≡ 0
bit_and-zero x = simp bit_and-bitwise (no_common_digits x x)

-- The digit of an exclusive or.
abbrev pub parity : ℕ → ℕ → ℕ
parity x y = (x + y) % 2

differ-eq-parity : (x y : ℕ) → x < 2 → y < 2 → differ x y ≡ parity x y
differ-eq-parity zero y p q = omega arith
differ-eq-parity (suc zero) zero p q = refl
differ-eq-parity (suc zero) (suc zero) p q = refl
differ-eq-parity (suc zero) (suc (suc y)) p q = absurd (omega arith)
differ-eq-parity (suc (suc x)) y p q = absurd (omega arith)

bit_xor_step : (x y : ℕ) → bit_xor x y ≡ bit_xor (x / 2) (y / 2) * 2 + parity (x % 2) (y % 2)
bit_xor_step x y =
    let xors : bit_xor x y ≡ bit_xor (x / 2) (y / 2) * 2 + differ (x % 2) (y % 2) =
      simp bit_xor-bitwise (halving (λ b. b) differ (λ b. omega arith) x y) in
    omega (arith, xors, differ-eq-parity (x % 2) (y % 2) (omega arith) (omega arith))

pub digit-lt : (a j : ℕ) → digit a j < 2
digit-lt a zero = omega arith
digit-lt a (suc j) = digit-lt (a / 2) j

pub digit-bit_and : (j a b : ℕ) → digit (bit_and a b) j ≡ min (digit a j) (digit b j)
digit-bit_and zero a b = omega (arith, bit_and_step a b)
digit-bit_and (suc j) a b =
    let half : bit_and a b / 2 ≡ bit_and (a / 2) (b / 2) = omega (arith, bit_and_step a b) in
    rw half (digit-bit_and j (a / 2) (b / 2))

pub digit-bit_or : (j a b : ℕ) → digit (bit_or a b) j ≡ max (digit a j) (digit b j)
digit-bit_or zero a b = omega (arith, bit_or_step a b)
digit-bit_or (suc j) a b =
    let half : bit_or a b / 2 ≡ bit_or (a / 2) (b / 2) = omega (arith, bit_or_step a b) in
    rw half (digit-bit_or j (a / 2) (b / 2))

pub digit-bit_xor : (j a b : ℕ) → digit (bit_xor a b) j ≡ parity (digit a j) (digit b j)
digit-bit_xor zero a b = omega (arith, bit_xor_step a b)
digit-bit_xor (suc j) a b =
    let half : bit_xor a b / 2 ≡ bit_xor (a / 2) (b / 2) = omega (arith, bit_xor_step a b) in
    rw half (digit-bit_xor j (a / 2) (b / 2))

pub digit-zero : (j : ℕ) → digit 0 j ≡ 0
digit-zero zero = refl
digit-zero (suc j) = digit-zero j

pub digit-pow : (k j : ℕ) → digit (2 ^ k) j ≡ (if k == j then 1 else 0)
digit-pow zero zero = refl
digit-pow zero (suc j) = ground (arith, digit-zero j)
digit-pow (suc k) zero = ground (arith, pow-suc 2 k)
digit-pow (suc k) (suc j) =
    let half : 2 ^ suc k / 2 ≡ 2 ^ k = omega (arith, pow-suc 2 k) in
    rw half (digit-pow k j ∙ ground arith)

-- Masking with one digit.
pub bit_and-pow : (k a : ℕ) → bit_and a (2 ^ k) ≡ digit a k * 2 ^ k
bit_and-pow zero a = omega (arith, bit_and_step a 1, bit_and-zero (a / 2))
bit_and-pow (suc k) a =
    let half : 2 ^ suc k / 2 ≡ 2 ^ k = omega (arith, pow-suc 2 k) in
    omega (
      arith,
      bit_and_step a (2 ^ suc k),
      pow-suc 2 k,
      ap (bit_and (a / 2)) half,
      bit_and-pow k (a / 2),
      ap (λ (t : ℕ). digit (a / 2) k * t) (pow-suc 2 k),
    )

-- The digits of the complement on `n` digits.
pub digit-complement : (n j a : ℕ) → a < 2 ^ n → j < n → digit (2 ^ n - 1 - a) j ≡ 1 - digit a j
digit-complement zero j a h p = absurd (omega arith)
digit-complement (suc n) zero a h p = omega (arith, pow-suc 2 n)
digit-complement (suc n) (suc j) a h p =
    let half : (2 ^ suc n - 1 - a) / 2 ≡ 2 ^ n - 1 - a / 2 = omega (arith, pow-suc 2 n) in
    rw half (digit-complement n j (a / 2) (omega (arith, pow-suc 2 n)) (omega arith))

-- A number of `n` digits is known by them.
pub digit_ext :
    (n a b : ℕ) → a < 2 ^ n → b < 2 ^ n → ((j : ℕ) → j < n → digit a j ≡ digit b j) → a ≡ b
digit_ext zero a b p q h = omega arith
digit_ext (suc n) a b p q h =
    let halves : a / 2 ≡ b / 2 =
      digit_ext n (a / 2) (b / 2) (omega (arith, pow-suc 2 n)) (omega (arith, pow-suc 2 n))
        (λ j k. h (suc j) (omega arith)) in
    let low : a % 2 ≡ b % 2 = h 0 (omega arith) in omega arith

-- Digits from `n` on are zero.
pub digit-ge : (n a j : ℕ) → a < 2 ^ n → n ≤ j → digit a j ≡ 0
digit-ge zero a j h p = rw zero_lem (digit-zero j)
  where
    zero_lem : a ≡ 0
    zero_lem = omega arith
digit-ge (suc n) a zero h p = absurd (omega arith)
digit-ge (suc n) a (suc j) h p = digit-ge n (a / 2) j (omega (arith, pow-suc 2 n)) (omega arith)

pub bit_and-lt : (n a b : ℕ) → a < 2 ^ n → bit_and a b < 2 ^ n
bit_and-lt zero a b h = let e : a ≡ 0 = omega arith in rw (e, bit_and-bitwise 0 b) (omega arith)
bit_and-lt (suc n) a b h =
    omega (arith, pow-suc 2 n, bit_and_step a b, bit_and-lt n (a / 2) (b / 2))

pub bit_or-lt : (n a b : ℕ) → a < 2 ^ n → b < 2 ^ n → bit_or a b < 2 ^ n
bit_or-lt zero a b h k =
    let e : a ≡ 0 = omega arith in let f : b ≡ 0 = omega arith in rw (e, f) (omega arith)
bit_or-lt (suc n) a b h k = omega (arith, pow-suc 2 n, bit_or_step a b, bit_or-lt n (a / 2) (b / 2))

pub bit_xor-lt : (n a b : ℕ) → a < 2 ^ n → b < 2 ^ n → bit_xor a b < 2 ^ n
bit_xor-lt zero a b h k =
    let e : a ≡ 0 = omega arith in let f : b ≡ 0 = omega arith in rw (e, f) (omega arith)
bit_xor-lt (suc n) a b h k =
    omega (arith, pow-suc 2 n, bit_xor_step a b, bit_xor-lt n (a / 2) (b / 2))

mod-pow-suc : (n a : ℕ) → a % 2 ^ suc n ≡ a / 2 % 2 ^ n * 2 + a % 2
mod-pow-suc n a =
    let low = a / 2 % 2 ^ n * 2 + a % 2 in
    let whole : a ≡ low + a / 2 / 2 ^ n * 2 ^ suc n =
      omega
        (arith, mod-add-div' (a / 2) (2 ^ n), ap (λ (t : ℕ). a / 2 / 2 ^ n * t) (two-pow-succ n)) in
    let fits : low < 2 ^ suc n =
      omega (arith, two-pow-succ n, mod-lt (a / 2) (one-le-pow n 2 (omega arith))) in
    ap (λ (t : ℕ). t % 2 ^ suc n) whole
    ∙ (add-mul-mod_self_right low (a / 2 / 2 ^ n) (2 ^ suc n) ∙ mod-eq_of_lt fits)

-- The digits of a remainder by a power of two.
pub digit-mod-pow : (n j a : ℕ) → j < n → digit (a % 2 ^ n) j ≡ digit a j
digit-mod-pow zero j a h = absurd (omega arith)
digit-mod-pow (suc n) zero a h = omega (arith, mod-pow-suc n a)
digit-mod-pow (suc n) (suc j) a h =
    let half : a % 2 ^ suc n / 2 ≡ a / 2 % 2 ^ n = omega (arith, mod-pow-suc n a) in
    rw half (digit-mod-pow n j (a / 2) (omega arith))

bit_or-zero_fuel : (n a : ℕ) → a ≤ n → bit_or a 0 ≡ a
bit_or-zero_fuel n zero h = refl
bit_or-zero_fuel zero (suc a) h = absurd (omega arith)
bit_or-zero_fuel (suc n) (suc a) h =
    omega (arith, bit_or_step (suc a) 0, bit_or-zero_fuel n (suc a / 2) (omega arith))

-- `(q << k) | r` and `r | (q << k)` are a sum when `r` fits `k` bits.
pub bit_or_fields : (k q r : ℕ) → r < 2 ^ k → bit_or (q * 2 ^ k) r ≡ q * 2 ^ k + r
bit_or_fields zero q r h =
    let e : r ≡ 0 = omega arith in
    rw e (omega (arith, bit_or-zero_fuel (q * 1) (q * 1) (omega arith)))
bit_or_fields (suc k) q r h = ground (
  arith,
  bit_or_step (q * 2 ^ suc k) r,
  two-pow-succ k,
  ap (λ (t : ℕ). q * t) (two-pow-succ k),
  bit_or_fields k q (r / 2) (omega (arith, two-pow-succ k)),
  ap (λ (t : ℕ). bit_or t (r / 2)) {x = q * 2 ^ suc k / 2} {y = q * 2 ^ k},
)

pub bit_or_comm : (n a b : ℕ) → a < 2 ^ n → b < 2 ^ n → bit_or a b ≡ bit_or b a
bit_or_comm n a b h k =
    digit_ext n (bit_or a b) (bit_or b a) (bit_or-lt n a b h k) (bit_or-lt n b a k h)
      λ j p. omega (arith, digit-bit_or j a b, digit-bit_or j b a)
