-- ===== src/Modbus/CrcLaws.antt =====
-- The checksum is a 16-bit number, and no change of one byte of a message goes unnoticed.
use daikin_d3net.Base.{
  ℕ, zero, suc, ◌/◌, ◌%◌, ◌^◌, ◌<◌, bit_xor, ◌≡◌, ◌≢◌, refl, sym, ap, ◌∙◌, arith,
}
use daikin_d3net.Base.{List, [], ◌∷◌, ◌++◌, if◌then◌else◌, ◌==◌, All}
use daikin_d3net.Base.Bits.{digit, digit-bit_xor, digit_ext, bit_xor-lt, bit_and-pow, digit-lt}
use daikin_d3net.Base.Bits.{digit-ge}
use native.Mathlib.Nat.{mod-eq_of_lt}
use daikin_d3net.Modbus.Crc.{crc_shift, crc_rounds, crc_from, crc16}

crc_shift_lem :
    (crc : ℕ)
    → crc < 2 ^ 16
    → crc_shift crc ≡ (if crc % 2 == 1 then bit_xor (crc / 2) 0xA001 else crc / 2)
unfolding crc_shift
crc_shift_lem crc h = ground (
  arith,
  bit_and-pow 0 crc,
  mod-eq_of_lt (bit_xor-lt 16 (crc / 2) 0xA001 (omega arith) (omega arith)),
)

crc_shift-lt : (crc : ℕ) → crc < 2 ^ 16 → crc_shift crc < 2 ^ 16
crc_shift-lt crc h =
    ground (arith, crc_shift_lem crc h, bit_xor-lt 16 (crc / 2) 0xA001 (omega arith) (omega arith))

-- The top bit of the result is the bit that was shifted out, since 0xA001 has it.
crc_shift-top : (crc : ℕ) → crc < 2 ^ 16 → digit (crc_shift crc) 15 ≡ crc % 2
crc_shift-top crc h = ground (
  arith,
  crc_shift_lem crc h,
  digit-bit_xor 15 (crc / 2) 0xA001,
  digit-ge 15 (crc / 2) 15 (omega arith) (omega arith),
  ap (λ x. digit x 15) (crc_shift_lem crc h),
)

bit_xor_cancel : (a b c : ℕ) → a < 2 ^ 16 → b < 2 ^ 16 → bit_xor a c ≡ bit_xor b c → a ≡ b
bit_xor_cancel a b c ha hb e = digit_ext 16 a b ha hb λ j p. omega (
  arith,
  digit-bit_xor j a c,
  digit-bit_xor j b c,
  ap (λ x. digit x j) e,
  digit-lt a j,
  digit-lt b j,
)

crc_shift_injective : (a b : ℕ) → a < 2 ^ 16 → b < 2 ^ 16 → crc_shift a ≡ crc_shift b → a ≡ b
crc_shift_injective a b ha hb e =
    let low : a % 2 ≡ b % 2 =
      sym (crc_shift-top a ha) ∙ (ap (λ x. digit x 15) e ∙ crc_shift-top b hb) in
    ground (
      arith,
      crc_shift_lem a ha,
      crc_shift_lem b hb,
      bit_xor_cancel (a / 2) (b / 2) 0xA001 (omega arith) (omega arith),
    )

crc_rounds-lt : (left crc : ℕ) → crc < 2 ^ 16 → crc_rounds left crc < 2 ^ 16
unfolding crc_rounds
crc_rounds-lt zero crc h = h
crc_rounds-lt (suc left) crc h = crc_rounds-lt left (crc_shift crc) (crc_shift-lt crc h)

crc_rounds_injective :
    (left a b : ℕ) → a < 2 ^ 16 → b < 2 ^ 16 → crc_rounds left a ≡ crc_rounds left b → a ≡ b
unfolding crc_rounds
crc_rounds_injective zero a b ha hb e = e
crc_rounds_injective (suc left) a b ha hb e = crc_shift_injective a b ha hb (
    crc_rounds_injective left (crc_shift a) (crc_shift b) (crc_shift-lt a ha) (crc_shift-lt b hb) e)

-- The bytes of a message.
abbrev pub IsBytes : List ℕ → Type 0
IsBytes bytes = All (λ x. x < 256) bytes

pub crc_from-lt :
    (crc : ℕ) (bytes : List ℕ) → crc < 2 ^ 16 → IsBytes bytes → crc_from crc bytes < 2 ^ 16
unfolding crc_from
crc_from-lt crc [] h v = h
crc_from-lt crc (x ∷ bytes) h v =
    crc_from-lt (crc_rounds 8 (bit_xor crc x)) bytes
      (crc_rounds-lt 8 (bit_xor crc x) (bit_xor-lt 16 crc x h (omega arith))) v.1

-- Equal bytes keep different checksums apart.
crc_from_injective :
    (bytes : List ℕ) (a b : ℕ)
    → a < 2 ^ 16
    → b < 2 ^ 16
    → IsBytes bytes
    → crc_from a bytes ≡ crc_from b bytes
    → a ≡ b
unfolding crc_from
crc_from_injective [] a b ha hb v e = e
crc_from_injective (x ∷ bytes) a b ha hb v e =
    let la = bit_xor-lt 16 a x ha (omega arith) in
    let lb = bit_xor-lt 16 b x hb (omega arith) in
    let same =
      crc_from_injective bytes _ _ (crc_rounds-lt 8 (bit_xor a x) la)
        (crc_rounds-lt 8 (bit_xor b x) lb) v.1 e in
    bit_xor_cancel a b x ha hb (crc_rounds_injective 8 (bit_xor a x) (bit_xor b x) la lb same)

crc_from-append :
    (crc : ℕ) (xs ys : List ℕ) → crc_from crc (xs ++ ys) ≡ crc_from (crc_from crc xs) ys
unfolding crc_from
crc_from-append crc [] ys = refl
crc_from-append crc (x ∷ xs) ys = crc_from-append (crc_rounds 8 (bit_xor crc x)) xs ys

bit_xor_cancel_left : (c a b : ℕ) → a < 2 ^ 16 → b < 2 ^ 16 → bit_xor c a ≡ bit_xor c b → a ≡ b
bit_xor_cancel_left c a b ha hb e = digit_ext 16 a b ha hb λ j p. omega (
  arith,
  digit-bit_xor j c a,
  digit-bit_xor j c b,
  ap (λ x. digit x j) e,
  digit-lt a j,
  digit-lt b j,
)

pub crc16-lt : (bytes : List ℕ) → IsBytes bytes → crc16 bytes < 2 ^ 16
unfolding crc16
crc16-lt bytes v = crc_from-lt 0xFFFF bytes (omega arith) v

-- The byte at a place can be told from the checksum and the bytes around it.
crc16_injective :
    (xs ys : List ℕ) (a b : ℕ)
    → IsBytes xs
    → IsBytes ys
    → a < 256
    → b < 256
    → crc16 (xs ++ a ∷ ys) ≡ crc16 (xs ++ b ∷ ys)
    → a ≡ b
unfolding crc16 crc_from
crc16_injective xs ys a b vx vy ha hb e =
    let c = crc_from 0xFFFF xs in
    let hc = crc_from-lt 0xFFFF xs (omega arith) vx in
    let la = bit_xor-lt 16 c a hc (omega arith) in
    let lb = bit_xor-lt 16 c b hc (omega arith) in
    let after : crc_from (crc_rounds 8 (bit_xor c a)) ys
        ≡ crc_from (crc_rounds 8 (bit_xor c b)) ys =
      sym (crc_from-append 0xFFFF xs (a ∷ ys)) ∙ (e ∙ crc_from-append 0xFFFF xs (b ∷ ys)) in
    let same =
      crc_from_injective ys _ _ (crc_rounds-lt 8 (bit_xor c a) la)
        (crc_rounds-lt 8 (bit_xor c b) lb) vy after in
    bit_xor_cancel_left c a b (omega arith) (omega arith)
      (crc_rounds_injective 8 (bit_xor c a) (bit_xor c b) la lb same)

-- Two messages of bytes that differ in exactly one byte have different checksums: a corrupted byte
-- is always detected.
pub crc16_detects :
    (xs ys : List ℕ) (a b : ℕ)
    → IsBytes xs
    → IsBytes ys
    → a < 256
    → b < 256
    → a ≢ b
    → crc16 (xs ++ a ∷ ys) ≢ crc16 (xs ++ b ∷ ys)
crc16_detects xs ys a b vx vy ha hb differ e = differ (crc16_injective xs ys a b vx vy ha hb e)
