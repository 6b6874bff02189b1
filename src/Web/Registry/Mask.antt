-- ===== src/Web/Registry/Mask.antt =====
-- The mask of registered units as a set of indexes.
use native.Mathlib.Nat.{one-le-pow, pow-suc, pow-le-pow_right}
use daikin_d3net.Base.{ℕ, zero, suc, ◌-◌, ◌*◌, ◌^◌, ◌<◌, ◌≤◌, ◌≡◌, arith, Bool, false, ◌==◌}
use daikin_d3net.Base.{List, Option, leb, if◌then◌else◌}
use daikin_d3net.Base.{Bool-cases, inl, inr}
use daikin_d3net.Base.Bits.{
  digit, digit-lt, digit-bit_and, digit-bit_or, digit-pow, digit-complement, bit_and-pow,
}
use daikin_d3net.Codec.{◌!=◌}
use daikin_d3net.Config.{AppConfig}
use daikin_d3net.Web.Registry.{reg_is_set, reg_set}

bit_test : (d weight : ℕ) → d < 2 → 1 ≤ weight → (d * weight != 0) ≡ (d == 1)
bit_test zero weight h p = ground arith
bit_test (suc zero) weight h p = ground arith
bit_test (suc (suc d)) weight h p = absurd (omega arith)

-- The test of a bit is that of its digit.
reg_is_set-digit :
    (cfg : AppConfig) (i : ℕ)
    → reg_is_set cfg i ≡ (if leb 64 i then false else digit cfg.registered_mask i == 1)
unfolding reg_is_set
reg_is_set-digit cfg i = rw (
  bit_and-pow i cfg.registered_mask,
  bit_test (digit cfg.registered_mask i) (2 ^ i) (digit-lt cfg.registered_mask i)
      (one-le-pow i 2 (omega arith)),
)

pub pow-lt : (i : ℕ) → i < 64 → 2 ^ i < 2 ^ 64
pow-lt i h =
    let doubled : 2 ^ suc i ≤ 2 ^ 64 = pow-le-pow_right (omega arith) h in
    omega (arith, doubled, pow-suc 2 i, one-le-pow i 2 (omega arith))

-- The digits of the mask after a change.
reg_set-digit :
    (cfg : AppConfig) (i : ℕ) (on : Bool) (unit_id : Option (List ℕ)) (j : ℕ)
    → i < 64
    → j < 64
    → digit (reg_set cfg i on unit_id).registered_mask j
      ≡ (if i == j then (if on then 1 else 0) else digit cfg.registered_mask j)
unfolding reg_set
reg_set-digit cfg i on unit_id j h k =
    let a = digit-bit_or j cfg.registered_mask (2 ^ i) in
    let b = digit-bit_and j cfg.registered_mask (2 ^ 64 - 1 - 2 ^ i) in
    let c = digit-complement 64 j (2 ^ i) (pow-lt i h) k in
    ground (arith, a, b, c, digit-pow i j, digit-lt cfg.registered_mask j)

-- After a reg_set of an index below 64, reg_is_set of any index gives what was set for that index
-- and what it gave before for every other.
pub reg_is_set-reg_set :
    (cfg : AppConfig) (i : ℕ) (on : Bool) (unit_id : Option (List ℕ)) (j : ℕ)
    → i < 64
    → reg_is_set (reg_set cfg i on unit_id) j ≡ (if i == j then on else reg_is_set cfg j)
reg_is_set-reg_set cfg i on unit_id j h =
    rw (reg_is_set-digit (reg_set cfg i on unit_id) j, reg_is_set-digit cfg j)
      (elim (Bool-cases (leb 64 j)) [
        | inl e ↦ ground arith
        | inr e ↦ ground (arith, reg_set-digit cfg i on unit_id j h (ground arith))
      ])
