-- ===== src/Codec/View.antt =====
-- An array of 16-bit words as a row of bits: what d3net_bit_get and d3net_bit_set do to it.
use native.Mathlib.Nat.{mod-eq_of_lt, pow-le-pow_right, two-pow-succ, one-le-pow}
use daikin_d3net.Base.{ℕ, ◌+◌, ◌*◌, ◌/◌, ◌%◌, ◌^◌, ◌≤◌, ◌<◌, bit_and, bit_or}
use daikin_d3net.Base.{◌≡◌, sym, ap, ◌∙◌, ◌⊎◌, inl, inr, arith, Bool, true, false}
use daikin_d3net.Base.{get_or-set_self, get_or-set_ne, get_or_ext, All, All-set, All-get_or}
use daikin_d3net.Base.{
  ◌==◌, if◌then◌else◌, get_or, set, length, length-set, Bool-cases, ℕ_discrete, dec_lt,
}
use daikin_d3net.Base.Bits.{
  digit, digit-bit_or, digit-bit_and, digit-pow, digit-complement, digit-lt,
}
use daikin_d3net.Base.Bits.{bit_and-pow, digit_ext, bit_and-lt, bit_or-lt}
use daikin_d3net.Codec.{Words, ◌!=◌, same, valid_bit, bit_mask, inverted, bit_get, bit_set}

-- The bit at a position of the array.
unfoldable pub bit_at : Words → ℕ → Bool
bit_at words p = digit (get_or words (p / 16) 0) (p % 16) == 1

pub two_pow_le : (k n : ℕ) → k < n → 2 ^ k < 2 ^ n
two_pow_le k n h =
    omega (
      arith,
      two-pow-succ k,
      one-le-pow k 2 (omega arith),
      pow-le-pow_right {n = 2} (omega arith) h,
    )

mask-eq : (p : ℕ) → bit_mask p ≡ 2 ^ (p % 16)
mask-eq p = mod-eq_of_lt (two_pow_le (p % 16) 16 (omega arith))

digit-set_word : (w k j : ℕ) → digit (bit_or w (2 ^ k)) j ≡ (if k == j then 1 else digit w j)
digit-set_word w k j = ground (arith, digit-bit_or j w (2 ^ k), digit-pow k j, digit-lt w j)

digit-clear_word :
    (w k j : ℕ)
    → k < 16
    → j < 16
    → digit (bit_and w (inverted (2 ^ k))) j ≡ (if k == j then 0 else digit w j)
digit-clear_word w k j hk hj = ground (
  arith,
  digit-bit_and j w (inverted (2 ^ k)),
  digit-complement 16 j (2 ^ k) (two_pow_le k 16 hk) hj,
  digit-pow k j,
  digit-lt w j,
)

pub test_word : (w k : ℕ) → (bit_and w (2 ^ k) != 0) ≡ (digit w k == 1)
test_word w k = ground (
  arith,
  bit_and-pow k w,
  digit-lt w k,
  one-le-pow k 2,
  ap (λ (t : ℕ). t * 2 ^ k) {x = digit w k} {y = 1},
  ap (λ (t : ℕ). t * 2 ^ k) {x = digit w k} {y = 0},
)

-- Reading a bit reads the view; past the last word it reads false.
pub bit_get-eq-bit_at :
    (words : Words) (n p : ℕ)
    → bit_get words n p ≡ (if valid_bit n p then bit_at words p else false)
unfolding bit_get bit_at
bit_get-eq-bit_at words n p =
    rw (mask-eq p, test_word (get_or words (p / 16) 0) (p % 16)) (ground arith)

-- An array of `n` words of 16 bits. The address space of a position, 2 ^ 16 bits, covers it.
pub record IsWords (n : ℕ) (words : Words) : Type 0 where
  pub count : length words ≡ n
  pub small : n ≤ 4096
  pub fit : All (λ w. w < 2 ^ 16) words

-- One step of bit_set on the word that holds the bit.
set_value : Bool → ℕ → ℕ → ℕ
set_value b w k = if b then bit_or w (2 ^ k) else bit_and w (inverted (2 ^ k))

digit-set_value :
    (b : Bool) (w k j : ℕ)
    → k < 16
    → j < 16
    → (digit (set_value b w k) j == 1) ≡ (if j == k then b else digit w j == 1)
unfolding set_value
digit-set_value true w k j hk hj = ground (arith, digit-set_word w k j)
digit-set_value false w k j hk hj = ground (arith, digit-clear_word w k j hk hj)

set_value-lt : (b : Bool) (w k : ℕ) → k < 16 → w < 2 ^ 16 → set_value b w k < 2 ^ 16
unfolding set_value
set_value-lt true w k hk hw = bit_or-lt 16 w (2 ^ k) hw (two_pow_le k 16 hk)
set_value-lt false w k hk hw = bit_and-lt 16 w (inverted (2 ^ k)) hw

-- The call in terms of the view: nothing on the same value, else a write of one word.
bit_set_lem :
    (words : Words) (n p : ℕ) (b dirty : Bool)
    → n ≤ 4096
    → p < 16 * n
    → bit_set words n p b dirty ≡ (
        if same (bit_at words p) b
        then (words, dirty)
        else (set words (p / 16) (set_value b (get_or words (p / 16) 0) (p % 16)), true))
unfolding bit_set set_value bit_at
bit_set_lem words n p b dirty small h =
    let idx : p / 16 % 2 ^ 16 ≡ p / 16 = omega arith in
    rw (idx, mask-eq p, test_word (get_or words (p / 16) 0) (p % 16)) (ground arith)

-- Out of range nothing is written.
pub bit_set_out_of_range :
    (words : Words) (n p : ℕ) (b dirty : Bool)
    → 16 * n ≤ p
    → bit_set words n p b dirty ≡ (words, dirty)
unfolding bit_set
bit_set_out_of_range words n p b dirty h = ground arith

bit_at-set :
    (words : Words) (p q : ℕ) (b : Bool)
    → p / 16 < length words
    → bit_at (set words (p / 16) (set_value b (get_or words (p / 16) 0) (p % 16))) q
      ≡ (if q == p then b else bit_at words q)
unfolding bit_at
bit_at-set words p q b h = elim (ℕ_discrete (p / 16) (q / 16)) [
  | yes e ↦
      let w = get_or words (p / 16) 0 in
      rw (sym e, get_or-set_self words (p / 16) (set_value b w (p % 16)) 0 h)
        (digit-set_value b w (p % 16) (q % 16) (omega arith) (omega arith) ∙ ground arith)
  | no ne ↦
      let w = get_or words (p / 16) 0 in
      rw (get_or-set_ne words (p / 16) (q / 16) (set_value b w (p % 16)) 0 ne) (ground arith)
]

module _ {n : ℕ} {words : Words} (v : IsWords n words) (p : ℕ) (b dirty : Bool) where
  pub bit_set-IsWords : IsWords n (bit_set words n p b dirty).0
  bit_set-IsWords = elim (dec_lt p (16 * n)) [
    | yes h ↦
        let w = get_or words (p / 16) 0 in
        let x = set_value b w (p % 16) in
        let fits : x < 2 ^ 16 =
          set_value-lt b w (p % 16) (omega arith)
            (All-get_or (λ y. y < 2 ^ 16) words (p / 16) 0 v.fit (omega arith)) in
        let written : IsWords n (set words (p / 16) x) = record {
          count = length-set words (p / 16) x ∙ v.count;
          small = v.small;
          fit = All-set (λ y. y < 2 ^ 16) words (p / 16) x v.fit fits;
        } in
        rw (bit_set_lem words n p b dirty v.small h)
          (elim (Bool-cases (same (bit_at words p) b)) [ inl e ↦ rw e v | inr e ↦ rw e written ])
    | no h ↦ rw (bit_set_out_of_range words n p b dirty (omega arith)) v
  ]

  -- d3net_bit_set on a position inside the array changes that bit of the array and no other.
  pub bit_at-bit_set :
      (q : ℕ)
      → p < 16 * n
      → bit_at (bit_set words n p b dirty).0 q ≡ (if q == p then b else bit_at words q)
  bit_at-bit_set q h = rw (bit_set_lem words n p b dirty v.small h) (
      ground
        (arith, bit_at-set words p q b (omega (arith, v.count)), ap (bit_at words) {x = q} {y = p}))

  pub bit_set_same :
      p < 16 * n → same (bit_at words p) b ≡ true → (bit_set words n p b dirty).0 ≡ words
  bit_set_same h e = rw (bit_set_lem words n p b dirty v.small h, e)

  -- d3net_bit_set on a position inside the array raises the dirty flag when the bit changes, and
  -- otherwise leaves the flag as it was.
  pub dirty-bit_set :
      p < 16 * n → (bit_set words n p b dirty).1 ≡ (if same (bit_at words p) b then dirty else true)
  dirty-bit_set h = rw (bit_set_lem words n p b dirty v.small h) (ground arith)

-- An array and its dirty flag, after against before: either both are as they were, or the flag is
-- up. So a flag that is down vouches for the array.
abbrev pub Tracks : Words × Bool → Words × Bool → Type 0
Tracks before after = (after ≡ before) ⊎ (after.1 ≡ true)

pub Tracks-trans : {a b c : Words × Bool} → Tracks a b → Tracks b c → Tracks a c
Tracks-trans (inl e) (inl f) = inl (f ∙ e)
Tracks-trans (inr e) (inl f) = inr (ap (λ t. t.1) f ∙ e)
Tracks-trans h (inr f) = inr f

pub Tracks-down : {a b : Words × Bool} → Tracks a b → b.1 ≡ false → b ≡ a
Tracks-down (inl e) h = e
Tracks-down (inr e) h = cc

pub bit_set-Tracks :
    {n : ℕ} {words : Words}
    → IsWords n words
    → (p : ℕ) (b dirty : Bool) → Tracks (words, dirty) (bit_set words n p b dirty)
bit_set-Tracks {n} {words} v p b dirty = elim (dec_lt p (16 * n)) [
  | yes h ↦ rw (bit_set_lem words n p b dirty v.small h) (ground arith)
  | no h ↦ inl (bit_set_out_of_range words n p b dirty (omega arith))
]

digit_eq_of_tests : (a b j : ℕ) → (digit a j == 1) ≡ (digit b j == 1) → digit a j ≡ digit b j
digit_eq_of_tests a b j h = ground (arith, digit-lt a j, digit-lt b j)

-- Arrays of words are equal when all their bits are.
pub words_ext :
    {n : ℕ} {xs ys : Words}
    → IsWords n xs
    → IsWords n ys
    → ((p : ℕ) → p < 16 * n → bit_at xs p ≡ bit_at ys p)
    → xs ≡ ys
unfolding bit_at
words_ext {n} {xs} {ys} v w h = get_or_ext 0 xs ys (v.count ∙ sym w.count) λ i p.
    digit_ext 16 (get_or xs i 0) (get_or ys i 0) (word-lt xs i v.fit) (word-lt ys i w.fit) λ j q.
      let hi : (i * 16 + j) / 16 ≡ i = omega arith in
      let lo : (i * 16 + j) % 16 ≡ j = omega arith in
      digit_eq_of_tests (get_or xs i 0) (get_or ys i 0) j
        (rw (hi, lo) at (h (i * 16 + j) (omega (arith, v.count))))
  where
    word-lt : (zs : Words) (i : ℕ) → All (λ y. y < 2 ^ 16) zs → get_or zs i 0 < 2 ^ 16
    word-lt zs i f = All-get_or (λ y. y < 2 ^ 16) zs i 0 f (omega arith)
