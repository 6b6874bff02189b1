-- ===== src/Codec/Field.antt =====
-- What d3net_uint_set writes, against the row of bits, and that d3net_uint_get reads it.
use native.Mathlib.Nat.{mod-lt, one-le-pow}
use daikin_d3net.Base.{ℕ, zero, suc, ◌+◌, ◌-◌, ◌*◌, ◌%◌, ◌^◌, ◌≤◌, ◌<◌}
use daikin_d3net.Base.{◌≡◌, refl, sym, ap, ap₂, ◌∙◌, ◌⊎◌, inl, inr, arith, Bool, true, false}
use daikin_d3net.Base.{◌==◌, if◌then◌else◌}
use daikin_d3net.Base.Bits.{digit, digit-lt, digit_ext}
use daikin_d3net.Base.Bits.{digit-mod-pow}
use daikin_d3net.Codec.{Words, same, bit_set, uint_get}
use daikin_d3net.Codec.{uint_set_loop, uint_set}
use daikin_d3net.Codec.View.{bit_at, IsWords, bit_set-IsWords, bit_at-bit_set}
use daikin_d3net.Codec.View.{dirty-bit_set, words_ext, test_word, bit_set_same, Tracks}
use daikin_d3net.Codec.Reading.{
  in_range, shifted-one, position, digit-uint_get, uint_get-lt, uint_get_ext,
}

-- What a write of the digits `i` on of `value` does.
record Wrote (n start value i left : ℕ) (words : Words) (dirty : Bool) (out : Words × Bool)
    : Type 0 where
  valid : IsWords n out.0
  bits :
      (q : ℕ)
      → bit_at out.0 q
        ≡ (if in_range (start + i) left q then digit value (q - start) == 1 else bit_at words q)
  raised : (out.1 ≡ dirty) ⊎ (out.1 ≡ true)
  changed : out.1 ≡ false → out.0 ≡ words
  kept : out.0 ≡ words → out.1 ≡ dirty

same_refl : (b c : Bool) → b ≡ c → same b c ≡ true
same_refl true c e = sym e
same_refl false c e = rw (sym e)

module _ {n start value i left : ℕ} {words words1 : Words} {dirty dirty1 : Bool}
    {out : Words × Bool}
    (b1 : (q : ℕ)
      → bit_at words1 q ≡ (if q == start + i then digit value i == 1 else bit_at words q))
    (d1 : dirty1 ≡ (if same (bit_at words (start + i)) (digit value i == 1) then dirty else true))
    (s1 : same (bit_at words (start + i)) (digit value i == 1) ≡ true → words1 ≡ words)
    (rest : Wrote n start value (i + 1) left words1 dirty1 out) where
  Wrote-suc : Wrote n start value i (suc left) words dirty out
  Wrote-suc = record {
    valid = rest.valid;
    bits = λ q.
        ground (arith, rest.bits q, b1 q, ap (λ t. digit value t == 1) {x = q - start} {y = i});
    raised = ground (arith, d1, rest.raised);
    changed = λ e. rest.changed e ∙ s1 (ground (arith, d1, rest.raised));
    kept = λ e.
        let old : words1 ≡ words = s1 (unchanged e) in
        rest.kept (e ∙ sym old) ∙ (d1 ∙ rw (unchanged e));
  }
    where
      unchanged : out.0 ≡ words → same (bit_at words (start + i)) (digit value i == 1) ≡ true
      unchanged e =
          let now : bit_at out.0 (start + i) ≡ (digit value i == 1) =
            ground (arith, rest.bits (start + i), b1 (start + i)) in
          same_refl (bit_at words (start + i)) (digit value i == 1)
            (ap (λ ws. bit_at ws (start + i)) (sym e) ∙ now)

uint_set_loop-Wrote :
    (n start value left i : ℕ) (words : Words) (dirty : Bool)
    → IsWords n words
    → start + (i + left) ≤ 16 * n
    → i + left ≤ 32
    → Wrote n start value i left words dirty (uint_set_loop words n start left i value dirty)
unfolding uint_set_loop
uint_set_loop-Wrote n start value zero i words dirty v h k = record {
  valid = v;
  bits = λ q. ground arith;
  raised = inl refl;
  changed = λ e. refl;
  kept = λ e. refl;
}
uint_set_loop-Wrote n start value (suc left) i words dirty v h k =
    let p = start + i in
    let b = digit value i == 1 in
    let in_bounds : p < 16 * n = omega arith in
    rw (position start i n v.small in_bounds, shifted-one i (omega arith), test_word value i)
      (Wrote-suc (λ q. bit_at-bit_set v p b dirty q in_bounds) (dirty-bit_set v p b dirty in_bounds)
        (bit_set_same v p b dirty in_bounds)
        (uint_set_loop-Wrote n start value left (i + 1) (bit_set words n p b dirty).0
          (bit_set words n p b dirty).1 (bit_set-IsWords v p b dirty) (omega arith) (omega arith)))

module _ {n : ℕ} {words : Words} (v : IsWords n words) (start len : ℕ)
    (inside : start + len ≤ 16 * n) (narrow : len ≤ 32) (value : ℕ) (dirty : Bool) where
  wrote : Wrote n start value 0 len words dirty (uint_set words n start len value dirty)
  unfolding uint_set
  wrote = uint_set_loop-Wrote n start value len 0 words dirty v (omega arith) (omega arith)

  pub uint_set-IsWords : IsWords n (uint_set words n start len value dirty).0
  uint_set-IsWords = wrote.valid

  -- Exactly the bits of the field are written, with the digits of the value.
  pub bit_at-uint_set :
      (q : ℕ)
      → bit_at (uint_set words n start len value dirty).0 q
        ≡ (if in_range start len q then digit value (q - start) == 1 else bit_at words q)
  bit_at-uint_set q = wrote.bits q ∙ ground arith

  pub uint_set-Tracks : Tracks (words, dirty) (uint_set words n start len value dirty)
  uint_set-Tracks = tracks (uint_set words n start len value dirty) wrote.raised wrote.changed
    where
      tracks :
          (out : Words × Bool)
          → (out.1 ≡ dirty) ⊎ (out.1 ≡ true)
          → (out.1 ≡ false → out.0 ≡ words)
          → Tracks (words, dirty) out
      tracks (ws, true) r c = inr refl
      tracks (ws, false) r c = ground (arith, c refl)

  -- Writing the value that is there changes nothing.
  pub uint_set_same :
      uint_get words n start len ≡ value % 2 ^ len
      → uint_set words n start len value dirty ≡ (words, dirty)
  uint_set_same e =
      let same_bits : (q : ℕ)
          → bit_at (uint_set words n start len value dirty).0 q ≡ bit_at words q =
        λ q.
          bit_at-uint_set q
          ∙ ground (
            arith,
            digit-uint_get words n start v.small len (q - start) inside narrow,
            ap (λ t. digit t (q - start)) e,
            digit-mod-pow len (q - start) value,
            ap (bit_at words) {x = start + (q - start)} {y = q},
          ) in
      let same_words : (uint_set words n start len value dirty).0 ≡ words =
        words_ext wrote.valid v (λ q h. same_bits q) in
      ap₂ (λ (a : Words) (b : Bool). (a, b)) same_words (wrote.kept same_words)

  -- A field of at most 32 bits inside an array of words, anywhere across word boundaries, reads
  -- back the value written to it, cut to the width of the field.
  pub uint_get-uint_set :
      uint_get (uint_set words n start len value dirty).0 n start len ≡ value % 2 ^ len
  uint_get-uint_set =
      digit_ext len _ _
        (uint_get-lt (uint_set words n start len value dirty).0 n start v.small len inside narrow)
        (mod-lt value (one-le-pow len 2 (omega arith)))
        λ j p.
          digit-uint_get (uint_set words n start len value dirty).0 n start v.small len j inside
            narrow
          ∙ ground (
            arith,
            bit_at-uint_set (start + j),
            digit-mod-pow len j value p,
            digit-lt value j,
            ap (λ t. digit value t == 1) {x = start + j - start} {y = j},
          )

  -- Writing a field of at most 32 bits inside an array leaves the value of every other such field
  -- that shares no bit with it.
  pub uint_get-uint_set_disjoint :
      (start' len' : ℕ)
      → start' + len' ≤ 16 * n
      → len' ≤ 32
      → (start' + len' ≤ start) ⊎ (start + len ≤ start')
      → uint_get (uint_set words n start len value dirty).0 n start' len'
        ≡ uint_get words n start' len'
  uint_get-uint_set_disjoint start' len' h k apart =
      uint_get_ext (uint_set words n start len value dirty).0 words start' start' len' v.small
        v.small h h k λ j p. bit_at-uint_set (start' + j) ∙ ground arith
