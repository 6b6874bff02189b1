-- ===== src/Modbus/FrameLaws.antt =====
-- What is accepted as an answer to a read.
use daikin_d3net.Base.{
  ℕ, suc, ◌+◌, ◌-◌, ◌*◌, ◌%◌, ◌^◌, ◌<◌, bit_or, ◌≡◌, refl, sym, ap, ap₂, ◌∙◌, arith,
}
use daikin_d3net.Base.{◌||◌, List, [], ◌∷◌, ◌++◌, if◌then◌else◌, get_or, length, take, All}
use daikin_d3net.Base.{length-append}
use daikin_d3net.Base.Bits.{bit_or_fields, bit_or_comm}
use mathlib.Core.List.{append_assoc}
use native.Mathlib.Nat.{add-zero}
use daikin_d3net.Esp.{ok, fail, invalid_crc}
use daikin_d3net.Codec.{Words, ◌!=◌}
use daikin_d3net.Gateway.Bus.{RegType}
use daikin_d3net.Modbus.Crc.{crc16}
use daikin_d3net.Modbus.CrcLaws.{IsBytes, crc16-lt}
use daikin_d3net.Modbus.Frame.{with_crc, high_byte, low_byte, read_function, word_bytes}
use daikin_d3net.Modbus.Frame.{decode_words, read_answer}

abbrev pub Are16 : Words → Type 0
Are16 ws = All (λ w. w < 2 ^ 16) ws

get_or-append : (xs ys : List ℕ) (k : ℕ) → get_or (xs ++ ys) (length xs + k) 0 ≡ get_or ys k 0
get_or-append [] ys k = let e : 0 + k ≡ k = omega arith in rw e
get_or-append (x ∷ xs) ys k =
    let e : suc (length xs) + k ≡ suc (length xs + k) = omega arith in rw e (get_or-append xs ys k)

take-append : (xs ys : List ℕ) → take (length xs) (xs ++ ys) ≡ xs
take-append [] ys = refl
take-append (x ∷ xs) ys = ap (λ t. x ∷ t) (take-append xs ys)

word_of_bytes : (w : ℕ) → w < 2 ^ 16 → bit_or (high_byte w * 2 ^ 8 % 2 ^ 16) (low_byte w) ≡ w
word_of_bytes w h =
    let narrow : high_byte w * 2 ^ 8 % 2 ^ 16 ≡ high_byte w * 2 ^ 8 = omega arith in
    rw narrow (bit_or_fields 8 (high_byte w) (low_byte w) (omega arith) ∙ omega arith)

decode-word_bytes :
    (pre post : List ℕ) (ws : Words) (i : ℕ)
    → length pre ≡ 3 + i * 2
    → Are16 ws
    → decode_words (pre ++ (word_bytes ws ++ post)) (length ws) i ≡ ws
unfolding decode_words word_bytes
decode-word_bytes pre post [] i e v = refl
decode-word_bytes pre post (w ∷ ws) i e v =
    let tail = word_bytes ws ++ post in
    let whole = pre ++ (high_byte w ∷ low_byte w ∷ tail) in
    let at_hi : 3 + i * 2 ≡ length pre + 0 = omega arith in
    let at_lo : 4 + i * 2 ≡ length pre + 1 = omega arith in
    let hi : get_or whole (3 + i * 2) 0 ≡ high_byte w =
      ap (λ k. get_or whole k 0) at_hi ∙ get_or-append pre (high_byte w ∷ low_byte w ∷ tail) 0 in
    let lo : get_or whole (4 + i * 2) 0 ≡ low_byte w =
      ap (λ k. get_or whole k 0) at_lo ∙ get_or-append pre (high_byte w ∷ low_byte w ∷ tail) 1 in
    let longer = pre ++ (high_byte w ∷ low_byte w ∷ []) in
    ap₂ ◌∷◌ (rw (hi, lo) (word_of_bytes w v.0)) (
      ap (λ xs. decode_words xs (length ws) (i + 1))
        (sym (append_assoc pre (high_byte w ∷ low_byte w ∷ []) tail))
      ∙ decode-word_bytes longer post ws (i + 1)
          (length-append pre (high_byte w ∷ low_byte w ∷ []) ∙ omega arith) v.1)

-- The answer that carries the words: the frame of a device.
unfoldable pub answer_frame : ℕ → RegType → Words → List ℕ
answer_frame slave_id reg_type ws =
    with_crc (slave_id ∷ read_function reg_type ∷ low_byte (length ws * 2) ∷ word_bytes ws)

pub length-word_bytes : (ws : Words) → length (word_bytes ws) ≡ length ws * 2
unfolding word_bytes
length-word_bytes [] = refl
length-word_bytes (w ∷ ws) = omega (arith, length-word_bytes ws)

pub crc_of_bytes : (x y : ℕ) → x < 256 → y < 256 → bit_or x (y * 2 ^ 8 % 2 ^ 16) ≡ x + y * 256
crc_of_bytes x y hx hy =
    let narrow : y * 2 ^ 8 % 2 ^ 16 ≡ y * 2 ^ 8 = omega arith in
    rw narrow (
      bit_or_comm 16 x (y * 2 ^ 8) (omega arith) (omega arith)
      ∙ (bit_or_fields 8 y x hx ∙ omega arith))

-- The checks, on an answer taken apart.
pub read_answer_lem :
    (slave_id : ℕ) (ty : RegType) (a b c x y : ℕ) (ws out : Words)
    → Are16 ws
    → x < 256
    → y < 256
    → read_answer slave_id ty (length ws) (a ∷ b ∷ c ∷ (word_bytes ws ++ (x ∷ y ∷ []))) out ≡ (
        if a != slave_id || (b != read_function ty || c != low_byte (length ws * 2))
        then (fail, out)
        else if x + y * 256 != crc16 (a ∷ b ∷ c ∷ word_bytes ws)
        then (invalid_crc, out)
        else (ok, ws))
unfolding read_answer
read_answer_lem slave_id ty a b c x y ws out v hx hy =
    let body = a ∷ b ∷ c ∷ word_bytes ws in
    let whole = body ++ (x ∷ y ∷ []) in
    let at : length whole - 2 ≡ length body = omega (arith, length-append body (x ∷ y ∷ [])) in
    let first : get_or whole (length body) 0 ≡ x =
      ap (λ k. get_or whole k 0) (sym (add-zero (length body)))
      ∙ get_or-append body (x ∷ y ∷ []) 0 in
    let second : get_or whole (length body + 1) 0 ≡ y = get_or-append body (x ∷ y ∷ []) 1 in
    let decoded : decode_words whole (length ws) 0 ≡ ws =
      decode-word_bytes (a ∷ b ∷ c ∷ []) (x ∷ y ∷ []) ws 0 (omega arith) v in
    rw (at, first, second, take-append body (x ∷ y ∷ []), crc_of_bytes x y hx hy, decoded)

body-IsBytes :
    (slave_id : ℕ) (ty : RegType) (n : ℕ) (ws : Words)
    → slave_id < 256
    → Are16 ws
    → IsBytes (slave_id ∷ read_function ty ∷ low_byte (n * 2) ∷ word_bytes ws)
unfolding word_bytes
body-IsBytes slave_id ty n ws h v = (h, (function_byte ty, (omega arith, all ws)))
  where
    function_byte : (r : RegType) → read_function r < 256
    function_byte RegType.input = omega arith
    function_byte RegType.holding = omega arith

    all : (us : Words) → IsBytes (word_bytes us)
    all [] = tt
    all (u ∷ us) = (omega arith, (omega arith, all us))

-- The answer frame that carries some 16-bit words, from the slave that was asked, is accepted and
-- decoded to those words.
pub read_answer-answer_frame :
    (slave_id : ℕ) (ty : RegType) (ws out : Words)
    → slave_id < 256
    → Are16 ws
    → read_answer slave_id ty (length ws) (answer_frame slave_id ty ws) out ≡ (ok, ws)
unfolding answer_frame with_crc
read_answer-answer_frame slave_id ty ws out h v =
    let body = slave_id ∷ read_function ty ∷ low_byte (length ws * 2) ∷ word_bytes ws in
    let small = crc16-lt body (body-IsBytes slave_id ty (length ws) ws h v) in
    read_answer_lem slave_id ty slave_id (read_function ty) (low_byte (length ws * 2))
      (low_byte (crc16 body)) (high_byte (crc16 body)) ws out v (omega arith) (omega arith)
    ∙ ground arith
