-- ===== src/Modbus/AnswerLaws.antt =====
-- What an answer to a read that is accepted has been: the frame of the words that are returned.
use daikin_d3net.Base.{ℕ, zero, suc, ◌+◌, ◌*◌, ◌<◌, ◌≡◌, refl, sym, ap, ◌∙◌, arith}
use daikin_d3net.Base.{List, [], ◌∷◌, ◌++◌, length}
use mathlib.Core.Path.{subst₂}
use daikin_d3net.Esp.{ok}
use daikin_d3net.Codec.{Words}
use daikin_d3net.Gateway.Bus.{RegType}
use daikin_d3net.Modbus.Crc.{crc16}
use daikin_d3net.Modbus.CrcLaws.{IsBytes}
use daikin_d3net.Modbus.Frame.{with_crc, high_byte, low_byte, read_function, word_bytes}
use daikin_d3net.Modbus.Frame.{read_answer}
use daikin_d3net.Modbus.FrameLaws.{Are16, answer_frame, read_answer_lem}

-- Bytes that are words and two bytes behind them.
record Split (n : ℕ) (xs : List ℕ) : Type 0 where
  ws : Words
  x : ℕ
  y : ℕ
  shape : xs ≡ word_bytes ws ++ (x ∷ y ∷ [])
  count : length ws ≡ n
  fit : Are16 ws
  x_byte : x < 256
  y_byte : y < 256

split : (n : ℕ) (xs : List ℕ) → length xs ≡ n * 2 + 2 → IsBytes xs → Split n xs
unfolding word_bytes
split zero (x ∷ y ∷ []) e v = record {
  ws = [];
  x = x;
  y = y;
  shape = refl;
  count = refl;
  fit = tt;
  x_byte = v.0;
  y_byte = v.1.0;
}
split zero [] e v = absurd (omega arith)
split zero (x ∷ []) e v = absurd (omega arith)
split zero (x ∷ y ∷ z ∷ xs) e v = absurd (omega arith)
split (suc n) [] e v = absurd (omega arith)
split (suc n) (h ∷ []) e v = absurd (omega arith)
split (suc n) (h ∷ l ∷ xs) e v =
    let rest = split n xs (omega arith) v.1.1 in
    let hi : h ≡ high_byte (h * 256 + l) = omega arith in
    let lo : l ≡ low_byte (h * 256 + l) = omega arith in
    record {
      ws = (h * 256 + l) ∷ rest.ws;
      x = rest.x;
      y = rest.y;
      shape = λ i. hi i ∷ lo i ∷ rest.shape i;
      count = ap suc rest.count;
      fit = (omega arith, rest.fit);
      x_byte = rest.x_byte;
      y_byte = rest.y_byte;
    }

module _ (slave_id : ℕ) (ty : RegType) (out : Words) where
  abbrev Sound : ℕ → List ℕ → Type 0
  Sound count resp =
      (read_answer slave_id ty count resp out).0 ≡ ok
      → (resp ≡ answer_frame slave_id ty (read_answer slave_id ty count resp out).1)
        × (length (read_answer slave_id ty count resp out).1 ≡ count)
        × Are16 (read_answer slave_id ty count resp out).1

  accepted :
      (a b c x y : ℕ) (ws : Words)
      → Are16 ws
      → x < 256
      → y < 256
      → Sound (length ws) (a ∷ b ∷ c ∷ (word_bytes ws ++ (x ∷ y ∷ [])))
  unfolding answer_frame with_crc
  accepted a b c x y ws v hx hy r =
      let resp = a ∷ b ∷ c ∷ (word_bytes ws ++ (x ∷ y ∷ [])) in
      let e = read_answer_lem slave_id ty a b c x y ws out v hx hy in
      let words : (read_answer slave_id ty (length ws) resp out).1 ≡ ws = ground (arith, e, r) in
      let crc = crc16 (a ∷ b ∷ c ∷ word_bytes ws) in
      let heads : (a ≡ slave_id)
          × (b ≡ read_function ty)
          × (c ≡ low_byte (length ws * 2))
          × (x + y * 256 ≡ crc) =
        ground (arith, e, r) in
      let low : x ≡ low_byte crc = omega (arith, heads.3) in
      let high : y ≡ high_byte crc = omega (arith, heads.3) in
      rw words (
        (λ i. a ∷ b ∷ c ∷ (word_bytes ws ++ (low i ∷ high i ∷ [])))
            ∙ (λ i. with_crc (heads.0 i ∷ heads.1 i ∷ heads.2 i ∷ word_bytes ws)),
        refl,
        v,
      )

-- Only the frame of the words that are returned is accepted: whatever `5 + count * 2` bytes came,
-- ESP_OK means that they are that frame, checksum included.
pub read_answer_sound :
    (slave_id : ℕ) (ty : RegType) (count : ℕ) (resp : List ℕ) (out : Words)
    → IsBytes resp
    → length resp ≡ 5 + count * 2
    → (read_answer slave_id ty count resp out).0 ≡ ok
    → (resp ≡ answer_frame slave_id ty (read_answer slave_id ty count resp out).1)
      × (length (read_answer slave_id ty count resp out).1 ≡ count)
      × Are16 (read_answer slave_id ty count resp out).1
read_answer_sound slave_id ty count (a ∷ b ∷ c ∷ xs) out v e =
    let s = split count xs (omega arith) v.1.1.1 in
    subst₂ (λ n ys. Sound slave_id ty out n (a ∷ b ∷ c ∷ ys)) s.count (sym s.shape)
      (accepted slave_id ty out a b c s.x s.y s.ws s.fit s.x_byte s.y_byte)
read_answer_sound slave_id ty count [] out v e = absurd (omega arith)
read_answer_sound slave_id ty count (a ∷ []) out v e = absurd (omega arith)
read_answer_sound slave_id ty count (a ∷ b ∷ []) out v e = absurd (omega arith)
