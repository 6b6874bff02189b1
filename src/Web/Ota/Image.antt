-- ===== src/Web/Ota/Image.antt =====
-- The loop that receives an image.
use daikin_d3net.Base.{ℕ, zero, suc, ◌+◌, ◌-◌, ◌<◌, ◌≤◌, ◌≡◌, refl, arith, false, if◌then◌else◌}
use daikin_d3net.Base.{ltb, ◌==◌, length, Bool-cases, inl, inr}
use daikin_d3net.Esp.{is_ok}
use daikin_d3net.App.{Platform}
use daikin_d3net.Web.Ota.{received, receive_image}

module _ (p : Platform) (handle : ℕ) where
  open p use {http}

  -- The bytes that a round brings are at least one and no more than are to come.
  round :
      (remaining : ℕ) (w : http.World)
      → (length (http.recv w (if ltb 1024 remaining then 1024 else remaining)).0 == 0) ≡ false
      → let r = length (http.recv w (if ltb 1024 remaining then 1024 else remaining)).0 in
        (0 < r) × (r ≤ remaining)
  round remaining w e =
      let most = http.recv-le w (if ltb 1024 remaining then 1024 else remaining) in
      (ground arith, ground arith)

  -- Any two numbers of rounds above the number of bytes to come give the same result of the loop
  -- that receives an image: such a number is enough for the loop to end by itself.
  pub receive_image-enough :
      (k l remaining got : ℕ) (w : http.World)
      → remaining < k
      → remaining < l
      → receive_image p k handle remaining got w ≡ receive_image p l handle remaining got w
  unfolding receive_image
  receive_image-enough zero l remaining got w hk hl = absurd (omega arith)
  receive_image-enough (suc k) zero remaining got w hk hl = absurd (omega arith)
  receive_image-enough (suc k) (suc l) remaining got w hk hl =
      let to_read = if ltb 1024 remaining then 1024 else remaining in
      let (bytes, w1) = http.recv w to_read in
      let (err, w2) = http.ota_write w1 handle bytes in
      elim (Bool-cases (remaining == 0)) [
        | inl e ↦ rw e refl
        | inr e ↦ elim (Bool-cases (length bytes == 0)) [
          | inl n ↦ rw (e, n) refl
          | inr n ↦
              let (least, most) = round remaining w n in
              rw
                (receive_image-enough k l (remaining - length bytes) (got + length bytes) w2
                  (omega arith) (omega arith))
                refl
        ]
      ]

  -- If the loop that receives an image, with more rounds than bytes to come, ends without an
  -- error, it has received all the bytes that were to come.
  pub receive_image-received :
      (fuel remaining got : ℕ) (w : http.World)
      → remaining < fuel
      → (receive_image p fuel handle remaining got w).0 ≡ received
      → (receive_image p fuel handle remaining got w).2 ≡ got + remaining
  unfolding receive_image
  receive_image-received zero remaining got w h = absurd (omega arith)
  receive_image-received (suc fuel) remaining got w h =
      let to_read = if ltb 1024 remaining then 1024 else remaining in
      let (bytes, w1) = http.recv w to_read in
      let (err, w2) = http.ota_write w1 handle bytes in
      elim (Bool-cases (remaining == 0)) [
        | inl z ↦
            let none_left : remaining ≡ 0 = ground arith in rw z (λ e. omega (arith, none_left))
        | inr z ↦ elim (Bool-cases (length bytes == 0)) [
          | inl n ↦ rw (z, n) (λ e. cc e)
          | inr n ↦ elim (Bool-cases (is_ok err)) [
            | inr bad ↦ rw (z, n, bad) (λ e. cc e)
            | inl good ↦
                let (least, most) = round remaining w n in
                rw (z, n, good)
                  λ e. omega (
                    arith,
                    receive_image-received fuel (remaining - length bytes) (got + length bytes) w2
                        (omega arith) e,
                  )
          ]
        ]
      ]
