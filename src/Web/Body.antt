-- ===== src/Web/Body.antt =====
-- A body that comes whole: what recv_body and the loop of handle_ota_post make of it, in whatever
-- pieces the connection hands it over.
use daikin_d3net.Base.{ℕ, zero, suc, ◌+◌, ◌-◌, ◌≤◌, ◌<◌, ◌≡◌, refl, ap, sym, ◌∙◌, arith}
use daikin_d3net.Base.{true, false, List, [], ◌∷◌, ◌++◌, length, length-append, Option, some}
use daikin_d3net.Base.{ltb, ◌==◌, if◌then◌else◌}
use mathlib.Core.List.{append-nil, append_assoc}
use daikin_d3net.Esp.{ok}
use daikin_d3net.App.{Platform}
use daikin_d3net.App.Server.{Http, Request}
use daikin_d3net.Web.{receive, recv_body}
use daikin_d3net.Web.Ota.{received, receive_image}

-- A connection on which the bytes of a body are still to come: a read brings some of them, in
-- order and at least one, while any are left.
pub record Stream (F : Type 0) (http : Http F) : Type 1 where
  pub Comes : http.World → List ℕ → Type 0
  pub brings :
      (w : http.World) (most : ℕ) (body : List ℕ)
      → Comes w body
      → 0 < most
      → 0 < length body
      → let (bytes, w') = http.recv w most in
        (0 < length bytes) × ((rest : List ℕ) × (bytes ++ rest ≡ body) × Comes w' rest)

-- An update whose writes succeed: each adds its bytes to the partition, and disturbs neither the
-- connection nor, as a read of the connection, the partition.
pub record Flash (F : Type 0) (http : Http F) (stream : Stream F http) : Type 0 where
  pub written : http.World → ℕ → List ℕ
  pub writes :
      (w : http.World) (handle : ℕ) (bytes body : List ℕ)
      → stream.Comes w body
      → let (err, w') = http.ota_write w handle bytes in
        (err ≡ ok) × (written w' handle ≡ written w handle ++ bytes) × stream.Comes w' body
  pub reads :
      (w : http.World) (handle most : ℕ) → written (http.recv w most).1 handle ≡ written w handle

module _ (p : Platform) (stream : Stream p.float.F p.http) where
  open p use {http}

  IsBody : List ℕ → Option (List ℕ) × http.World → Type 0
  IsBody body out = (out.0 ≡ some body) × stream.Comes out.1 []

  receive-end :
      (fuel content_len : ℕ) (buf : List ℕ) (w : http.World)
      → length buf ≡ content_len
      → receive p fuel content_len buf w ≡ (some buf, w)
  unfolding receive
  receive-end zero content_len buf w full = refl
  receive-end (suc fuel) content_len buf w full = ground arith

  receive-round :
      (fuel content_len : ℕ) (buf : List ℕ) (w : http.World)
      → length buf < content_len
      → 0 < length (http.recv w (content_len - length buf)).0
      → let (bytes, w') = http.recv w (content_len - length buf) in
        receive p (suc fuel) content_len buf w ≡ receive p fuel content_len (buf ++ bytes) w'
  unfolding receive
  receive-round fuel content_len buf w room least = ground arith

  receive-IsBody :
      (fuel content_len : ℕ) (buf body : List ℕ) (w : http.World)
      → length buf + length body ≡ content_len
      → length body ≤ fuel
      → stream.Comes w body
      → IsBody (buf ++ body) (receive p fuel content_len buf w)
  unfolding IsBody
  receive-IsBody fuel content_len buf [] w total enough c =
      rw (receive-end fuel content_len buf w (omega (arith, total)))
        (ap some (sym (append-nil buf)), c)
  receive-IsBody zero content_len buf (b ∷ body) w total enough c = absurd (omega arith)
  receive-IsBody (suc fuel) content_len buf (b ∷ body) w total enough c =
      let (least, (rest, whole, left)) =
        stream.brings w (content_len - length buf) (b ∷ body) c (omega (arith, total))
          (omega arith) in
      let (bytes, w') = http.recv w (content_len - length buf) in
      let size : length bytes + length rest ≡ length (b ∷ body) =
        sym (length-append bytes rest) ∙ ap length whole in
      rw
        (
          receive-round fuel content_len buf w (omega (arith, total)) least,
          sym whole,
          sym (append_assoc buf bytes rest),
        )
        (receive-IsBody fuel content_len (buf ++ bytes) rest w'
          (omega (arith, length-append buf bytes, size, total)) (omega (arith, size, least, enough))
          left)

  -- A recv_body of a request whose body comes in whatever pieces, is as long as the request says
  -- and not empty, and for which there is memory, returns ESP_OK with exactly that body and leaves
  -- nothing to come.
  pub recv_body-whole :
      (req : Request) (body : List ℕ) (w : http.World)
      → stream.Comes w body
      → length body ≡ req.content_len
      → 0 < req.content_len
      → http.calloc w (req.content_len + 1) ≡ true
      → let (err, out, w') = recv_body p req w in
        (err ≡ ok) × (out ≡ some body) × stream.Comes w' []
  unfolding recv_body IsBody
  recv_body-whole req body w c size nonempty room =
      let (got, left) =
        receive-IsBody (req.content_len + 1) req.content_len [] body w (omega arith) (omega arith)
          c in
      let nonzero : (req.content_len == 0) ≡ false = ground arith in
      rw (nonzero, room, got) (refl, refl, left)

  module _ (flash : Flash p.float.F p.http stream) (handle : ℕ) where
    receive_image-round :
        (fuel remaining got : ℕ) (w : http.World)
        → 0 < remaining
        → let (bytes, w1) = http.recv w (if ltb 1024 remaining then 1024 else remaining) in
          0 < length bytes
          → (http.ota_write w1 handle bytes).0 ≡ ok
          → receive_image p (suc fuel) handle remaining got w
            ≡ receive_image p fuel handle
                (remaining - length bytes)
                (got + length bytes)
                (http.ota_write w1 handle bytes).1
    unfolding receive_image
    receive_image-round fuel remaining got w more least done = ground (arith, done)

    -- The loop that receives an image, with more rounds than bytes to come, on a connection that
    -- brings a body in whatever pieces and a flash whose writes succeed, ends without an error,
    -- has added exactly that body to what was written, and leaves nothing to come.
    pub receive_image-whole :
        (fuel got : ℕ) (body : List ℕ) (w : http.World)
        → stream.Comes w body
        → length body < fuel
        → let (outcome, err, count, w') = receive_image p fuel handle (length body) got w in
          (outcome ≡ received)
          × (flash.written w' handle ≡ flash.written w handle ++ body)
          × stream.Comes w' []
    unfolding receive_image
    receive_image-whole zero got body w c h = absurd (omega arith)
    receive_image-whole (suc fuel) got [] w c h =
        (refl, sym (append-nil (flash.written w handle)), c)
    receive_image-whole (suc fuel) got (b ∷ body) w c h =
        let to_read = if ltb 1024 (length (b ∷ body)) then 1024 else length (b ∷ body) in
        let wanted : 0 < to_read = ground arith in
        let (least, (rest, whole, left)) =
          stream.brings w to_read (b ∷ body) c wanted (omega arith) in
        let (bytes, w1) = http.recv w to_read in
        let (done, added, left') = flash.writes w1 handle bytes rest left in
        let size : length bytes + length rest ≡ length (b ∷ body) =
          sym (length-append bytes rest) ∙ ap length whole in
        let remaining : length (b ∷ body) - length bytes ≡ length rest = omega (arith, size) in
        let (outcome, stored, end) =
          receive_image-whole fuel (got + length bytes) rest (http.ota_write w1 handle bytes).1
            left' (omega (arith, size, least)) in
        rw (receive_image-round fuel (length (b ∷ body)) got w (omega arith) least done, remaining)
          (
            outcome,
            stored
                ∙ (ap (λ ws. ws ++ rest)
                      (added ∙ ap (λ ws. ws ++ bytes) (flash.reads w handle to_read))
                    ∙ (append_assoc (flash.written w handle) bytes rest
                        ∙ ap (λ ws. flash.written w handle ++ ws) whole)),
            end,
          )
