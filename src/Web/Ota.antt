-- ===== src/Web/Ota.antt =====
-- The update over the air: handle_ota_post.
pub mod Image
use Prim.Native.String.{String}
use daikin_d3net.Base.{
  ℕ, zero, suc, ◌+◌, ◌-◌, ◌%◌, ◌^◌, Bool, true, false, not, List, [], Option, none, some,
}
use daikin_d3net.Base.{ltb, ◌==◌, if◌then◌else◌, length, take}
use daikin_d3net.Base.Int.{ℤ, pos, negsuc}
use daikin_d3net.Base.Text.{codes}
use daikin_d3net.Registers.Temperature.{cast}
use daikin_d3net.Esp.{Err, ok, fail, is_ok, ◌>>?◌}
use daikin_d3net.App.{OtaState, Platform, Machine}
use daikin_d3net.App.Server.{Http, Request}
use daikin_d3net.Web.{Handler, refuse}

-- How the loop of `handle_ota_post` ends.
pub data Outcome : Type 0 where
  received read_failed write_failed : Outcome

-- An update that has ended.
abbrev pub ended : Bool → String → OtaState → OtaState
ended success text ota = record ota { active = false; success = success; message = codes text }

abbrev positive_part : ℤ → ℕ
positive_part (pos n) = n
positive_part (negsuc n) = 0

-- The bytes that the loop of `handle_ota_post` waits for: `remaining` is an int, and the loop runs
-- while it is positive.
unfoldable pub to_come : ℕ → ℕ
to_come content_len = positive_part (cast 32 (pos content_len))

module _ (p : Platform) where
  open p use {http}

  abbrev pub with_ota : (OtaState → OtaState) → Machine p → Machine p
  with_ota f m = record m { app = record m.app { ota = f m.app.ota } }

  -- The loop, with `remaining` bytes to come: how it ends, the error of the write, the number of
  -- bytes received and the world. Each round brings a byte.
  unfoldable pub receive_image : ℕ → ℕ → ℕ → ℕ → http.World → Outcome × Err × ℕ × http.World
  receive_image zero handle remaining bytes_received w = (received, ok, bytes_received, w)
  receive_image (suc fuel) handle remaining bytes_received w =
      let to_read = if ltb 1024 remaining then 1024 else remaining in
      let (bytes, w1) = http.recv w to_read in
      let (err, w2) = http.ota_write w1 handle bytes in
      let r = length bytes in
      let rest = receive_image fuel handle (remaining - r) (bytes_received + r) w2 in
      if remaining == 0
      then (received, ok, bytes_received, w)
      else if r == 0
      then (read_failed, fail, bytes_received, http.ota_abort w1 handle)
      else if not (is_ok err)
      then (write_failed, err, bytes_received, http.ota_abort w2 handle)
      else rest

  -- The end of the handler, once the image has come.
  unfoldable pub finish : ℕ → ℕ → Machine p → Err × Machine p
  finish partition handle m =
      let (err, w) = http.ota_end m.http handle >>? (λ w. http.set_boot_partition w partition) in
      let m1 = record m { http = w } in
      if not (is_ok err)
      then refuse p 500 "ota end" err (with_ota (ended false "OTA finalize failed") m1)
      else (let m2 = with_ota (ended true "OTA complete, rebooting") m1 in
          let w1 = (http.send m2.http "text/html" (codes "{\"ok\":true,\"reboot\":true}")).1 in
          (ok, record m2 { http = http.restart (http.delay w1 1200) }))

  -- The loop and what follows it, for an update that has begun.
  unfoldable pub transfer : ℕ → ℕ → Request → Machine p → Err × Machine p
  unfolding receive_image finish to_come
  transfer partition handle req m =
      let (outcome, err, bytes_received, w) =
        receive_image (to_come req.content_len + 1) handle (to_come req.content_len) 0 m.http in
      let m1 =
        with_ota (λ ota. record ota { bytes_received = bytes_received }) (record m { http = w }) in
      elim outcome [
        | received ↦ finish partition handle m1
        | read_failed ↦ refuse p 500 "ota read" fail (with_ota (ended false "OTA read failed") m1)
        | write_failed ↦ refuse p 500 "ota write" err (with_ota (ended false "OTA write failed") m1)
      ]

  -- The state at the start of an update.
  abbrev pub begun : ℕ → OtaState → OtaState
  begun total_bytes ota = record {
    active = true;
    success = false;
    message = codes "OTA receiving";
    bytes_received = 0;
    total_bytes = total_bytes;
  }

  -- `handle_ota_post`
  unfoldable pub ota_post : Handler p
  unfolding transfer
  ota_post req m =
      let m1 = with_ota (begun req.content_len) m in
      elim (http.next_update_partition m.http) [
        | none ↦ refuse p 500 "partition" fail (with_ota (ended false "No OTA partition") m1)
        | some partition ↦
            let (err, handle, w) = http.ota_begin m1.http partition in
            let m2 = record m1 { http = w } in
            if not (is_ok err)
            then refuse p 500 "ota begin" err (with_ota (ended false "OTA begin failed") m2)
            else transfer partition handle req m2
      ]
