-- ===== src/System/Updates.antt =====
-- An update keeps the application in order.
use Prim.Native.String.{String}
use daikin_d3net.Base.{
  ℕ, ◌+◌, ◌^◌, ◌<◌, ◌≡◌, refl, arith, false, not, Option, none, some, if_both, if◌then◌else◌,
}
use daikin_d3net.Esp.{Err, ok, fail, is_ok, ◌>>?◌}
use daikin_d3net.Gateway.Invariant.{IsGateway}
use daikin_d3net.App.{AppContext, Platform, Machine}
use daikin_d3net.App.Server.{Request}
use daikin_d3net.Web.{refuse}
use daikin_d3net.Web.Ota.{Outcome, received, read_failed, write_failed, ended, begun, with_ota}
use daikin_d3net.Web.Ota.{to_come, receive_image, finish, transfer, ota_post}
use daikin_d3net.Web.Ota.Image.{receive_image-received}
use daikin_d3net.System.Invariant.{IsApp, IsRegistry, Safe}
use daikin_d3net.System.Pages.{stays}

to_come-small : (n : ℕ) → n < 2 ^ 31 → to_come n ≡ n
unfolding to_come
to_come-small n h = ground arith

module _ (p : Platform) where
  open p use {http}

  -- The parts that an update does not touch.
  abbrev Rest : AppContext → Type 0
  Rest app = IsGateway app.gateway × IsRegistry app.config

  failed-Safe :
      (status : ℕ) (text message : String) (err : Err) (m : Machine p)
      → Rest m.app
      → Safe p (refuse p status text err (with_ota p (ended false message) m))
  unfolding Safe
  failed-Safe status text message err m r = record {
    gateway = r.0;
    ota = record { idle = refl; whole = λ e small. cc e };
    registry = r.1;
  }

  finish-Safe :
      (partition handle : ℕ) (m : Machine p)
      → Rest m.app
      → (m.app.ota.total_bytes < 2 ^ 31 → m.app.ota.bytes_received ≡ m.app.ota.total_bytes)
      → Safe p (finish p partition handle m)
  unfolding finish
  finish-Safe partition handle m r whole =
      let (err, w) = http.ota_end m.http handle >>? (λ w. http.set_boot_partition w partition) in
      if_both (Safe p) (not (is_ok err))
        (failed-Safe 500 "ota end" "OTA finalize failed" err (record m { http = w }) r)
        (stays p ok _ (record {
          gateway = r.0;
          ota = record { idle = refl; whole = λ e small. whole small };
          registry = r.1;
        }))

  -- The three ends of the loop.
  ends :
      (partition handle : ℕ) (outcome : Outcome) (err : Err) (m : Machine p)
      → Rest m.app
      → (outcome ≡ received
          → m.app.ota.total_bytes < 2 ^ 31
          → m.app.ota.bytes_received ≡ m.app.ota.total_bytes)
      → Safe p (elim outcome [
        | received ↦ finish p partition handle m
        | read_failed ↦ refuse p 500 "ota read" fail (with_ota p (ended false "OTA read failed") m)
        | write_failed ↦
            refuse p 500 "ota write" err (with_ota p (ended false "OTA write failed") m)
      ])
  ends partition handle received err m r whole = finish-Safe partition handle m r (whole refl)
  ends partition handle read_failed err m r whole =
      failed-Safe 500 "ota read" "OTA read failed" fail m r
  ends partition handle write_failed err m r whole =
      failed-Safe 500 "ota write" "OTA write failed" err m r

  transfer-Safe :
      (partition handle : ℕ) (req : Request) (m : Machine p)
      → Rest m.app
      → m.app.ota.total_bytes ≡ req.content_len
      → Safe p (transfer p partition handle req m)
  unfolding transfer
  transfer-Safe partition handle req m r total =
      let (outcome, err, bytes_received, w) =
        receive_image p (to_come req.content_len + 1) handle (to_come req.content_len) 0 m.http in
      let m1 : Machine p =
        with_ota p (λ ota. record ota { bytes_received = bytes_received })
          (record m { http = w }) in
      ends partition handle outcome err m1 r (λ e small.
        let all =
          receive_image-received p handle (to_come req.content_len + 1) (to_come req.content_len) 0
            m.http (omega arith) e in
        omega (arith, all, total, to_come-small req.content_len (omega (arith, total, small))))

  chosen :
      (partition : Option ℕ) (req : Request) (m : Machine p)
      → Rest m.app
      → m.app.ota.total_bytes ≡ req.content_len
      → Safe p (elim partition [
        | none ↦ refuse p 500 "partition" fail (with_ota p (ended false "No OTA partition") m)
        | some partition ↦
            let (err, handle, w) = http.ota_begin m.http partition in
            let m2 = record m { http = w } in
            if not (is_ok err)
            then refuse p 500 "ota begin" err (with_ota p (ended false "OTA begin failed") m2)
            else transfer p partition handle req m2
      ])
  chosen none req m r total = failed-Safe 500 "partition" "No OTA partition" fail m r
  chosen (some partition) req m r total =
      let (err, handle, w) = http.ota_begin m.http partition in
      let m2 = record m { http = w } in
      if_both (Safe p) (not (is_ok err)) (failed-Safe 500 "ota begin" "OTA begin failed" err m2 r)
        (transfer-Safe partition handle req m2 r total)

  -- An update, whatever came before it in `ota`, leaves the application in order.
  pub ota_post-Safe : (req : Request) (m : Machine p) → IsApp m.app → Safe p (ota_post p req m)
  unfolding ota_post
  ota_post-Safe req m v =
      chosen (http.next_update_partition m.http) req (with_ota p (begun p req.content_len) m)
        (v.gateway, v.registry) refl
