-- ===== src/System/Answers/Updates.antt =====
-- handle_ota_post answers its request once, and with it every route of the table.
use daikin_d3net.Base.{ℕ, zero, suc, ◌+◌, ◌-◌, ◌≡◌, false, not}
use daikin_d3net.Base.{List, Option, none, some, if_both, if◌then◌else◌}
use daikin_d3net.Base.{All, length, ltb, ◌==◌}
use mathlib.Core.Path.{subst}
use daikin_d3net.Base.Text.{codes}
use daikin_d3net.Esp.{Err, ok, fail, is_ok, ◌>>?◌}
use daikin_d3net.App.{Platform, Machine}
use daikin_d3net.App.Server.{Request}
use daikin_d3net.Web.{refuse}
use daikin_d3net.Web.Ota.{Outcome, received, read_failed, write_failed, ended, begun, with_ota}
use daikin_d3net.Web.Ota.{to_come, receive_image, finish, transfer, ota_post}
use daikin_d3net.Web.Routes.{Route, routes}
use daikin_d3net.System.Ledger.{
  Ledger, Silent, silent, from_pair, then-Silent, then-Replied, then_quiet,
}
use daikin_d3net.System.Replies.{Answered, refuse-Answered, send-Replied}
use daikin_d3net.System.Answers.{Answers}
use daikin_d3net.System.Answers.{index_get-Answers, status_get-Answers, wifi_scan_get-Answers}
use daikin_d3net.System.Answers.{hvac_get-Answers, discover_post-Answers, hvac_cmd_post-Answers}
use daikin_d3net.System.Answers.{registry_get-Answers, logs_get-Answers, rtu_get-Answers}
use daikin_d3net.System.Answers.Changes.{registry_post-Answers, wifi_connect_post-Answers}
use daikin_d3net.System.Answers.Changes.{Ends, rtu_post-Ends}
use daikin_d3net.System.Steps.{In, All-In}

module _ (p : Platform) (l : Ledger p.float.F p.http) where
  open p use {http}

  image-Silent :
      (fuel handle remaining got : ℕ) (w : http.World)
      → Silent p l w (receive_image p fuel handle remaining got w).3
  unfolding receive_image
  image-Silent zero handle remaining got w = silent p l w
  image-Silent (suc fuel) handle remaining got w =
      let to_read = if ltb 1024 remaining then 1024 else remaining in
      let (bytes, w1) = http.recv w to_read in
      let (err, w2) = http.ota_write w1 handle bytes in
      let r = length bytes in
      let came : Silent p l w w1 = from_pair p l (l.recv_keeps w to_read) in
      let stored : Silent p l w w2 =
        then-Silent p l came (from_pair p l (l.ota_write_keeps w1 handle bytes)) in
      let rest = image-Silent fuel handle (remaining - r) (got + r) w2 in
      let Quiet : Outcome × Err × ℕ × http.World → Type 0 = λ out. Silent p l w out.3 in
      if_both Quiet (remaining == 0) {x = (received, ok, got, w)} (silent p l w) (
        if_both Quiet (r == 0) {x = (read_failed, fail, got, http.ota_abort w1 handle)}
          (then-Silent p l came (from_pair p l (l.ota_abort_keeps w1 handle)))
          (if_both Quiet (not (is_ok err)) {x = (write_failed, err, got, http.ota_abort w2 handle)}
            (then-Silent p l stored (from_pair p l (l.ota_abort_keeps w2 handle)))
            (then-Silent p l stored rest)))

  ended-Silent :
      (partition handle : ℕ) (w : http.World)
      → Silent p l w (http.ota_end w handle >>? (λ w. http.set_boot_partition w partition)).1
  ended-Silent partition handle w =
      let end = from_pair p l (l.ota_end_keeps w handle) in
      if_both (λ (out : Err × http.World). Silent p l w out.1) (is_ok (http.ota_end w handle).0)
        (then-Silent p l end (from_pair p l (l.set_boot_keeps (http.ota_end w handle).1 partition)))
        end

  finish-Answered :
      (partition handle : ℕ) (w : http.World) (m : Machine p)
      → Silent p l w m.http
      → Answered p l w (finish p partition handle m)
  unfolding finish Answered
  finish-Answered partition handle w m e =
      let (err, w1) = http.ota_end m.http handle >>? (λ w. http.set_boot_partition w partition) in
      let m1 : Machine p = record m { http = w1 } in
      let before = then-Silent p l e (ended-Silent partition handle m.http) in
      let text = codes "{\"ok\":true,\"reboot\":true}" in
      let sent = (http.send w1 "text/html" text).1 in
      let later = from_pair p l (l.delay_keeps sent 1200) in
      let again = from_pair p l (l.restart_keeps (http.delay sent 1200)) in
      if_both (Answered p l w) (not (is_ok err))
        (refuse-Answered p l w 500 "ota end" err (with_ota p (ended false "OTA finalize failed") m1)
          before)
        (then_quiet p l (then-Replied p l before (send-Replied p l w1 "text/html" text))
          (then-Silent p l later again))

  -- The three ends of the loop.
  outcome-Answered :
      (partition handle : ℕ) (outcome : Outcome) (err : Err) (w : http.World) (m : Machine p)
      → Silent p l w m.http
      → Answered p l w (elim outcome [
        | received ↦ finish p partition handle m
        | read_failed ↦ refuse p 500 "ota read" fail (with_ota p (ended false "OTA read failed") m)
        | write_failed ↦
            refuse p 500 "ota write" err (with_ota p (ended false "OTA write failed") m)
      ])
  outcome-Answered partition handle received err w m e = finish-Answered partition handle w m e
  outcome-Answered partition handle read_failed err w m e =
      refuse-Answered p l w 500 "ota read" fail (with_ota p (ended false "OTA read failed") m) e
  outcome-Answered partition handle write_failed err w m e =
      refuse-Answered p l w 500 "ota write" err (with_ota p (ended false "OTA write failed") m) e

  transfer-Answered :
      (partition handle : ℕ) (req : Request) (w : http.World) (m : Machine p)
      → Silent p l w m.http
      → Answered p l w (transfer p partition handle req m)
  unfolding transfer
  transfer-Answered partition handle req w m e =
      let (outcome, err, count, w1) =
        receive_image p (to_come req.content_len + 1) handle (to_come req.content_len) 0 m.http in
      outcome-Answered partition handle outcome err w
        (with_ota p (λ ota. record ota { bytes_received = count }) (record m { http = w1 }))
        (then-Silent p l e
          (image-Silent (to_come req.content_len + 1) handle (to_come req.content_len) 0 m.http))

  chosen-Answered :
      (partition : Option ℕ) (req : Request) (w : http.World) (m : Machine p)
      → Silent p l w m.http
      → Answered p l w (elim partition [
        | none ↦ refuse p 500 "partition" fail (with_ota p (ended false "No OTA partition") m)
        | some partition ↦
            let (err, handle, w1) = http.ota_begin m.http partition in
            let m2 = record m { http = w1 } in
            if not (is_ok err)
            then refuse p 500 "ota begin" err (with_ota p (ended false "OTA begin failed") m2)
            else transfer p partition handle req m2
      ])
  chosen-Answered none req w m e =
      refuse-Answered p l w 500 "partition" fail (with_ota p (ended false "No OTA partition") m) e
  chosen-Answered (some partition) req w m e =
      let (err, handle, w1) = http.ota_begin m.http partition in
      let m2 : Machine p = record m { http = w1 } in
      let begins = then-Silent p l e (from_pair p l (l.ota_begin_keeps m.http partition)) in
      if_both (Answered p l w) (not (is_ok err))
        (refuse-Answered p l w 500 "ota begin" err (with_ota p (ended false "OTA begin failed") m2)
          begins)
        (transfer-Answered partition handle req w m2 begins)

  ota_post-Answers : Answers p l (ota_post p)
  unfolding ota_post
  ota_post-Answers req m =
      chosen-Answered (http.next_update_partition m.http) req m.http
        (with_ota p (begun p req.content_len) m) (silent p l m.http)

  -- A route whose handler answers each request once, if it comes to an end.
  Served : Route p → Type 0
  Served r = (req : Request) (m : Machine p) → Ends p l m.http (r.handler req m)

  routes-Served : (page : List ℕ) → All Served (routes p page)
  unfolding routes Served Ends
  routes-Served page = (
    index_get-Answers p l page,
    (
      status_get-Answers p l,
      (
        wifi_scan_get-Answers p l,
        (
          wifi_connect_post-Answers p l,
          (
            hvac_get-Answers p l,
            (
              discover_post-Answers p l,
              (
                hvac_cmd_post-Answers p l,
                (
                  registry_get-Answers p l,
                  (
                    registry_post-Answers p l,
                    (
                      logs_get-Answers p l,
                      (rtu_get-Answers p l, (rtu_post-Ends p l, (ota_post-Answers, tt))),
                    ),
                  ),
                ),
              ),
            ),
          ),
        ),
      ),
    ),
  )

  -- A request on any route, whose handler comes to an end, is answered exactly once, and the lock
  -- of the gateway is held as often after it as before, whatever the bus, the connection, the
  -- flash and the radio answer, as long as every tree can be printed.
  pub request_answered :
      (page : List ℕ) (r : Route p) (req : Request) (m m' : Machine p) (err : Err)
      → In r (routes p page)
      → r.handler req m ≡ some (err, m')
      → (l.sent m'.http ≡ l.sent m.http + 1) × (l.held m'.http ≡ l.held m.http)
  unfolding Served Ends Answered
  request_answered page r req m m' err i e =
      let ends = All-In Served (routes-Served page) i req m in
      let replied = subst (Ends p l m.http) e ends in (replied.sent, replied.held)
