-- ===== src/App/Tasks.antt =====
-- The tasks beside the web server: poll_task (firmware/esp32_d3net/main/main.c) and
-- telnet_status_task (firmware/esp32_d3net/main/telnet_server.c), one round of their loops each.
use daikin_d3net.Base.{ℕ, ◌*◌, ◌%◌, ◌^◌, ◌++◌, Bool, true, false, List, [], ◌∷◌, if◌then◌else◌}
use daikin_d3net.Base.Text.{codes}
use daikin_d3net.Esp.{Err, is_ok}
use daikin_d3net.Registers.Status
use daikin_d3net.Gateway.{HvacUnit, Gateway}
use daikin_d3net.Gateway.UnitId.{print_unsigned}
use daikin_d3net.Wifi.{print_byte}
use daikin_d3net.Gateway.Discovery.{discover_units, poll_status}
use daikin_d3net.App.{Platform, Machine, log}

module _ (p : Platform) where
  open p use {http, float}

  -- What a function on the gateway and the bus does to the machine.
  abbrev pub with_gateway :
      (Gateway → p.bus.World → Err × Gateway × p.bus.World) → Machine p → Err × Machine p
  with_gateway f m =
      let (err, gateway, bus) = f m.app.gateway m.bus in
      (err, record m { app = record m.app { gateway = gateway }; bus = bus })

  -- The body of `poll_task` under the lock: the flag `first`, and the machine.
  unfoldable pub poll_body : Bool → Machine p → Bool × Machine p
  unfolding discover_units poll_status log
  poll_body first m =
      if first
      then (let (err, m1) = with_gateway (discover_units p.bus) m in
          if is_ok err
          then (
            false,
            log p
                (codes "discovered "
                  ++ (print_byte m1.app.gateway.discovered_count ++ codes " units"))
                m1,
          )
          else (true, log p (codes "discover failed: " ++ http.err_name err) m1))
      else (let (err, m1) = with_gateway (poll_status p.bus) m in
          (false, if is_ok err then m1 else log p (codes "poll failed: " ++ http.err_name err) m1))

  -- A round of `poll_task`.
  unfoldable pub poll_round : Bool → Machine p → Bool × Machine p
  unfolding poll_body
  poll_round first m =
      let (taken, w) = http.take m.http 4000 in
      let m1 = record m { http = w } in
      let (first', m2) = poll_body first m1 in
      let (first', m3) : Bool × Machine p =
        if taken then (first', record m2 { http = http.give m2.http }) else (first, m1) in
      (
        first',
        record m3 { http = http.delay m3.http (m3.app.gateway.poll_interval_s * 1000 % 2 ^ 32) },
      )

  abbrev pub digit_of : Bool → List ℕ
  digit_of b = codes (if b then "1" else "0")

  -- The line that `telnet_status_task` logs for a unit.
  unfoldable pub status_line : HvacUnit → List ℕ
  status_line u =
      u.unit_id
      ++ (codes " pwr="
          ++ (digit_of (Status.power_get u.status)
              ++ (codes " mode="
                  ++ (print_unsigned (Status.oper_mode_get u.status) []
                      ++ (codes " set="
                          ++ (http.fixed_1 (Status.temp_setpoint_get float u.status)
                              ++ (codes " cur="
                                  ++ http.fixed_1 (Status.temp_current_get float u.status))))))))

  -- Its loop over the units.
  unfoldable pub log_units : List HvacUnit → Machine p → Machine p
  unfolding status_line log
  log_units [] m = m
  log_units (u ∷ units) m = log_units units (if u.present then log p (status_line u) m else m)

  -- The body of `telnet_status_task` under the lock.
  unfoldable pub status_body : Machine p → Machine p
  unfolding log_units log
  status_body m =
      log_units m.app.gateway.units
        (log p (codes "units=" ++ print_byte m.app.gateway.discovered_count) m)

  -- A round of `telnet_status_task`.
  unfoldable pub status_round : Machine p → Machine p
  unfolding status_body
  status_round m =
      let (taken, w) = http.take m.http 200 in
      let m1 = record m { http = w } in
      let m2 = status_body m1 in
      let m3 : Machine p = if taken then record m2 { http = http.give m2.http } else m1 in
      record m3 { http = http.delay m3.http 5000 }
