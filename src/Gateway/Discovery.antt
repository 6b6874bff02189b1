-- ===== src/Gateway/Discovery.antt =====
-- d3net_gateway_discover_units and d3net_gateway_poll_status.
-- The loops run over the array of units, whose length is D3NET_MAX_UNITS; each round touches the
-- unit it is at, so that the loop is a recursion along the list, with the index of its head.
use daikin_d3net.Base.{ℕ, ◌+◌, ◌*◌, ◌/◌, ◌%◌, ◌^◌, true, not, ◌||◌}
use daikin_d3net.Base.{List, [], ◌∷◌, if◌then◌else◌}
use daikin_d3net.Esp.{Err, ok, is_ok}
use daikin_d3net.Registers.SystemStatus
use daikin_d3net.Registers.Capability
use daikin_d3net.Registers.Status
use daikin_d3net.Registers.Holding
use daikin_d3net.Gateway.Bus.{Transport, input}
use daikin_d3net.Gateway.{HvacUnit, Gateway, zero_unit, read}
use daikin_d3net.Gateway.UnitId.{make_unit_id}

-- `(uint64_t)(esp_timer_get_time() / 1000ULL)`
abbrev pub to_ms : ℕ → ℕ
to_ms us = us / 1000 % 2 ^ 64

module _ (t : Transport) where
  open t use {World, time_us}

  -- One round of the loop of `d3net_gateway_discover_units`.
  unfoldable pub discover_unit : ℕ → ℕ → Gateway → World → HvacUnit × Gateway × World
  unfolding read make_unit_id
  discover_unit now_ms i gw w =
      let u = record zero_unit { index = i; unit_id = make_unit_id i } in
      if not (SystemStatus.unit_connected gw.system_status i)
        || SystemStatus.unit_error gw.system_status i
      then (u, gw, w)
      else (let cap_addr = (Capability.address + i * Capability.count) % 2 ^ 16 in
          let (err1, cap, gw1, w1) = read t gw input cap_addr Capability.count u.cap now_ms w in
          let u1 = record u { cap = cap } in
          if not (is_ok err1)
          then (u1, gw1, w1)
          else (let status_addr = (Status.address + i * Status.count) % 2 ^ 16 in
              let (err2, status, gw2, w2) =
                read t gw1 input status_addr Status.count u1.status now_ms w1 in
              let u2 = record u1 { status = status } in
              if not (is_ok err2) then (u2, gw2, w2) else (
                record u2 { present = true },
                record gw2 { discovered_count = (gw2.discovered_count + 1) % 2 ^ 8 },
                w2,
              )))

  -- The loop: the units from index `i` on.
  unfoldable pub discover_from :
      ℕ → ℕ → List HvacUnit → Gateway → World → List HvacUnit × Gateway × World
  unfolding discover_unit
  discover_from now_ms i [] gw w = ([], gw, w)
  discover_from now_ms i (_ ∷ units) gw w =
      let (u, gw1, w1) = discover_unit now_ms i gw w in
      let (rest, gw2, w2) = discover_from now_ms (i + 1) units gw1 w1 in (u ∷ rest, gw2, w2)

  -- `d3net_gateway_discover_units`
  unfoldable pub discover_units : Gateway → World → Err × Gateway × World
  unfolding read discover_from
  discover_units gw w =
      let now_ms = to_ms (time_us w) in
      let (err, system_status, gw1, w1) =
        read t gw input SystemStatus.address SystemStatus.count gw.system_status now_ms w in
      let gw2 = record gw1 { system_status = system_status } in
      if not (is_ok err)
      then (err, gw2, w1)
      else (let (units, gw3, w2) =
            discover_from now_ms 0 gw.units (record gw2 { discovered_count = 0 }) w1 in
          (ok, record gw3 { units = units }, w2))

  -- One round of the loop of `d3net_gateway_poll_status`.
  unfoldable pub poll_unit : ℕ → ℕ → HvacUnit → Gateway → World → HvacUnit × Gateway × World
  unfolding read Holding.write_within
  poll_unit now_ms i u gw w =
      if not u.present
      then (u, gw, w)
      else if Holding.write_within u.hold now_ms gw.cache_write_s
      then (u, gw, w)
      else (let status_addr = (Status.address + i * Status.count) % 2 ^ 16 in
          let (err, status, gw1, w1) = read t gw input status_addr Status.count u.status now_ms w in
          (record u { status = status }, gw1, w1))

  -- The loop: the units from index `i` on.
  unfoldable pub poll_from :
      ℕ → ℕ → List HvacUnit → Gateway → World → List HvacUnit × Gateway × World
  unfolding poll_unit
  poll_from now_ms i [] gw w = ([], gw, w)
  poll_from now_ms i (u ∷ units) gw w =
      let (u', gw1, w1) = poll_unit now_ms i u gw w in
      let (rest, gw2, w2) = poll_from now_ms (i + 1) units gw1 w1 in (u' ∷ rest, gw2, w2)

  -- `d3net_gateway_poll_status`
  unfoldable pub poll_status : Gateway → World → Err × Gateway × World
  unfolding poll_from
  poll_status gw w =
      let (units, gw1, w1) = poll_from (to_ms (time_us w)) 0 gw.units gw w in
      (ok, record gw1 { units = units }, w1)
