-- ===== src/Tests/DiscoveryRuns.antt =====
-- The theorems on discovery and polling, on the sample bus.
use daikin_d3net.Base.{◌<◌, ◌≡◌, ◌≢◌, refl, arith, true, false, [], ◌∷◌, length}
use daikin_d3net.Esp.{ok}
use daikin_d3net.Registers.SystemStatus
use daikin_d3net.Gateway.{Gateway, init, read_error}
use daikin_d3net.Gateway.UnitId.{make_unit_id, make_unit_id_differs}
use daikin_d3net.Gateway.Discovery.{discover_units, poll_status, to_ms}
use daikin_d3net.Gateway.Units.{AllFrom, present_count, Pointwise}
use daikin_d3net.Gateway.DiscoveryLaws.{discover_units_lem, discover_units_failed}
use daikin_d3net.Gateway.DiscoveryRound.{IsFound}
use daikin_d3net.Gateway.Polling.{IsPolled, poll_status_lem, read_error_cached}
use daikin_d3net.Tests.Sample.{Block, block_read, bus, unit, link}

-- A gateway of two units, and a bus whose system status has unit 1 connected.
small : Gateway
small = record (init 1) { units = unit ∷ unit ∷ [] }

system : Block
system = record {
  at = 0;
  words = 1 ∷ 2 ∷ 0 ∷ 0 ∷ 0 ∷ 0 ∷ 0 ∷ 0 ∷ 0 ∷ [];
  online = true;
  clock = 5000000;
}

discover_units_runs :
    ((discover_units bus small system).0 ≡ ok)
    × ((discover_units bus small system).1.discovered_count ≡ 1)
unfolding discover_units small system init block_read SystemStatus.unit_connected
    SystemStatus.unit_error
discover_units_runs = (refl, refl)

small-length : length small.units < 256
unfolding small
small-length = omega arith

discover_units_lem_example :
    let gw' = (discover_units bus small system).1 in
    (length gw'.units ≡ length small.units)
    × AllFrom (IsFound gw'.system_status) 0 gw'.units
    × (gw'.discovered_count ≡ present_count gw'.units)
discover_units_lem_example = discover_units_lem bus small system small-length discover_units_runs.0

offline : Block
offline = record system { online = false }

discover_units_fails : (discover_units bus small offline).0 ≢ ok
unfolding discover_units small offline system init block_read
discover_units_fails e = cc e

discover_units_failed_example :
    let gw' = (discover_units bus small offline).1 in
    (gw'.units ≡ small.units)
    × (gw'.discovered_count ≡ small.discovered_count)
    × (gw'.system_status ≡ small.system_status)
discover_units_failed_example = discover_units_failed bus small offline discover_units_fails

poll_status_lem_example :
    ((poll_status bus small system).0 ≡ ok)
    × Pointwise
        (IsPolled (to_ms (bus.time_us system)) small.cache_write_s)
        small.units
        (poll_status bus small system).1.units
poll_status_lem_example = poll_status_lem bus small system

read_error_runs : (read_error bus 5000 link).0 ≡ ok
unfolding read_error init block_read
read_error_runs = refl

read_error_cached_example :
    read_error bus 9000 (read_error bus 5000 link).1 ≡ (ok, (read_error bus 5000 link).1)
unfolding init
read_error_cached_example =
    read_error_cached bus 5000 9000 link (omega arith) (omega arith) (omega arith) (omega arith)
      (omega arith) refl read_error_runs

-- The names 1-01 and 2-01.
make_unit_id_differs_example : make_unit_id 1 ≢ make_unit_id 17
make_unit_id_differs_example = make_unit_id_differs 1 17 (omega arith) (omega arith) (omega arith)
