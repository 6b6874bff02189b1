-- ===== src/Gateway/DiscoveryLaws.antt =====
-- What a discovery leaves in the gateway.
use daikin_d3net.Base.{ℕ, suc, ◌+◌, ◌^◌, ◌≤◌, ◌<◌, ◌≡◌, ◌≢◌, refl, ap, sym, ◌∙◌, arith}
use daikin_d3net.Base.{not, List, [], ◌∷◌, if◌then◌else◌, length}
use daikin_d3net.Esp.{Err, ok, is_ok, is_ok-eq}
use daikin_d3net.Codec.{Words}
use daikin_d3net.Registers.SystemStatus
use mathlib.Core.Path.{subst}
use daikin_d3net.Gateway.Bus.{Transport, input}
use daikin_d3net.Gateway.{HvacUnit, Gateway, read, throttle}
use daikin_d3net.Gateway.Units.{AllFrom, present_count}
use daikin_d3net.Gateway.Discovery.{discover_unit, discover_from, discover_units, to_ms}
use daikin_d3net.Gateway.DiscoveryRound.{
  IsFound, discover_unit-status, discover_unit-count, discover_unit-IsFound,
}

module _ (t : Transport) (now_ms : ℕ) where
  discover_from-AllFrom :
      (status : Words) (i : ℕ) (units : List HvacUnit) (gw : Gateway) (w : t.World)
      → gw.system_status ≡ status
      → AllFrom (IsFound status) i (discover_from t now_ms i units gw w).0
  unfolding discover_from AllFrom
  discover_from-AllFrom status i [] gw w e = tt
  discover_from-AllFrom status i (_ ∷ units) gw w e =
      let (u, gw1, w1) = discover_unit t now_ms i gw w in
      (
        subst (λ s. IsFound s i u) e (discover_unit-IsFound t now_ms i gw w),
        discover_from-AllFrom status (i + 1) units gw1 w1
            (discover_unit-status t now_ms i gw w ∙ e),
      )

  discover_from-length :
      (i : ℕ) (units : List HvacUnit) (gw : Gateway) (w : t.World)
      → length (discover_from t now_ms i units gw w).0 ≡ length units
  unfolding discover_from
  discover_from-length i [] gw w = refl
  discover_from-length i (_ ∷ units) gw w =
      let (u, gw1, w1) = discover_unit t now_ms i gw w in
      ap suc (discover_from-length (i + 1) units gw1 w1)

  pub discover_from-status :
      (i : ℕ) (units : List HvacUnit) (gw : Gateway) (w : t.World)
      → (discover_from t now_ms i units gw w).1.system_status ≡ gw.system_status
  unfolding discover_from
  discover_from-status i [] gw w = refl
  discover_from-status i (_ ∷ units) gw w =
      let (u, gw1, w1) = discover_unit t now_ms i gw w in
      discover_from-status (i + 1) units gw1 w1 ∙ discover_unit-status t now_ms i gw w

  -- From a count that has room for the units that are left.
  discover_from-count :
      (i : ℕ) (units : List HvacUnit) (gw : Gateway) (w : t.World)
      → gw.discovered_count + length units < 2 ^ 8
      → (discover_from t now_ms i units gw w).1.discovered_count
        ≡ gw.discovered_count + present_count (discover_from t now_ms i units gw w).0
  unfolding discover_from present_count
  discover_from-count i [] gw w h = omega arith
  discover_from-count i (_ ∷ units) gw w h =
      let (u, gw1, w1) = discover_unit t now_ms i gw w in
      let here = discover_unit-count t now_ms i gw w (omega arith) in
      let at_most : (if u.present then 1 else 0) ≤ 1 = ground arith in
      discover_from-count (i + 1) units gw1 w1 (omega (arith, here, at_most)) ∙ omega (arith, here)

-- What is returned behind a test that was passed.
went_on :
    {World : Type 0} (err : Err) (a b : Gateway) (x y : World)
    → let out : Err × Gateway × World = (if not (is_ok err) then (err, a, x) else (ok, b, y)) in
      out.0 ≡ ok → out ≡ (ok, b, y)
went_on err a b x y e = ground (arith, is_ok-eq err)

module _ (t : Transport) (gw : Gateway) (w : t.World) where
  now_ms : ℕ
  now_ms = to_ms (t.time_us w)

  -- The gateway and the world before the loop.
  started : Gateway × t.World
  started =
      let (err, system_status, gw1, w1) =
        read t gw input SystemStatus.address SystemStatus.count gw.system_status now_ms w in
      (record gw1 { system_status = system_status; discovered_count = 0 }, w1)

  ended : Gateway × t.World
  ended =
      let (units, gw', w') = discover_from t now_ms 0 gw.units started.0 started.1 in
      (record gw' { units = units }, w')

  discover_units-ended :
      (discover_units t gw w).0 ≡ ok → discover_units t gw w ≡ (ok, ended.0, ended.1)
  unfolding discover_units ended started now_ms
  discover_units-ended =
      let (err, system_status, gw1, w1) =
        read t gw input SystemStatus.address SystemStatus.count gw.system_status now_ms w in
      went_on err (record gw1 { system_status = system_status }) ended.0 w1 ended.1

  -- A d3net_gateway_discover_units that returns ESP_OK, on an array of fewer than 256 units,
  -- leaves the array as long as it was and every unit with its index, its id and blocks of their
  -- sizes, present only if the system status it read shows it connected and without an error, and
  -- counts exactly the units that are present.
  pub discover_units_lem :
      length gw.units < 2 ^ 8
      → (discover_units t gw w).0 ≡ ok
      → let gw' = (discover_units t gw w).1 in
        (length gw'.units ≡ length gw.units)
        × AllFrom (IsFound gw'.system_status) 0 gw'.units
        × (gw'.discovered_count ≡ present_count gw'.units)
  unfolding ended started
  discover_units_lem h e =
      let same = discover_from-status t now_ms 0 gw.units started.0 started.1 in
      rw (discover_units-ended e) (
        discover_from-length t now_ms 0 gw.units started.0 started.1,
        discover_from-AllFrom t now_ms _ 0 gw.units started.0 started.1 (sym same),
        discover_from-count t now_ms 0 gw.units started.0 started.1 (omega arith) ∙ omega arith,
      )

  -- A d3net_gateway_discover_units that does not return ESP_OK keeps the units, their count and
  -- the system status.
  pub discover_units_failed :
      (discover_units t gw w).0 ≢ ok
      → let gw' = (discover_units t gw w).1 in
        (gw'.units ≡ gw.units)
        × (gw'.discovered_count ≡ gw.discovered_count)
        × (gw'.system_status ≡ gw.system_status)
  unfolding discover_units read
  discover_units_failed e =
      let now_ms = to_ms (t.time_us w) in
      ground (arith, t.read_failed (throttle t gw now_ms w) input 0 9 gw.system_status)
