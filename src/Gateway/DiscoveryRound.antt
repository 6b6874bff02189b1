-- ===== src/Gateway/DiscoveryRound.antt =====
-- What a round of a discovery leaves of its unit.
use daikin_d3net.Base.{ℕ, ◌+◌, ◌*◌, ◌%◌, ◌^◌, ◌<◌, ◌≡◌, arith}
use daikin_d3net.Base.{Bool, true, false, not, ◌||◌, if◌then◌else◌}
use daikin_d3net.Esp.{is_ok}
use daikin_d3net.Codec.{Words}
use daikin_d3net.Registers.SystemStatus
use daikin_d3net.Registers.Capability
use daikin_d3net.Registers.Status
use daikin_d3net.Gateway.Bus.{Transport, input}
use daikin_d3net.Gateway.{HvacUnit, Gateway, zero_unit, read, throttle}
use daikin_d3net.Gateway.Commit.{IsUnit}
use daikin_d3net.Gateway.UnitId.{make_unit_id}
use daikin_d3net.Gateway.Discovery.{discover_unit}

-- Unit `i` as a discovery leaves it: present only if the system status shows it connected and
-- without an error, and with a holding block that was never read.
pub record IsFound (system_status : Words) (i : ℕ) (u : HvacUnit) : Type 0 where
  pub index : u.index ≡ i
  pub unit_id : u.unit_id ≡ make_unit_id i
  pub hold : u.hold ≡ zero_unit.hold
  pub valid : IsUnit u
  pub connected : u.present ≡ true → SystemStatus.unit_connected system_status i ≡ true
  pub no_error : u.present ≡ true → SystemStatus.unit_error system_status i ≡ false

pub zero-IsUnit : IsUnit zero_unit
zero-IsUnit = record {
  cap = omega arith;
  status = omega arith;
  hold = omega arith;
  error = omega arith;
}

-- The branches of a round.
each_valid :
    {World : Type 0} (skip no_cap no_status : Bool) (a b c d : HvacUnit × Gateway × World)
    → IsUnit a.0
    → IsUnit b.0
    → IsUnit c.0
    → IsUnit d.0
    → IsUnit (if skip then a else if no_cap then b else if no_status then c else d).0
each_valid true no_cap no_status a b c d p q r s = p
each_valid false true no_status a b c d p q r s = q
each_valid false false true a b c d p q r s = r
each_valid false false false a b c d p q r s = s

module _ (t : Transport) (now_ms : ℕ) where
  module _ (i : ℕ) (gw : Gateway) (w : t.World) where
    pub discover_unit-status : (discover_unit t now_ms i gw w).1.system_status ≡ gw.system_status
    unfolding discover_unit read
    discover_unit-status = ground arith

    pub discover_unit-count :
        gw.discovered_count + 1 < 2 ^ 8
        → (discover_unit t now_ms i gw w).1.discovered_count
          ≡ gw.discovered_count + (if (discover_unit t now_ms i gw w).0.present then 1 else 0)
    unfolding discover_unit read
    discover_unit-count h = ground arith

    discover_unit-IsUnit : IsUnit (discover_unit t now_ms i gw w).0
    unfolding discover_unit read
    discover_unit-IsUnit =
        let u = record zero_unit { index = i; unit_id = make_unit_id i } in
        let blank : IsUnit u = record {
          cap = zero-IsUnit.cap;
          status = zero-IsUnit.status;
          hold = zero-IsUnit.hold;
          error = zero-IsUnit.error;
        } in
        let (err1, cap, gw1, w1) =
          read t gw input ((Capability.address + i * Capability.count) % 2 ^ 16) Capability.count
            u.cap now_ms w in
        let with_cap : IsUnit (record u { cap = cap }) = record {
          cap =
              t.read-IsWords (throttle t gw now_ms w) input
                ((Capability.address + i * Capability.count) % 2 ^ 16) Capability.count u.cap
                blank.cap;
          status = blank.status;
          hold = blank.hold;
          error = blank.error;
        } in
        let (err2, status, gw2, w2) =
          read t gw1 input ((Status.address + i * Status.count) % 2 ^ 16) Status.count u.status
            now_ms w1 in
        let with_status : IsUnit (record u { cap = cap; status = status }) = record {
          cap = with_cap.cap;
          status =
              t.read-IsWords (throttle t gw1 now_ms w1) input
                ((Status.address + i * Status.count) % 2 ^ 16) Status.count u.status blank.status;
          hold = blank.hold;
          error = blank.error;
        } in
        each_valid
          (not (SystemStatus.unit_connected gw.system_status i)
            || SystemStatus.unit_error gw.system_status i)
          (not (is_ok err1)) (not (is_ok err2)) (u, gw, w) (record u { cap = cap }, gw1, w1)
          (record u { cap = cap; status = status }, gw2, w2)
          (
            record u { cap = cap; status = status; present = true },
            record gw2 { discovered_count = (gw2.discovered_count + 1) % 2 ^ 8 },
            w2,
          )
          blank with_cap with_status
          (record {
            cap = with_status.cap;
            status = with_status.status;
            hold = with_status.hold;
            error = with_status.error;
          })

    pub discover_unit-IsFound : IsFound gw.system_status i (discover_unit t now_ms i gw w).0
    unfolding discover_unit
    discover_unit-IsFound = record {
      index = ground arith;
      unit_id = ground arith;
      hold = ground arith;
      valid = discover_unit-IsUnit;
      connected = ground arith;
      no_error = ground arith;
    }
