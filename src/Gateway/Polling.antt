-- ===== src/Gateway/Polling.antt =====
-- What a poll changes, and the errors that the gateway keeps for a while.
use daikin_d3net.Base.{ℕ, ◌+◌, ◌-◌, ◌*◌, ◌%◌, ◌^◌, ◌≤◌, ◌<◌, ◌≡◌, refl, ◌∙◌, arith}
use daikin_d3net.Base.{
  Bool, true, false, not, ◌&&◌, List, [], ◌∷◌, ◌==◌, ltb, if◌then◌else◌, if_both,
}
use mathlib.Core.Path.{subst}
use daikin_d3net.Esp.{ok, is_ok-eq}
use daikin_d3net.Registers.Status
use daikin_d3net.Registers.UnitError
use daikin_d3net.Registers.Holding
use daikin_d3net.Registers.Holding.{elapsed}
use daikin_d3net.Gateway.Bus.{Transport, input}
use daikin_d3net.Gateway.{HvacUnit, Gateway, Link, read, read_error, throttle}
use daikin_d3net.Gateway.Commit.{IsUnit}
use daikin_d3net.Gateway.Units.{Pointwise}
use daikin_d3net.Gateway.Discovery.{poll_unit, poll_from, poll_status, to_ms}

-- A unit before and after a poll: its status block alone may differ, and it does not differ if the
-- unit is absent or was written to within the given time.
pub record IsPolled (now_ms cache_write_s : ℕ) (u u' : HvacUnit) : Type 0 where
  pub same : u' ≡ record u { status = u'.status }
  pub absent : u.present ≡ false → u'.status ≡ u.status
  pub written : Holding.write_within u.hold now_ms cache_write_s ≡ true → u'.status ≡ u.status
  pub valid : IsUnit u → IsUnit u'

module _ (t : Transport) (now_ms : ℕ) where
  poll_unit-cache :
      (i : ℕ) (u : HvacUnit) (gw : Gateway) (w : t.World)
      → (poll_unit t now_ms i u gw w).1.cache_write_s ≡ gw.cache_write_s
  unfolding poll_unit read
  poll_unit-cache i u gw w = ground arith

  poll_unit-IsUnit :
      (i : ℕ) (u : HvacUnit) (gw : Gateway) (w : t.World)
      → IsUnit u
      → IsUnit (poll_unit t now_ms i u gw w).0
  unfolding poll_unit read
  poll_unit-IsUnit i u gw w v =
      let Valid : HvacUnit × Gateway × t.World → Type 0 = λ out. IsUnit out.0 in
      let addr = (Status.address + i * Status.count) % 2 ^ 16 in
      let (err, status, gw1, w1) = read t gw input addr Status.count u.status now_ms w in
      let filled : IsUnit (record u { status = status }) = record {
        cap = v.cap;
        status = t.read-IsWords (throttle t gw now_ms w) input addr Status.count u.status v.status;
        hold = v.hold;
        error = v.error;
      } in
      let recent : Bool = Holding.write_within u.hold now_ms gw.cache_write_s in
      if_both Valid (not u.present) {x = (u, gw, w)}
        {y = if recent then (u, gw, w) else (record u { status = status }, gw1, w1)} v
        (if_both Valid recent {x = (u, gw, w)} {y = (record u { status = status }, gw1, w1)} v
          filled)

  poll_unit-IsPolled :
      (i : ℕ) (u : HvacUnit) (gw : Gateway) (w : t.World)
      → IsPolled now_ms gw.cache_write_s u (poll_unit t now_ms i u gw w).0
  unfolding poll_unit
  poll_unit-IsPolled i u gw w = record {
    same = ground arith;
    absent = λ e. ground arith;
    written = λ e. ground arith;
    valid = poll_unit-IsUnit i u gw w;
  }

  poll_from-Pointwise :
      (cache i : ℕ) (units : List HvacUnit) (gw : Gateway) (w : t.World)
      → gw.cache_write_s ≡ cache
      → Pointwise (IsPolled now_ms cache) units (poll_from t now_ms i units gw w).0
  unfolding poll_from Pointwise
  poll_from-Pointwise cache i [] gw w e = tt
  poll_from-Pointwise cache i (u ∷ units) gw w e =
      let (u', gw1, w1) = poll_unit t now_ms i u gw w in
      (
        subst (λ c. IsPolled now_ms c u u') e (poll_unit-IsPolled i u gw w),
        poll_from-Pointwise cache (i + 1) units gw1 w1 (poll_unit-cache i u gw w ∙ e),
      )

-- d3net_gateway_poll_status returns ESP_OK whatever the bus answers; at each place of the array
-- the status block alone may change, and only for a unit that is present and was not written to
-- within the cache time.
pub poll_status_lem :
    (t : Transport) (gw : Gateway) (w : t.World)
    → ((poll_status t gw w).0 ≡ ok)
      × Pointwise
          (IsPolled (to_ms (t.time_us w)) gw.cache_write_s)
          gw.units
          (poll_status t gw w).1.units
unfolding poll_status
poll_status_lem t gw w =
    (refl, poll_from-Pointwise t (to_ms (t.time_us w)) gw.cache_write_s 0 gw.units gw w refl)

-- What a first call that succeeds has done.
read_error-done :
    (t : Transport) (before : ℕ) (s : Link t)
    → s.unit.last_error_read_ms ≡ 0
    → (read_error t before s).0 ≡ ok
    → let s' = (read_error t before s).1 in
      (s'.unit.present ≡ true)
      × (s'.unit.last_error_read_ms ≡ before)
      × (s'.gw.cache_error_s ≡ s.gw.cache_error_s)
unfolding read_error read
read_error-done t before s fresh e =
    let addr = (UnitError.address + s.unit.index * UnitError.count) % 2 ^ 16 in
    let reply =
      t.read_fn (throttle t s.gw before s.world) input addr UnitError.count s.unit.error in
    ground (arith, is_ok-eq reply.0)

read_error-again :
    (t : Transport) (before now_ms : ℕ) (s : Link t)
    → 0 < before
    → before ≤ now_ms
    → now_ms < 2 ^ 64
    → now_ms - before < s.gw.cache_error_s * 1000
    → s.gw.cache_error_s < 2 ^ 16
    → s.unit.present ≡ true
    → s.unit.last_error_read_ms ≡ before
    → read_error t now_ms s ≡ (ok, s)
unfolding read_error
read_error-again t before now_ms s pos h fits soon small here e =
    let cached : (not (s.unit.last_error_read_ms == 0)
          && ltb (elapsed now_ms s.unit.last_error_read_ms) (s.gw.cache_error_s * 1000 % 2 ^ 64))
        ≡ true =
      ground arith in
    rw (here, cached)

-- An error block that a d3net_gateway_read_error has read for the first time, at a time other than
-- 0, is not read again within the cache time: a second call returns ESP_OK and changes nothing, if
-- the clock has not gone back and the numbers fit their types.
pub read_error_cached :
    (t : Transport) (before now_ms : ℕ) (s : Link t)
    → 0 < before
    → before ≤ now_ms
    → now_ms < 2 ^ 64
    → now_ms - before < s.gw.cache_error_s * 1000
    → s.gw.cache_error_s < 2 ^ 16
    → s.unit.last_error_read_ms ≡ 0
    → (read_error t before s).0 ≡ ok
    → read_error t now_ms (read_error t before s).1 ≡ (ok, (read_error t before s).1)
read_error_cached t before now_ms s pos h fits soon small fresh e =
    let s' = (read_error t before s).1 in
    let (here, read_at, same) = read_error-done t before s fresh e in
    read_error-again t before now_ms s' pos h fits (omega (arith, same)) (omega (arith, same)) here
      read_at
