-- ===== src/Gateway/Invariant.antt =====
-- What holds of the gateway between two operations, from d3net_gateway_init on.
use daikin_d3net.Base.{ℕ, zero, suc, ◌+◌, ◌≡◌, refl, ap, sym, ◌∙◌, arith, true}
use daikin_d3net.Base.{List, [], ◌∷◌, length, replicate, Bool-cases, inl, inr}
use daikin_d3net.Esp.{is_ok, is_ok-eq}
use mathlib.Core.Path.{subst}
use daikin_d3net.Gateway.Bus.{Transport}
use daikin_d3net.Gateway.{HvacUnit, Gateway, zero_unit, max_units, init, read}
use daikin_d3net.Gateway.Commit.{IsUnit}
use daikin_d3net.Gateway.Units.{AllFrom, present_count, Pointwise, AllFrom-map}
use daikin_d3net.Gateway.UnitId.{make_unit_id}
use daikin_d3net.Gateway.Discovery.{discover_units, poll_unit, poll_from, poll_status, to_ms}
use daikin_d3net.Gateway.DiscoveryLaws.{discover_units_lem, discover_units_failed}
use daikin_d3net.Gateway.DiscoveryRound.{zero-IsUnit}
use daikin_d3net.Gateway.Polling.{IsPolled, poll_status_lem}

-- The unit at place `i` of the array: its blocks have their sizes, and it knows its place if it is
-- present.
pub record IsUnitAt (i : ℕ) (u : HvacUnit) : Type 0 where
  pub valid : IsUnit u
  pub index : u.present ≡ true → u.index ≡ i
  pub unit_id : u.present ≡ true → u.unit_id ≡ make_unit_id i

-- The gateway: the array is full of such units, and the count is that of the present ones.
pub record IsGateway (gw : Gateway) : Type 0 where
  pub count : length gw.units ≡ max_units
  pub units : AllFrom IsUnitAt 0 gw.units
  pub counted : gw.discovered_count ≡ present_count gw.units

pub blank_units : (n i : ℕ) → AllFrom IsUnitAt i (replicate n zero_unit)
unfolding AllFrom
blank_units zero i = tt
blank_units (suc n) i =
    (record { valid = zero-IsUnit; index = λ e. cc; unit_id = λ e. cc }, blank_units n (i + 1))

-- The state that d3net_gateway_init makes.
pub init-IsGateway : (modbus_device_id : ℕ) → IsGateway (init modbus_device_id)
unfolding init present_count
init-IsGateway modbus_device_id = record { count = refl; units = blank_units 64 0; counted = refl }

module _ (t : Transport) (gw : Gateway) (w : t.World) where
  -- A discovery, whether it succeeds or not.
  pub discover_units-IsGateway : IsGateway gw → IsGateway (discover_units t gw w).1
  discover_units-IsGateway v = elim (Bool-cases (is_ok (discover_units t gw w).0)) [
    | inl e ↦
        let (count, found, counted) =
          discover_units_lem t gw w (omega (arith, v.count)) (is_ok-eq _ e) in
        record {
          count = count ∙ v.count;
          units =
              AllFrom-map _ IsUnitAt
                (λ i u f. record {
                  valid = f.valid;
                  index = λ here. f.index;
                  unit_id = λ here. f.unit_id;
                })
                0 _ found;
          counted = counted;
        }
    | inr e ↦
        let (units, count, _) = discover_units_failed t gw w (λ q. cc (e, ap is_ok q)) in
        record {
          count = ap length units ∙ v.count;
          units = subst (AllFrom IsUnitAt 0) (sym units) v.units;
          counted = count ∙ (v.counted ∙ ap present_count (sym units));
        }
  ]

-- What a poll keeps of the units.
module _ (now_ms cache : ℕ) where
  polled-length :
      (us vs : List HvacUnit) → Pointwise (IsPolled now_ms cache) us vs → length vs ≡ length us
  unfolding Pointwise
  polled-length [] [] h = refl
  polled-length [] (v ∷ vs) h = elim h [ ]
  polled-length (u ∷ us) [] h = elim h [ ]
  polled-length (u ∷ us) (v ∷ vs) h = ap suc (polled-length us vs h.1)

  polled-present :
      (us vs : List HvacUnit)
      → Pointwise (IsPolled now_ms cache) us vs
      → present_count vs ≡ present_count us
  unfolding Pointwise present_count
  polled-present [] [] h = refl
  polled-present [] (v ∷ vs) h = elim h [ ]
  polled-present (u ∷ us) [] h = elim h [ ]
  polled-present (u ∷ us) (v ∷ vs) h =
      rw (ap (λ (x : HvacUnit). x.present) h.0.same, polled-present us vs h.1)

  polled-units :
      (i : ℕ) (us vs : List HvacUnit)
      → Pointwise (IsPolled now_ms cache) us vs
      → AllFrom IsUnitAt i us
      → AllFrom IsUnitAt i vs
  unfolding Pointwise AllFrom
  polled-units i [] [] h a = tt
  polled-units i [] (v ∷ vs) h a = elim h [ ]
  polled-units i (u ∷ us) [] h a = elim h [ ]
  polled-units i (u ∷ us) (v ∷ vs) h a =
      let same = h.0.same in
      let present = ap (λ (x : HvacUnit). x.present) same in
      (
        record {
          valid = h.0.valid a.0.valid;
          index = λ e. ap (λ (x : HvacUnit). x.index) same ∙ a.0.index (sym present ∙ e);
          unit_id = λ e. ap (λ (x : HvacUnit). x.unit_id) same ∙ a.0.unit_id (sym present ∙ e);
        },
        polled-units (i + 1) us vs h.1 a.1,
      )

module _ (t : Transport) where
  poll_unit-count :
      (now_ms i : ℕ) (u : HvacUnit) (gw : Gateway) (w : t.World)
      → (poll_unit t now_ms i u gw w).1.discovered_count ≡ gw.discovered_count
  unfolding poll_unit read
  poll_unit-count now_ms i u gw w = ground arith

  poll_from-count :
      (now_ms i : ℕ) (units : List HvacUnit) (gw : Gateway) (w : t.World)
      → (poll_from t now_ms i units gw w).1.discovered_count ≡ gw.discovered_count
  unfolding poll_from
  poll_from-count now_ms i [] gw w = refl
  poll_from-count now_ms i (u ∷ units) gw w =
      let (u', gw1, w1) = poll_unit t now_ms i u gw w in
      poll_from-count now_ms (i + 1) units gw1 w1 ∙ poll_unit-count now_ms i u gw w

  -- A poll.
  pub poll_status-IsGateway :
      (gw : Gateway) (w : t.World) → IsGateway gw → IsGateway (poll_status t gw w).1
  poll_status-IsGateway gw w v =
      let now_ms = to_ms (t.time_us w) in
      let polled = (poll_status_lem t gw w).1 in
      let same : (poll_status t gw w).1.discovered_count ≡ gw.discovered_count =
        unfold poll_status in poll_from-count now_ms 0 gw.units gw w in
      record {
        count = polled-length now_ms gw.cache_write_s gw.units _ polled ∙ v.count;
        units = polled-units now_ms gw.cache_write_s 0 gw.units _ polled v.units;
        counted =
            same ∙ (v.counted ∙ sym (polled-present now_ms gw.cache_write_s gw.units _ polled));
      }
