-- ===== src/Gateway/Finding.antt =====
-- What a discovery on a bus that answers finds: the units that the system status shows.
use daikin_d3net.Base.{ℕ, ◌+◌, ◌*◌, ◌%◌, ◌^◌, ◌≡◌, refl, ap, ◌∙◌, arith}
use daikin_d3net.Base.{Bool, not, ◌&&◌, ◌||◌, Bool-cases, inl, inr}
use daikin_d3net.Base.{List, [], ◌∷◌}
use daikin_d3net.Esp.{ok}
use daikin_d3net.Codec.{Words}
use daikin_d3net.Registers.Status
use daikin_d3net.Registers.SystemStatus
use daikin_d3net.Registers.Capability
use daikin_d3net.Gateway.Bus.{Transport, input}
use daikin_d3net.Gateway.{HvacUnit, Gateway, read, zero_unit}
use daikin_d3net.Gateway.Units.{AllFrom}
use daikin_d3net.Gateway.UnitId.{make_unit_id}
use daikin_d3net.Gateway.Discovery.{discover_unit, discover_from, discover_units, to_ms}
use daikin_d3net.Gateway.DiscoveryLaws.{discover_from-status}
use daikin_d3net.Gateway.DiscoveryRound.{discover_unit-status}
use daikin_d3net.Gateway.Answering.{Answers, read-answered}

-- Whether the system status shows a unit as one to be found.
unfoldable pub is_shown : Words → ℕ → Bool
unfolding SystemStatus.unit_connected SystemStatus.unit_error
is_shown system_status i =
    SystemStatus.unit_connected system_status i && not (SystemStatus.unit_error system_status i)

skipped : (connected error : Bool) → (not connected || error) ≡ not (connected && not error)
skipped connected error = ground arith

module _ (t : Transport) (a : Answers t) (now_ms : ℕ) where
  Found : Words → ℕ → HvacUnit × Gateway × t.World → Type 0
  Found status i out = (out.0.present ≡ is_shown status i) × a.Alive out.2

  discover_unit-Found :
      (i : ℕ) (gw : Gateway) (w : t.World)
      → a.Alive w
      → Found gw.system_status i (discover_unit t now_ms i gw w)
  unfolding discover_unit Found is_shown
  discover_unit-Found i gw w v =
      let u = record zero_unit { index = i; unit_id = make_unit_id i } in
      let (err1, cap, gw1, w1) =
        read t gw input ((Capability.address + i * Capability.count) % 2 ^ 16) Capability.count
          u.cap now_ms w in
      let first =
        read-answered t a gw input ((Capability.address + i * Capability.count) % 2 ^ 16)
          Capability.count u.cap now_ms w v (omega arith) (omega arith) in
      let second =
        read-answered t a gw1 input ((Status.address + i * Status.count) % 2 ^ 16) Status.count
          u.status now_ms w1 first.1 (omega arith) (omega arith) in
      let test =
        skipped (SystemStatus.unit_connected gw.system_status i)
          (SystemStatus.unit_error gw.system_status i) in
      elim (Bool-cases (is_shown gw.system_status i)) [
        | inl e ↦ rw (test, e, first.0, second.0) (refl, second.1)
        | inr e ↦ rw (test, e) (refl, v)
      ]

  discover_from-Found :
      (status : Words) (i : ℕ) (units : List HvacUnit) (gw : Gateway) (w : t.World)
      → a.Alive w
      → gw.system_status ≡ status
      → let out = discover_from t now_ms i units gw w in
        AllFrom (λ j u. u.present ≡ is_shown status j) i out.0 × a.Alive out.2
  unfolding discover_from AllFrom Found
  discover_from-Found status i [] gw w v e = (tt, v)
  discover_from-Found status i (_ ∷ units) gw w v e =
      let (u, gw1, w1) = discover_unit t now_ms i gw w in
      let here = discover_unit-Found i gw w v in
      let rest =
        discover_from-Found status (i + 1) units gw1 w1 here.1
          (discover_unit-status t now_ms i gw w ∙ e) in
      ((here.0 ∙ ap (λ ws. is_shown ws i) e, rest.0), rest.1)

module _ (t : Transport) (a : Answers t) (gw : Gateway) (w : t.World) where
  -- On a bus that answers, a d3net_gateway_discover_units returns ESP_OK and finds exactly the
  -- units that the system status it read shows connected and without an error, and the bus still
  -- answers.
  pub discover_units_answered :
      a.Alive w
      → let (err, gw', w') = discover_units t gw w in
        (err ≡ ok)
        × AllFrom (λ i u. u.present ≡ is_shown gw'.system_status i) 0 gw'.units
        × a.Alive w'
  unfolding discover_units
  discover_units_answered v =
      let now_ms = to_ms (t.time_us w) in
      let (err, status, gw1, w1) =
        read t gw input SystemStatus.address SystemStatus.count gw.system_status now_ms w in
      let gw2 : Gateway = record gw1 { system_status = status; discovered_count = 0 } in
      let first =
        read-answered t a gw input SystemStatus.address SystemStatus.count gw.system_status now_ms w
          v (omega arith) (omega arith) in
      let found = discover_from-Found t a now_ms status 0 gw.units gw2 w1 first.1 refl in
      let same = discover_from-status t now_ms 0 gw.units gw2 w1 in
      rw (first.0, same) (refl, found.0, found.1)
