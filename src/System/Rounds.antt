-- ===== src/System/Rounds.antt =====
-- The rounds of the tasks keep the application in order.
use daikin_d3net.Base.{
  ℕ, ◌≡◌, refl, sym, ◌∙◌, arith, Bool, true, false, List, [], ◌∷◌, if_both, if◌then◌else◌,
}
use mathlib.Core.Path.{subst}
use daikin_d3net.Base.{◌++◌}
use daikin_d3net.Base.Text.{codes}
use daikin_d3net.Wifi.{print_byte}
use daikin_d3net.Gateway.{HvacUnit}
use daikin_d3net.Gateway.Discovery.{discover_units, poll_status}
use daikin_d3net.Gateway.Invariant.{discover_units-IsGateway, poll_status-IsGateway}
use daikin_d3net.App.{Platform, Machine, log}
use daikin_d3net.App.Tasks.{
  with_gateway, poll_body, poll_round, log_units, status_line, status_body, status_round,
}
use daikin_d3net.System.Invariant.{IsApp}

module _ (p : Platform) where
  open p use {http}

  discovered-InOrder :
      (m : Machine p) → IsApp m.app → IsApp (with_gateway p (discover_units p.bus) m).1.app
  discovered-InOrder m v = record {
    gateway = discover_units-IsGateway p.bus m.app.gateway m.bus v.gateway;
    ota = v.ota;
    registry = v.registry;
  }

  polled-InOrder :
      (m : Machine p) → IsApp m.app → IsApp (with_gateway p (poll_status p.bus) m).1.app
  polled-InOrder m v = record {
    gateway = poll_status-IsGateway p.bus m.app.gateway m.bus v.gateway;
    ota = v.ota;
    registry = v.registry;
  }

  discovered-app :
      (m : Machine p) → (poll_body p true m).1.app ≡ (with_gateway p (discover_units p.bus) m).1.app
  unfolding poll_body log
  discovered-app m = ground arith

  polled-app :
      (m : Machine p) → (poll_body p false m).1.app ≡ (with_gateway p (poll_status p.bus) m).1.app
  unfolding poll_body log
  polled-app m = ground arith

  poll_body-InOrder :
      (first : Bool) (m : Machine p) → IsApp m.app → IsApp (poll_body p first m).1.app
  poll_body-InOrder true m v = subst IsApp (sym (discovered-app m)) (discovered-InOrder m v)
  poll_body-InOrder false m v = subst IsApp (sym (polled-app m)) (polled-InOrder m v)

  pub poll_round-InOrder :
      (first : Bool) (m : Machine p) → IsApp m.app → IsApp (poll_round p first m).1.app
  unfolding poll_round
  poll_round-InOrder first m v =
      let (taken, w) = http.take m.http 4000 in
      let m1 = record m { http = w } in
      let (first', m2) = poll_body p first m1 in
      if_both (λ (out : Bool × Machine p). IsApp out.1.app) taken
        {x = (first', record m2 { http = http.give m2.http })} {y = (first, m1)}
        (poll_body-InOrder first m1 v) v

  logged-app :
      (shown : Bool) (line : List ℕ) (m : Machine p)
      → (if shown then log p line m else m).app ≡ m.app
  unfolding log
  logged-app true line m = refl
  logged-app false line m = refl

  log_units-app : (units : List HvacUnit) (m : Machine p) → (log_units p units m).app ≡ m.app
  unfolding log_units
  log_units-app [] m = refl
  log_units-app (u ∷ units) m = log_units-app units _ ∙ logged-app u.present (status_line p u) m

  status_body-app : (m : Machine p) → (status_body p m).app ≡ m.app
  unfolding status_body log
  status_body-app m =
      let line = codes "units=" ++ print_byte m.app.gateway.discovered_count in
      log_units-app m.app.gateway.units (log p line m)

  pub status_round-InOrder : (m : Machine p) → IsApp m.app → IsApp (status_round p m).app
  unfolding status_round
  status_round-InOrder m v =
      let (taken, w) = http.take m.http 200 in
      let m1 = record m { http = w } in
      let m2 = status_body p m1 in
      if_both (λ (x : Machine p). IsApp x.app) taken {x = record m2 { http = http.give m2.http }}
        {y = m1} (subst IsApp (sym (status_body-app m1)) v) v
