-- ===== src/System/Steps.antt =====
-- The steps of the program, and what holds in every state that they reach.
-- A handler of the web server is one step: it holds the lock of the gateway while it uses it, and
-- nothing else than the handlers, which run one after the other, uses the rest of the application.
use daikin_d3net.Base.{ℕ, ◌≡◌, sym, Bool, List, ◌∷◌, Option, some}
use daikin_d3net.Base.{All}
use mathlib.Core.Path.{subst}
use daikin_d3net.Base.Int.{ℤ}
use daikin_d3net.Esp.{Err}
use daikin_d3net.Config.{AppConfig}
use daikin_d3net.TelnetLog.Clients.{accept_client}
use daikin_d3net.Wifi.{Event, sta_disconnected, sta_got_ip, other_event, event_handler, reconnect}
use daikin_d3net.App.{Platform, Machine}
use daikin_d3net.App.Server.{Request}
use daikin_d3net.App.Tasks.{poll_round, status_round}
use daikin_d3net.System.Rounds.{poll_round-InOrder, status_round-InOrder}
use daikin_d3net.Web.Routes.{Route, routes}
use daikin_d3net.System.Invariant.{IsApp, IsRegistry, initial_app, initial-IsApp, Safe}
use daikin_d3net.System.Pages.{index_get-Safe, status_get-Safe, logs_get-Safe, rtu_get-Safe}
use daikin_d3net.System.Pages.{hvac_get-Safe, registry_get-Safe, wifi_scan_get-Safe}
use daikin_d3net.System.Commands.{hvac_cmd_post-Safe, discover_post-Safe}
use daikin_d3net.System.Changes.{registry_post-Safe}
use daikin_d3net.System.Changes.{wifi_connect_post-Safe, rtu_post-Fine, Fine}
use daikin_d3net.System.Updates.{ota_post-Safe}

-- A route of the table, by its place.
pub data In {A : Type 0} : A → List A → Type 0 where
  here : {x : A} {xs : List A} → In x (x ∷ xs)
  there : {x y : A} {xs : List A} → In x xs → In x (y ∷ xs)

pub All-In : {A : Type 0} (P : A → Type 0) {x : A} {xs : List A} → All P xs → In x xs → P x
All-In P h here = h.0
All-In P h (there i) = All-In P h.1 i

module _ (p : Platform) (page : List ℕ) where
  open p use {http}

  -- The flag `first` of `poll_task`, and the machine.
  abbrev pub State : Type 0
  State = Bool × Machine p

  -- A connection to the log, an event of the radio and a round of `wifi_reconnect_task`.
  abbrev pub connected : ℤ → Machine p → Machine p
  connected sock m =
      let (telnet, sockets) = accept_client p.sockets sock m.telnet m.sockets in
      record m { telnet = telnet; sockets = sockets }

  abbrev pub notified : Event → Machine p → Machine p
  notified e m =
      let (wifi, radio) = event_handler p.radio e m.wifi m.radio in
      record m { wifi = wifi; radio = radio }

  abbrev pub reconnected : Machine p → Machine p
  reconnected m = record m { radio = reconnect p.radio m.wifi m.radio }

  pub data Step : State → State → Type 0 where
    -- A request on a route, whose handler comes to an end.
    request :
        {first : Bool} {m m' : Machine p} {err : Err} (r : Route p) (req : Request)
        → In r (routes p page)
        → r.handler req m ≡ some (err, m')
        → Step (first, m) (first, m')
    -- A round of `poll_task`, and of `telnet_status_task`.
    poll : {first : Bool} {m : Machine p} → Step (first, m) (poll_round p first m)
    status : {first : Bool} {m : Machine p} → Step (first, m) (first, status_round p m)
    connection :
        {first : Bool} {m : Machine p} (sock : ℤ) → Step (first, m) (first, connected sock m)
    event : {first : Bool} {m : Machine p} (e : Event) → Step (first, m) (first, notified e m)
    reconnection : {first : Bool} {m : Machine p} → Step (first, m) (first, reconnected m)

  -- The states that a sequence of steps reaches.
  pub data Reach (s : State) : State → Type 0 where
    start : Reach s s
    next : {a b : State} → Reach s a → Step a b → Reach s b

  abbrev InOrder : State → Type 0
  InOrder s = IsApp s.1.app

  -- A route whose handler keeps the application in order.
  Kept : Route p → Type 0
  Kept r = (req : Request) (m : Machine p) → IsApp m.app → Fine p (r.handler req m)

  routes-Kept : All Kept (routes p page)
  unfolding routes Kept Fine
  routes-Kept = (
    index_get-Safe p page,
    (
      status_get-Safe p,
      (
        wifi_scan_get-Safe p,
        (
          wifi_connect_post-Safe p,
          (
            hvac_get-Safe p,
            (
              discover_post-Safe p,
              (
                hvac_cmd_post-Safe p,
                (
                  registry_get-Safe p,
                  (
                    registry_post-Safe p,
                    (logs_get-Safe p, (rtu_get-Safe p, (rtu_post-Fine p, (ota_post-Safe p, tt)))),
                  ),
                ),
              ),
            ),
          ),
        ),
      ),
    ),
  )

  request-InOrder :
      (out : Option (Err × Machine p)) (err : Err) (m' : Machine p)
      → Fine p out
      → out ≡ some (err, m')
      → IsApp m'.app
  unfolding Fine Safe
  request-InOrder out err m' h e = subst (Fine p) e h

  Step-InOrder : {a b : State} → Step a b → InOrder a → InOrder b
  unfolding Kept
  Step-InOrder (request {m = m} {m' = m'} {err = err} r req i e) v =
      request-InOrder _ err m' (All-In Kept routes-Kept i req m v) e
  Step-InOrder (poll {first = first} {m = m}) v = poll_round-InOrder p first m v
  Step-InOrder (status {m = m}) v = status_round-InOrder p m v
  Step-InOrder (connection sock) v = v
  Step-InOrder (event sta_disconnected) v = v
  Step-InOrder (event sta_got_ip) v = v
  Step-InOrder (event other_event) v = v
  Step-InOrder reconnection v = v

  pub preserved : {a b : State} → Reach a b → InOrder a → InOrder b
  preserved start v = v
  preserved (next r s) v = Step-InOrder s (preserved r v)

  -- From the context that app_main makes of a configuration whose registry fits its types, every
  -- sequence of requests, rounds of the tasks, connections and events of the radio, whatever the
  -- bus, the network and the driver answer, leads to a state in which the array of the gateway has
  -- 64 units whose blocks have their sizes, each present one with the index and the id of its
  -- place, the count is that of the present units, no update is under way and a successful one of
  -- fewer than 2^31 bytes has received all its bytes, and the mask and the ids of the registry fit
  -- their types.
  pub Reach-IsApp :
      (cfg : AppConfig) (first : Bool) (m : Machine p) (s : State)
      → IsRegistry cfg
      → m.app ≡ initial_app cfg
      → Reach (first, m) s
      → IsApp s.1.app
  Reach-IsApp cfg first m s r e steps = preserved steps (subst IsApp (sym e) (initial-IsApp cfg r))
