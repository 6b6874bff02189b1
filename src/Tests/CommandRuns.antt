-- ===== src/Tests/CommandRuns.antt =====
-- The theorems on commands over HTTP, on a board whose bus answers, and on the list of units.
use daikin_d3net.Base.{
  [], none, ◌+◌, ◌≡◌, refl, arith, some, get_or, true, ◌&&◌, ◌||◌, if◌then◌else◌,
}
use daikin_d3net.Base.Int.{pos}
use daikin_d3net.Base.Text.{codes}
use daikin_d3net.Esp.{is_ok}
use daikin_d3net.Gateway.{zero_unit, init}
use daikin_d3net.Web.Hvac.{run_command}
use daikin_d3net.Web.Hvac.Answering.{is_command, run_command_answered}
use daikin_d3net.Web.Registry.{registry, reg_is_set}
use daikin_d3net.Web.Registry.Listing.{listed, items_of, registry_lists_once}
use daikin_d3net.Web.Hvac.Delivery.{IsServed, power_delivers}
use daikin_d3net.Codec.{bit_get}
use daikin_d3net.Esp.{Err, ok}
use daikin_d3net.Tests.Sample.{device, block_regs}
use daikin_d3net.App.{Machine}
use daikin_d3net.App.Server.{Request}
use daikin_d3net.Web.Hvac.{hvac_get}
use daikin_d3net.Web.Routes.{Route, get, routes}
use daikin_d3net.System.Ledger.{Ledger}
use daikin_d3net.System.Steps.{In, here, there}
use daikin_d3net.System.Answers.Updates.{request_answered}
use daikin_d3net.Tests.Sample.{Fraction}
use daikin_d3net.Tests.Board.{board, http, tree_number}
use daikin_d3net.Tests.AnswerRuns.{online}
use daikin_d3net.Web.Ota.{ota_post}
use daikin_d3net.App.Tasks.{status_round, poll_round}
use daikin_d3net.Tests.Sample.{block_read}
use daikin_d3net.Registers.SystemStatus
use daikin_d3net.System.Serving.{reached_command}
use daikin_d3net.Tests.WebRuns.{
  rounds, updated, updated-Reach, home, home-IsRegistry, machine, discovered, gateway-IsGateway,
}

run_command_answered_example :
    is_ok (run_command board 2 (codes "fan_speed") (some (tree_number (pos 5))) discovered).0 ≡ (
      (board.http.take discovered.http 5000).0
      && ((get_or discovered.app.gateway.units 2 zero_unit).present
          && is_command board online (codes "fan_speed") (some (tree_number (pos 5)))))
run_command_answered_example =
    run_command_answered board online 2 (omega arith) discovered gateway-IsGateway refl
      (codes "fan_speed") (some (tree_number (pos 5)))

registry_lists_once_example : listed 2 (items_of (registry board true discovered)) ≡ (
    if (true && (get_or discovered.app.gateway.units 2 zero_unit).present)
      || reg_is_set discovered.app.config 2
    then 1
    else 0)
registry_lists_once_example =
    registry_lists_once board true discovered gateway-IsGateway 2 (omega arith)

discovered-IsServed : IsServed board online device 2 discovered
unfolding device block_regs init
discovered-IsServed = record {
  within = omega arith;
  taken = refl;
  order = gateway-IsGateway;
  present = refl;
  alive = refl;
  later = omega arith;
  coherent = λ clean seen. refl;
}

power_delivers_example :
    let (err, m') = run_command board 2 (codes "power") (some (tree_number (pos 1))) discovered in
    (err ≡ ok) × (bit_get (block_regs m'.bus 2006 3) 3 0 ≡ true)
unfolding device init
power_delivers_example =
    power_delivers board online device 2 discovered (tree_number (pos 1)) discovered-IsServed refl

-- The books of the board: replies and locks are counted, and every tree is printed.
abbrev books : Ledger Fraction http
books = record {
  sent = λ w. w.replies;
  held = λ w. w.locks;
  send_sends = λ w kind body. (refl, refl);
  send_err_sends = λ w status text. (refl, refl);
  take_holds = λ w ms. (refl, refl);
  give_frees = λ w. (refl, refl);
  recv_keeps = λ w most. (refl, refl);
  delay_keeps = λ w ms. (refl, refl);
  restart_keeps = λ w. (refl, refl);
  ota_begin_keeps = λ w partition. (refl, refl);
  ota_write_keeps = λ w handle bytes. (refl, refl);
  ota_abort_keeps = λ w handle. (refl, refl);
  ota_end_keeps = λ w handle. (refl, refl);
  set_boot_keeps = λ w partition. (refl, refl);
  prints = λ root e. cc e;
}

-- The list of units, which takes the lock.
listing : Route board
listing = get board [] "/api/hvac" (hvac_get board)

listing-In : In listing (routes board [])
unfolding listing routes
listing-In = there (there (there (there here)))

request : Request
request = record { content_len = 0; since = none }

shown : Err × Machine board
shown = hvac_get board request discovered

request_answered_example :
    (shown.1.http.replies ≡ discovered.http.replies + 1)
    × (shown.1.http.locks ≡ discovered.http.locks)
unfolding listing shown
request_answered_example =
    request_answered board books [] listing request discovered shown.1 shown.0 listing-In refl

updated-alive : updated.bus.online ≡ true
unfolding updated rounds init ota_post status_round poll_round block_read
    SystemStatus.unit_connected
updated-alive = refl

reached_command_example : is_ok (run_command board 2 (codes "filter_reset") none updated).0 ≡ (
    (board.http.take updated.http 5000).0
    && ((get_or updated.app.gateway.units 2 zero_unit).present
        && is_command board online (codes "filter_reset") none))
reached_command_example =
    reached_command board [] online home true machine (rounds.0, updated) home-IsRegistry refl
      updated-Reach updated-alive 2 (codes "filter_reset") none (omega arith)
