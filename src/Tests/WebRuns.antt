-- ===== src/Tests/WebRuns.antt =====
-- The theorems on the store, the radio, the web server and the whole program, on a board.
use daikin_d3net.Tests.Store.{nvs, flash, ids, rtu, some_ids, Entries}
use daikin_d3net.Tests.Board.{board, sockets, radio, Connection, tree_number}
use daikin_d3net.Base.{◌+◌, ◌<◌, ◌≡◌, refl, arith, true, not, ◌==◌, [], ◌∷◌}
use daikin_d3net.Base.{none, some, if◌then◌else◌, set, get_or, length, replicate}
use daikin_d3net.Base.Int.{pos}
use daikin_d3net.Base.Text.{codes, is_empty}
use daikin_d3net.Esp.{Err, ok}
use daikin_d3net.Gateway.{HvacUnit, Gateway, init, zero_unit}
use daikin_d3net.Gateway.UnitId.{make_unit_id}
use daikin_d3net.Gateway.Commit.{IsCommitted}
use daikin_d3net.Gateway.Units.{AllFrom-set, present_count}
use daikin_d3net.Gateway.Invariant.{IsUnitAt, IsGateway, blank_units}
use daikin_d3net.Registers.Holding
use daikin_d3net.Registers.Status
use daikin_d3net.Config.{AppConfig, default_config}
use daikin_d3net.Config.Store.{load, save}
use daikin_d3net.Config.RoundTrip.{Fits, load-save}
use daikin_d3net.TelnetLog.{s_telnet}
use daikin_d3net.TelnetLog.Clients.{open_count, accept_client, accept_client_room}
use daikin_d3net.Wifi.{initial, scan}
use daikin_d3net.Wifi.Scan.{IsScan, scan-IsScan}
use daikin_d3net.App.{Machine}
use daikin_d3net.Web.Registry.{reg_is_set, reg_set}
use daikin_d3net.Web.Registry.Mask.{reg_is_set-reg_set}
use daikin_d3net.Web.Hvac.{run_command}
use daikin_d3net.Web.Hvac.Command.{run_command-IsCommitted, run_command_elsewhere}
use daikin_d3net.Web.Ota.{received, receive_image}
use daikin_d3net.Web.Ota.Image.{receive_image-enough, receive_image-received}
use daikin_d3net.System.Invariant.{IsApp, IsRegistry, initial_app}
use daikin_d3net.System.Steps.{
  State, Reach, start, next, poll, status, request, In, here, there, Reach-IsApp,
}
use daikin_d3net.Web.Routes.{Route, post, routes}
use daikin_d3net.App.Server.{Request}
use daikin_d3net.Web.Ota.{ota_post}
use daikin_d3net.App.Tasks.{poll_round, status_round}
use daikin_d3net.Tests.Sample.{unit, world, llround, block_write}

-- A configuration with a network and a registered unit.
abbrev pub home : AppConfig
home = record default_config {
  sta_ssid = codes "home";
  sta_password = codes "secret";
  sta_configured = true;
  registered_mask = 4;
  registered_ids = some_ids;
}

home-Fits : Fits ids rtu home
home-Fits = record { ssid = omega arith; password = omega arith; rows = refl; line = tt }

abbrev pub empty_store : Entries
empty_store key = none

save_runs : (save nvs ids rtu home empty_store).0 ≡ ok
unfolding save
save_runs = refl

load-save_example :
    let loaded = load nvs ids rtu (save nvs ids rtu home empty_store).1 in
    (loaded.0 ≡ ok) × (loaded.1 ≡ record home { sta_configured = not (is_empty home.sta_ssid) })
load-save_example = load-save nvs flash ids rtu home empty_store home-Fits save_runs

scan-IsScan_example : IsScan 2 (scan radio 2 0).1 (scan radio 2 0).2
scan-IsScan_example = scan-IsScan radio 2 0

no_client : open_count s_telnet.clients < length s_telnet.clients
unfolding open_count
no_client = omega arith

accept_client_room_example :
    open_count (accept_client sockets (pos 5) s_telnet 0).0.clients
    ≡ open_count s_telnet.clients + 1
accept_client_room_example = accept_client_room sockets (pos 5) s_telnet 0 refl no_client

reg_is_set-reg_set_example :
    reg_is_set (reg_set home 5 true none) 2 ≡ (if 5 == 2 then true else reg_is_set home 2)
reg_is_set-reg_set_example = reg_is_set-reg_set home 5 true none 2 (omega arith)

-- An image of three bytes.
abbrev pub connection : Connection
connection = record { body = 1 ∷ 2 ∷ 3 ∷ []; replies = 0; stored = []; locks = 0 }

image_runs : (receive_image board 4 7 3 0 connection).0 ≡ received
unfolding receive_image
image_runs = refl

receive_image-received_example : (receive_image board 4 7 3 0 connection).2 ≡ 0 + 3
receive_image-received_example =
    receive_image-received board 7 4 3 0 connection (omega arith) image_runs

receive_image-enough_example :
    receive_image board 4 7 3 0 connection ≡ receive_image board 9 7 3 0 connection
receive_image-enough_example =
    receive_image-enough board 7 4 9 3 0 connection (omega arith) (omega arith)

-- A gateway with unit 2 present.
abbrev pub second : HvacUnit
second = record unit { unit_id = make_unit_id 2 }

abbrev pub gateway : Gateway
gateway = record (init 1) { units = set (init 1).units 2 second; discovered_count = 1 }

pub gateway-IsGateway : IsGateway gateway
unfolding init present_count
gateway-IsGateway = record {
  count = refl;
  units = AllFrom-set IsUnitAt 0 (replicate 64 zero_unit) 2 second (blank_units 64 0) (record {
    valid = record {
      cap = omega arith;
      status = omega arith;
      hold = omega arith;
      error = omega arith;
    };
    index = λ e. refl;
    unit_id = λ e. refl;
  });
  counted = refl;
}

abbrev pub machine : Machine board
machine = record {
  app = initial_app home;
  telnet = s_telnet;
  wifi = initial;
  bus = world;
  nvs = empty_store;
  sockets = 0;
  radio = 0;
  http = connection;
}

-- The same, after a discovery.
abbrev pub discovered : Machine board
discovered = record machine { app = record machine.app { gateway = gateway } }

switched_on : Err × Machine board
switched_on = run_command board 2 (codes "power") (some (tree_number (pos 1))) discovered

run_command_runs : switched_on.0 ≡ ok
unfolding switched_on run_command init Holding.sync_from_status Status.power_get Status.power_set
    Status.fan_dir_get Status.fan_speed_get Status.oper_mode_get llround Status.temp_setpoint_get
    block_write Holding.filter_reset_get
run_command_runs = refl

run_command-IsCommitted_example : IsCommitted (get_or switched_on.1.app.gateway.units 2 zero_unit)
unfolding switched_on
run_command-IsCommitted_example =
    run_command-IsCommitted board 2 (omega arith) discovered gateway-IsGateway (codes "power")
      (some (tree_number (pos 1))) run_command_runs

run_command_elsewhere_example :
    get_or switched_on.1.app.gateway.units 5 zero_unit
    ≡ get_or discovered.app.gateway.units 5 zero_unit
unfolding switched_on
run_command_elsewhere_example =
    run_command_elsewhere board 2 (omega arith) discovered gateway-IsGateway (codes "power")
      (some (tree_number (pos 1))) 5 (λ e. absurd (omega arith))

pub home-IsRegistry : IsRegistry home
home-IsRegistry = record { mask = omega arith; ids = refl }

-- An update of three bytes, after a round of each task.
update : Route board
update = post board [] "/api/ota" (ota_post board)

update-In : In update (routes board [])
unfolding update routes
update-In =
    there
      (there (there (there (there (there (there (there (there (there (there (there here)))))))))))

abbrev pub three_bytes : Request
three_bytes = record { content_len = 3; since = none }

unfoldable pub rounds : State board []
rounds = let (first, m) = poll_round board true machine in (first, status_round board m)

unfoldable pub updated : Machine board
updated = (ota_post board three_bytes rounds.1).1

pub updated-Reach : Reach board [] (true, machine) (rounds.0, updated)
unfolding rounds updated update
updated-Reach = next (next (next start poll) status) (request update three_bytes update-In refl)

Reach-IsApp_example : IsApp updated.app
Reach-IsApp_example =
    Reach-IsApp board [] home true machine (rounds.0, updated) home-IsRegistry refl updated-Reach
