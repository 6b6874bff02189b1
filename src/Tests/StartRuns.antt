-- ===== src/Tests/StartRuns.antt =====
-- The start of the program on a board whose store has a configuration.
use daikin_d3net.Tests.Store.{nvs, ids, rtu, Entries, number_of}
use daikin_d3net.Tests.Board.{sockets, radio, http}
use daikin_d3net.Base.{true, false, ℕ, ◌+◌, ◌*◌, ◌%◌, ◌^◌, ◌≡◌, refl, arith, []}
use daikin_d3net.Esp.{ok}
use daikin_d3net.Modbus.Master.{RtuContext}
use daikin_d3net.Config.Nvs.{Nvs}
use daikin_d3net.Config.Store.{save}
use daikin_d3net.Wifi.{connect_sta}
use daikin_d3net.App.{Platform, Machine}
use daikin_d3net.App.Tasks.{poll_round, status_round}
use daikin_d3net.System.Steps.{State, start, next, poll, status}
use daikin_d3net.System.Program.{app_main-IsApp}
use daikin_d3net.TelnetLog.{s_telnet}
use daikin_d3net.Modbus.Master.{set_rx}
use daikin_d3net.System.Invariant.{IsApp, initial_app}
use daikin_d3net.System.Start.{Boot, Worlds, Startup, running, platform, app_main}
use daikin_d3net.Tests.Sample.{fractions}
use daikin_d3net.Tests.Pins.{Pins, uart, unset}
use daikin_d3net.Modbus.Setup.{init_rtu}
use daikin_d3net.Modbus.SetupLaws.{IsWired}
use daikin_d3net.Tests.WebRuns.{home, empty_store, connection}

-- The store, with numbers of 64 bits.
abbrev store : Nvs
store = record nvs { get_u64 = λ w key. ((number_of (w key)).0, (number_of (w key)).1 % 2 ^ 64) }

abbrev boot : Boot Entries
boot = record {
  nvs_flash_init = λ n. (ok, n);
  nvs_flash_erase = λ n. (ok, empty_store);
  World = ℕ;
  mdns_init = λ w. (ok, w);
  hostname_set = λ w name. (ok, w + 1);
  instance_name_set = λ w name. (ok, w + 1);
  service_add = λ w name service protocol port. (ok, w + 1);
  calloc = λ w. true;
}

abbrev later : Pins → ℕ → Pins
later w ms = record w { line = record w.line { ticks = w.line.ticks + ms } }

abbrev time_us : Pins → ℕ
time_us w = w.line.ticks * 1000

abbrev worlds : Worlds uart later time_us fractions store ids rtu sockets radio http boot []
worlds = record {
  line = unset;
  flash = (save nvs ids rtu home empty_store).1;
  net = 0;
  air = 0;
  server = connection;
  names = 0;
}

started : Startup uart later time_us fractions store ids rtu sockets radio http boot []
started = app_main uart later time_us fractions store ids rtu sockets radio http boot [] worlds

abbrev context : RtuContext
context = record { cfg = home.rtu_cfg; initialized = true }

-- The station has asked for its network once.
abbrev machine :
    Machine (platform uart later time_us fractions store ids rtu sockets radio http boot [] context)
machine = record {
  app = initial_app home;
  telnet = s_telnet;
  wifi = record {
    sta_connected = false;
    netif_sta = true;
    reconnect_task = true;
    sta_cfg_set = true;
  };
  bus = (init_rtu uart home.rtu_cfg unset).2;
  nvs = worlds.flash;
  sockets = 0;
  radio = 1;
  http = connection;
}

started_runs : started ≡ running context machine
unfolding started app_main save set_rx connect_sta
started_runs = refl

wired : IsWired home.rtu_cfg
wired = record { tx = refl; rx = refl; de = (refl, refl); re = (refl, refl); rate = omega arith }

-- After a round of each task.
abbrev board : Platform
board = platform uart later time_us fractions store ids rtu sockets radio http boot [] context

rounds : State board []
rounds = let (first, m) = poll_round board true machine in (first, status_round board m)

app_main-IsApp_example : IsApp rounds.1.app
unfolding started rounds
app_main-IsApp_example =
    app_main-IsApp uart later time_us fractions store ids rtu sockets radio http boot []
      (λ w k. omega arith) (λ bytes. refl) worlds context machine rounds started_runs
      (next (next start poll) status)
