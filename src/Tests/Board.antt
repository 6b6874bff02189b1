-- ===== src/Tests/Board.antt =====
-- A platform: the store, a connection with a body, and parts that answer always the same.
use daikin_d3net.Base.{ℕ, ◌+◌, ◌-◌, ◌≤◌, arith, Bool, true, false, not}
use daikin_d3net.Base.{List, [], ◌++◌, none, some, ltb, length, take, drop, replicate, get_or}
use daikin_d3net.Base.{length-take}
use daikin_d3net.Base.Int.{ℤ, pos, negsuc}
use daikin_d3net.Base.Text.{codes}
use daikin_d3net.Esp.{ok}
use daikin_d3net.TelnetLog.{Sockets}
use daikin_d3net.Wifi.{Radio, ScanItem}
use daikin_d3net.App.{Platform}
use daikin_d3net.App.Server.{Http}
use daikin_d3net.Tests.Sample.{Fraction, fractions, bus}
use daikin_d3net.Tests.Store.{nvs, ids, rtu}

-- The parts that answer always the same.
abbrev pub sockets : Sockets
sockets = record {
  World = ℕ;
  socket = λ w. (pos 3, w);
  set_reuse = λ w fd. w;
  bind = λ w fd port. (pos 0, w);
  listen = λ w fd backlog. (pos 0, w);
  accept = λ w fd. (pos 5, w);
  send = λ w fd bytes. (pos (length bytes), w + 1);
  close = λ w fd. w;
}

abbrev access_point : ScanItem
access_point = record { ssid = codes "home"; rssi = negsuc 59; authmode = 3 }

abbrev pub radio : Radio
radio = record {
  World = ℕ;
  netif_init = λ w. (ok, w);
  event_loop_create_default = λ w. (ok, w);
  create_default_netifs = λ w. w;
  wifi_init = λ w. (ok, w);
  register_wifi_events = λ w. (ok, w);
  register_got_ip = λ w. (ok, w);
  set_mode_apsta = λ w. (ok, w);
  set_ap_config = λ w cfg. (ok, w);
  set_sta_config = λ w cfg. (ok, w);
  wifi_start = λ w. (ok, w);
  wifi_connect = λ w. (ok, w + 1);
  create_reconnect_task = λ w. (true, w);
  get_ip_info = λ w. (ok, 192, 168, 4, 1);
  scan_start = λ w. (ok, w);
  scan_get_ap_num = λ w. (ok, 3);
  calloc = λ w n. true;
  scan_get_ap_records = λ w n. (ok, 3, replicate 3 access_point, w);
}

-- A connection with a body that is still to come, which brings as much as is asked for, the
-- image that was written to the flash, and how often the lock is held. Trees are numbers and
-- texts, and the text of a number is one character, of that code.
pub record Connection : Type 0 where
  pub body : List ℕ
  pub replies : ℕ
  pub stored : List ℕ
  pub locks : ℕ

pub data Tree : Type 0 where
  tree_number : ℤ → Tree
  tree_text : List ℕ → Tree

abbrev number_in : Tree → ℤ
number_in (tree_number n) = n
number_in (tree_text t) = pos 0

abbrev text_in : Tree → List ℕ
text_in (tree_number n) = []
text_in (tree_text t) = t

abbrev is_number_tree : Tree → Bool
is_number_tree (tree_number n) = true
is_number_tree (tree_text t) = false

abbrev positive : ℤ → Bool
positive (pos n) = ltb 0 n
positive (negsuc n) = false

abbrev replied : Connection → Connection
replied w = record w { replies = w.replies + 1 }

pub taken-le : (n : ℕ) (xs : List ℕ) → length (take n xs) ≤ n
taken-le n xs = omega (arith, length-take n xs)

abbrev pub http : Http Fraction
http = record {
  World = Connection;
  start = λ w handlers stack. (ok, w);
  register = λ w uri is_post. (ok, w);
  recv = λ w len. (take len w.body, record w { body = drop len w.body });
  recv-le = λ w len. taken-le len w.body;
  send = λ w kind body. (ok, replied w);
  send_err = λ w status text. replied w;
  calloc = λ w n. true;
  Item = Tree;
  parse = λ text. some (tree_text text);
  get_item = λ tree key. none;
  is_number = is_number_tree;
  is_string = λ tree. not (is_number_tree tree);
  valueint = number_in;
  valuestring = text_in;
  float_value = λ tree. record { num = number_in tree; den = 1 };
  above_half = λ tree. positive (number_in tree);
  print = λ root. some [];
  strtoul = λ text. get_or text 0 0;
  err_name = λ err. codes "error";
  fixed_1 = λ x. [];
  take = λ w ms. (true, record w { locks = w.locks + 1 });
  give = λ w. record w { locks = w.locks - 1 };
  delay = λ w ms. w;
  restart = λ w. w;
  next_update_partition = λ w. some 1;
  ota_begin = λ w partition. (ok, 7, w);
  ota_write = λ w handle bytes. (ok, record w { stored = w.stored ++ bytes });
  ota_abort = λ w handle. w;
  ota_end = λ w handle. (ok, w);
  set_boot_partition = λ w partition. (ok, w);
}

abbrev pub board : Platform
board = record {
  float = fractions;
  bus = bus;
  nvs = nvs;
  ids = ids;
  rtu = rtu;
  sockets = sockets;
  radio = radio;
  http = http;
}
