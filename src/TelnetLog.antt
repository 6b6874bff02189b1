-- ===== src/TelnetLog.antt =====
-- The ring of log lines (firmware/esp32_d3net/main/telnet_server.c): telnet_server_logf and
-- telnet_server_get_logs. A text is a list of character codes up to its end.
pub mod Ring
pub mod Clients
pub mod Listener
use daikin_d3net.Base.{ℕ, zero, suc, ◌+◌, ◌-◌, ◌%◌, ◌^◌, Bool, not, ◌&&◌, List, [], ◌∷◌, ◌++◌}
use daikin_d3net.Base.{◌==◌, ltb, leb, if◌then◌else◌, length, take, set, get_or, replicate}
use daikin_d3net.Base.Int.{ℤ, negsuc}
use daikin_d3net.Codec.{is_negative}

-- A slot of the ring, and `telnet_log_line_t`.
pub record LogLine : Type 0 where
  pub line : List ℕ
  pub seq : ℕ

-- `telnet_ctx_t`, less the application.
pub record TelnetLog : Type 0 where
  pub clients : List ℤ
  pub logs : List LogLine
  pub log_head : ℕ
  pub log_count : ℕ
  pub log_seq : ℕ

abbrev pub blank : LogLine
blank = record { line = []; seq = 0 }

-- `s_telnet`
abbrev pub s_telnet : TelnetLog
s_telnet = record {
  clients = replicate 4 (negsuc 0);
  logs = replicate 128 blank;
  log_head = 0;
  log_count = 0;
  log_seq = 0;
}

-- The sockets, with the result of each call.
pub record Sockets : Type 1 where
  pub World : Type 0
  -- `socket(AF_INET, SOCK_STREAM, IPPROTO_IP)`, and `setsockopt` of SO_REUSEADDR
  pub socket : World → ℤ × World
  pub set_reuse : World → ℤ → World
  -- `bind` to a port of any address, and `listen` with a backlog
  pub bind : World → ℤ → ℕ → ℤ × World
  pub listen : World → ℤ → ℕ → ℤ × World
  pub accept : World → ℤ → ℤ × World
  pub send : World → ℤ → List ℕ → ℤ × World
  pub close : World → ℤ → World

-- `telnet_broadcast`
unfoldable pub broadcast : (s : Sockets) → List ℤ → List ℕ → s.World → List ℤ × s.World
broadcast s [] line w = ([], w)
broadcast s (fd ∷ fds) line w =
    let sent = if is_negative fd then (fd, w) else (s.send w fd line) in
    let dropped = not (is_negative fd) && is_negative sent.0 in
    let w1 = if dropped then s.close sent.1 fd else sent.1 in
    let (rest, w2) = broadcast s fds line w1 in ((if dropped then negsuc 0 else fd) ∷ rest, w2)

-- The line that is sent: the text, cut to the buffer, and the end of a line.
unfoldable pub sent_line : List ℕ → List ℕ
sent_line text =
    take (if leb (256 - 2) (length text) then 256 - 3 else length text) text ++ 13 ∷ 10 ∷ []

-- The part of a line that a slot keeps.
abbrev pub kept_line : List ℕ → List ℕ
kept_line buf = take (if ltb (length buf) 160 then length buf else 159) buf

-- The ring's part of `telnet_server_logf`.
unfoldable pub push : TelnetLog → List ℕ → TelnetLog
push st buf =
    let log_seq = (st.log_seq + 1) % 2 ^ 32 in
    let slot = (st.log_head + st.log_count) % 128 in
    let full = st.log_count == 128 in
    record st {
      logs = set st.logs slot (record { line = kept_line buf; seq = log_seq });
      log_head = if full then (st.log_head + 1) % 128 else st.log_head;
      log_count = if full then st.log_count else st.log_count + 1;
      log_seq = log_seq;
    }

-- `telnet_server_logf` of a text that `vsnprintf` has made, empty where it fails.
unfoldable pub logf : (s : Sockets) → TelnetLog → List ℕ → s.World → TelnetLog × s.World
unfolding sent_line push broadcast
logf s st text w =
    if length text == 0
    then (st, w)
    else (let pushed = push st (sent_line text) in
        let (clients, w') = broadcast s st.clients (sent_line text) w in
        (record pushed { clients = clients }, w'))

-- The loop of `telnet_server_get_logs` from index `i`, with `left` rounds and `room` lines left.
unfoldable pub collect : TelnetLog → ℕ → ℕ → ℕ → ℕ → List LogLine
collect st since_seq zero i room = []
collect st since_seq (suc left) i room =
    let found = get_or st.logs ((st.log_head + i) % 128) blank in
    let old = leb found.seq since_seq in
    let rest = collect st since_seq left (i + 1) (if old then room else room - 1) in
    if room == 0
    then []
    else if old
    then rest
    else record { line = take 159 found.line; seq = found.seq } ∷ rest

-- `telnet_server_get_logs`
unfoldable pub get_logs : TelnetLog → ℕ → ℕ → List LogLine
unfolding collect
get_logs st since_seq max_lines = collect st since_seq st.log_count 0 max_lines
