-- ===== src/Tests/LogRuns.antt =====
-- The theorems on the ring of log lines, from its initial state, and on its clients.
use daikin_d3net.Base.{◌+◌, ◌<◌, ◌≤◌, ◌-◌, ◌≡◌, max, min, refl, arith, [], ◌∷◌}
use mathlib.Core.List.{map}
use daikin_d3net.Base.{ℕ, length}
use daikin_d3net.Base.Int.{pos}
use daikin_d3net.TelnetLog.Listener.{Descriptors, accept_task}
use daikin_d3net.TelnetLog.{Sockets, LogLine, TelnetLog, s_telnet, push, get_logs}
use daikin_d3net.TelnetLog.Ring.{IsLog, range, push-IsLog, get_logs_lem}

s_telnet-IsLog : IsLog s_telnet
s_telnet-IsLog = record {
  slots = refl;
  head = omega arith;
  most = omega arith;
  counted = omega arith;
  numbers = λ k p. absurd (omega arith);
}

unfoldable pub two_lines : TelnetLog
two_lines = push (push s_telnet (104 ∷ 105 ∷ [])) (111 ∷ 107 ∷ [])

push-IsLog_example : IsLog (push s_telnet (104 ∷ 105 ∷ []))
push-IsLog_example = push-IsLog s_telnet (104 ∷ 105 ∷ []) s_telnet-IsLog (omega arith)

pub two_lines-IsLog : IsLog two_lines
unfolding two_lines push
two_lines-IsLog =
    push-IsLog (push s_telnet (104 ∷ 105 ∷ [])) (111 ∷ 107 ∷ []) push-IsLog_example (omega arith)

pub two_lines-some : 0 < two_lines.log_count
unfolding two_lines push
two_lines-some = omega arith

pub two_lines-last : 1 ≤ two_lines.log_seq
unfolding two_lines push
two_lines-last = omega arith

get_logs_runs : get_logs two_lines 1 10 ≡ record { line = 111 ∷ 107 ∷ []; seq = 2 } ∷ []
unfolding get_logs two_lines push
get_logs_runs = refl

get_logs_lem_example :
    let from = max 1 (two_lines.log_seq - two_lines.log_count) in
    map (λ (l : LogLine). l.seq) (get_logs two_lines 1 10)
    ≡ range (from + 1) (min 10 (two_lines.log_seq - from))
get_logs_lem_example = get_logs_lem two_lines 1 10 two_lines-IsLog

-- Sockets that are counted; four clients have come and a fifth does.
abbrev counted : Sockets
counted = record {
  World = ℕ;
  socket = λ w. (pos 3, w + 1);
  set_reuse = λ w fd. w;
  bind = λ w fd port. (pos 0, w);
  listen = λ w fd backlog. (pos 0, w);
  accept = λ w fd. (pos 5, w + 1);
  send = λ w fd bytes. (pos (length bytes), w);
  close = λ w fd. w - 1;
}

abbrev descriptors : Descriptors counted
descriptors = record {
  opened = λ w. w;
  socket_opens = λ w. refl;
  accept_opens = λ w fd. refl;
  set_reuse_keeps = λ w fd. refl;
  bind_keeps = λ w fd port. refl;
  listen_keeps = λ w fd n. refl;
  send_keeps = λ w fd bytes. refl;
  close_closes = λ w fd some_open. omega arith;
}

accept_task_runs : (accept_task counted 5 s_telnet 0).1 ≡ 5
unfolding accept_task
accept_task_runs = refl
