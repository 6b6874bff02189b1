-- ===== src/TelnetLog/Listener.antt =====
-- telnet_accept_task as a whole: the listening socket, the rounds of its loop, and the sockets that
-- are open.
use daikin_d3net.Base.{ℕ, zero, suc, ◌+◌, ◌<◌, ◌≡◌}
use daikin_d3net.Base.{Bool, true, false, List, Option, none, some, if◌then◌else◌}
use daikin_d3net.Base.Int.{ℤ, pos, negsuc}
use daikin_d3net.Codec.{is_negative}
use daikin_d3net.TelnetLog.{TelnetLog, Sockets}
use daikin_d3net.TelnetLog.Clients.{accept_client}

-- `r != 0`
abbrev pub failed : ℤ → Bool
failed (pos zero) = false
failed (pos (suc n)) = true
failed (negsuc n) = true

module _ (s : Sockets) where
  -- The start of `telnet_accept_task`: the listening socket, none if the task ends.
  unfoldable pub open_listener : s.World → Option ℤ × s.World
  open_listener w =
      let (listen_fd, w1) = s.socket w in
      if is_negative listen_fd
      then (none, w1)
      else (let (bound, w2) = s.bind (s.set_reuse w1 listen_fd) listen_fd 23 in
          if failed bound
          then (none, s.close w2 listen_fd)
          else (let (listening, w3) = s.listen w2 listen_fd 4 in
              if failed listening then (none, s.close w3 listen_fd) else (some listen_fd, w3)))

  -- So many rounds of its loop.
  unfoldable pub accept_rounds : ℕ → ℤ → TelnetLog → s.World → TelnetLog × s.World
  unfolding accept_client
  accept_rounds zero listen_fd st w = (st, w)
  accept_rounds (suc n) listen_fd st w =
      let (sock, w1) = s.accept w listen_fd in
      let (st1, w2) = accept_client s sock st w1 in accept_rounds n listen_fd st1 w2

  -- `telnet_accept_task`, up to a round of its loop.
  unfoldable pub accept_task : ℕ → TelnetLog → s.World → TelnetLog × s.World
  unfolding open_listener accept_rounds
  accept_task n st w =
      let (listener, w1) = open_listener w in
      elim listener [ none ↦ (st, w1) | some listen_fd ↦ accept_rounds n listen_fd st w1 ]

-- The number of sockets that the system has open, as the calls change it.
pub record Descriptors (s : Sockets) : Type 0 where
  pub opened : s.World → ℕ
  pub socket_opens :
      (w : s.World)
      → opened (s.socket w).1 ≡ opened w + (if is_negative (s.socket w).0 then 0 else 1)
  pub accept_opens :
      (w : s.World) (fd : ℤ)
      → opened (s.accept w fd).1 ≡ opened w + (if is_negative (s.accept w fd).0 then 0 else 1)
  pub set_reuse_keeps : (w : s.World) (fd : ℤ) → opened (s.set_reuse w fd) ≡ opened w
  pub bind_keeps : (w : s.World) (fd : ℤ) (port : ℕ) → opened (s.bind w fd port).1 ≡ opened w
  pub listen_keeps : (w : s.World) (fd : ℤ) (n : ℕ) → opened (s.listen w fd n).1 ≡ opened w
  pub send_keeps : (w : s.World) (fd : ℤ) (bytes : List ℕ) → opened (s.send w fd bytes).1 ≡ opened w
  pub close_closes : (w : s.World) (fd : ℤ) → 0 < opened w → opened (s.close w fd) + 1 ≡ opened w

-- A socket counts if the call that makes it has succeeded.
abbrev pub made : ℤ → ℕ
made fd = if is_negative fd then 0 else 1

abbrev pub held : Option ℤ → ℕ
held none = 0
held (some fd) = 1
