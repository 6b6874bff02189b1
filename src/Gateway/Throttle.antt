-- ===== src/Gateway/Throttle.antt =====
-- When an access to the bus starts: the pauses that d3net_throttle makes before d3net_read and
-- d3net_write, as the bus sees them.
use daikin_d3net.Base.{ℕ, ◌+◌, ◌*◌, ◌≤◌, ◌≡◌, List, ◌∷◌}
use daikin_d3net.Codec.{Words}
use daikin_d3net.Gateway.Bus.{Transport, RegType}
use daikin_d3net.Gateway.{Gateway, read, write}

-- A bus that notes the time at which each access starts, the last one first. A delay of some
-- milliseconds lasts that long, less a slack: pdMS_TO_TICKS rounds down to ticks, and the first
-- tick may be over soon.
pub record Times (t : Transport) : Type 0 where
  pub starts : t.World → List ℕ
  pub slack : ℕ
  pub read_starts :
      (w : t.World) (ty : RegType) (address count : ℕ) (buffer : Words)
      → starts (t.read_fn w ty address count buffer).2 ≡ t.time_us w ∷ starts w
  pub write_starts :
      (w : t.World) (address count : ℕ) (words : Words)
      → starts (t.write_fn w address count words).1 ≡ t.time_us w ∷ starts w
  pub delay_keeps : (w : t.World) (ms : ℕ) → starts (t.delay w ms) ≡ starts w
  pub delay_lasts :
      (w : t.World) (ms : ℕ) → t.time_us w + ms * 1000 ≤ t.time_us (t.delay w ms) + slack

-- An access to the bus, by d3net_read or d3net_write.
pub data Access : Type 0 where
  reading : RegType → ℕ → ℕ → Words → Access
  writing : ℕ → ℕ → Words → Access

module _ (t : Transport) where
  open t use {World}

  -- The gateway and the world after it.
  unfoldable pub access : Access → Gateway → ℕ → World → Gateway × World
  unfolding read write
  access (reading ty address count buffer) gw now_ms w =
      let (err, out, gw', w') = read t gw ty address count buffer now_ms w in (gw', w')
  access (writing address count words) gw now_ms w =
      let (err, gw', w') = write t gw address count words now_ms w in (gw', w')

  module _ (times : Times t) where
    -- One access has started between two worlds, not before `earliest` microseconds, less the slack.
    pub record IsHeldBack (earliest : ℕ) (w w' : World) : Type 0 where
      pub start : ℕ
      pub noted : times.starts w' ≡ start ∷ times.starts w
      pub late : earliest ≤ start + times.slack
