-- ===== src/Gateway/Answering.antt =====
-- Commands on a bus that answers: the functions of d3net_gateway.c on one unit come to their end,
-- whatever they read, send and skip on the way.
use daikin_d3net.Base.{ℕ, ◌≤◌, ◌<◌, ◌≡◌, refl, ◌∙◌, arith, if_both, if_passed}
use daikin_d3net.Base.{true, false}
use daikin_d3net.Esp.{Err, ok, invalid_arg}
use daikin_d3net.Codec.{Words}
use daikin_d3net.Codec.View.{IsWords}
use daikin_d3net.Registers.Temperature.{Float}
use daikin_d3net.Gateway.Bus.{Transport, RegType, holding}
use daikin_d3net.Gateway.{HvacUnit, Gateway, Link, Op, ◌>>◌, modify, throttle, throttle_wait}
use daikin_d3net.Gateway.{read, write, holding_read, holding_write_if_dirty, holding_address}
use daikin_d3net.Gateway.Control.{sync, with_filter_reset, push_status, prepare_write}
use daikin_d3net.Gateway.Control.{clear_filter_reset, commit_write, command}
use daikin_d3net.Gateway.Commit.{IsUnit, reset-IsUnit}
use daikin_d3net.Gateway.InvariantOps.{Stays, Stays-IsStepwise}

-- A bus that answers while it is alive, and stays so: every read and every write of at most 64
-- registers returns ESP_OK.
pub record Answers (t : Transport) : Type 1 where
  pub Alive : t.World → Type 0
  pub reads :
      (w : t.World) (ty : RegType) (address count : ℕ) (buffer : Words)
      → Alive w
      → 0 < count
      → count ≤ 64
      → let out = t.read_fn w ty address count buffer in (out.0 ≡ ok) × Alive out.2
  pub writes :
      (w : t.World) (address count : ℕ) (words : Words)
      → Alive w
      → 0 < count
      → count ≤ 64
      → IsWords count words
      → let out = t.write_fn w address count words in (out.0 ≡ ok) × Alive out.1
  pub waits : (w : t.World) (ms : ℕ) → Alive w → Alive (t.delay w ms)

module _ (t : Transport) (a : Answers t) where
  pub throttle-Alive :
      (gw : Gateway) (now_ms : ℕ) (w : t.World) → a.Alive w → a.Alive (throttle t gw now_ms w)
  unfolding throttle
  throttle-Alive gw now_ms w v = if_both a.Alive _ v (a.waits w (throttle_wait gw now_ms) v)

  -- A result that says ESP_OK, and a bus that is still alive.
  pub read-answered :
      (gw : Gateway) (ty : RegType) (address count : ℕ) (buffer : Words) (now_ms : ℕ) (w : t.World)
      → a.Alive w
      → 0 < count
      → count ≤ 64
      → let out = read t gw ty address count buffer now_ms w in (out.0 ≡ ok) × a.Alive out.3
  unfolding read
  read-answered gw ty address count buffer now_ms w v some few =
      a.reads (throttle t gw now_ms w) ty address count buffer (throttle-Alive gw now_ms w v) some
        few

  -- A link to a unit that is there, on a bus that is alive.
  pub record IsReady (s : Link t) : Type 0 where
    pub alive : a.Alive s.world
    pub present : s.unit.present ≡ true
    pub valid : IsUnit s.unit

  -- What succeeds and leaves the link ready for more.
  unfoldable pub Succeeds : Err × Link t → Type 0
  Succeeds out = (out.0 ≡ ok) × IsReady out.1

  module _ (float : Float) (now_ms : ℕ) where
    -- A step keeps the unit there and its blocks in order, so that the bus is left to show.
    from-Stays : (s : Link t) (b : Link t) → IsReady s → Stays s b → a.Alive b.world → IsReady b
    from-Stays s b r stays alive = record {
      alive = alive;
      present = stays.present ∙ r.present;
      valid = stays.valid r.valid;
    }

    >>-Succeeds :
        (m k : Op t) (s : Link t)
        → Succeeds (m s)
        → (IsReady (m s).1 → Succeeds (k (m s).1))
        → Succeeds ((m >> k) s)
    unfolding Succeeds
    >>-Succeeds m k s (e, r) next = rw e (next r)

    read-Succeeds : (s : Link t) → IsReady s → Succeeds (holding_read t now_ms s)
    unfolding Succeeds holding_read
    read-Succeeds s r =
        let answered =
          read-answered s.gw holding (holding_address s.unit) 3 s.unit.hold.words now_ms s.world
            r.alive (omega arith) (omega arith) in
        (
          answered.0,
          from-Stays s (holding_read t now_ms s).1 r ((Stays-IsStepwise t float now_ms).reads s)
              answered.1,
        )

    -- Sending the block of a dirty unit.
    sent : (s : Link t) → IsReady s → a.Alive (holding_write_if_dirty t now_ms s).1.world
    unfolding holding_write_if_dirty write
    sent s r =
        if_both (λ (out : Err × Link t). a.Alive out.1.world) _ r.alive
          (a.writes (throttle t s.gw now_ms s.world) (holding_address s.unit) 3 s.unit.hold.words
            (throttle-Alive s.gw now_ms s.world r.alive) (omega arith) (omega arith) r.valid.hold).1

    sends_ok : (s : Link t) → IsReady s → (holding_write_if_dirty t now_ms s).0 ≡ ok
    unfolding holding_write_if_dirty write
    sends_ok s r =
        if_both (λ (out : Err × Link t). out.0 ≡ ok) _ refl
          (a.writes (throttle t s.gw now_ms s.world) (holding_address s.unit) 3 s.unit.hold.words
            (throttle-Alive s.gw now_ms s.world r.alive) (omega arith) (omega arith) r.valid.hold).0

    write-Succeeds : (s : Link t) → IsReady s → Succeeds (holding_write_if_dirty t now_ms s)
    unfolding Succeeds
    write-Succeeds s r = (
      sends_ok s r,
      from-Stays s (holding_write_if_dirty t now_ms s).1 r
          ((Stays-IsStepwise t float now_ms).sends s) (sent s r),
    )

    sync-IsReady : (s : Link t) → IsReady s → IsReady (record s { unit = sync float s.unit })
    sync-IsReady s r =
        from-Stays s (record s { unit = sync float s.unit }) r
          ((Stays-IsStepwise t float now_ms).syncs s) r.alive

    clear-IsReady :
        (s : Link t) → IsReady s → IsReady (record s { unit = with_filter_reset false s.unit })
    clear-IsReady s r =
        from-Stays s (record s { unit = with_filter_reset false s.unit }) r
          ((Stays-IsStepwise t float now_ms).clears s) r.alive

    settled : (s : Link t) → IsReady s → Succeeds (ok, s)
    unfolding Succeeds
    settled s r = (refl, r)

    push-Succeeds : (s : Link t) → IsReady s → Succeeds (push_status t float now_ms s)
    unfolding push_status
    push-Succeeds s r =
        let s' : Link t = record s { unit = sync float s.unit } in
        let r' = sync-IsReady s r in
        if_both Succeeds (sync float s.unit).hold.dirty (write-Succeeds s' r') (settled s' r')

    prepare-Succeeds : (s : Link t) → IsReady s → Succeeds (prepare_write t float now_ms s)
    unfolding prepare_write
    prepare-Succeeds s r =
        if_passed Succeeds s.unit.present (invalid_arg, s) r.present
          (if_both Succeeds _ (settled s r) (
            >>-Succeeds (holding_read t now_ms) (push_status t float now_ms) s (read-Succeeds s r)
              (push-Succeeds (holding_read t now_ms s).1)))

    clear-Succeeds : (s : Link t) → IsReady s → Succeeds (clear_filter_reset t float now_ms s)
    unfolding clear_filter_reset
    clear-Succeeds s r = if_both Succeeds _ (write-Succeeds _ (clear-IsReady s r)) (settled s r)

    commit-Succeeds : (s : Link t) → IsReady s → Succeeds (commit_write t float now_ms s)
    unfolding commit_write
    commit-Succeeds s r =
        if_passed Succeeds s.unit.present (invalid_arg, s) r.present
          (>>-Succeeds (modify (sync float) >> holding_write_if_dirty t now_ms)
            (clear_filter_reset t float now_ms) s (write-Succeeds _ (sync-IsReady s r))
            (clear-Succeeds _))

    -- On a bus that answers, every command on a unit that is present and whose blocks have their
    -- sizes returns ESP_OK, for a change that keeps both; it leaves the bus answering, the unit
    -- present and the sizes as they were.
    pub command-Succeeds :
        (change : HvacUnit → HvacUnit)
        → ((s : Link t) → IsReady s → IsReady (record s { unit = change s.unit }))
        → (s : Link t) → IsReady s
        → Succeeds (command t float change now_ms s)
    unfolding command
    command-Succeeds change keeps s r =
        >>-Succeeds (prepare_write t float now_ms >> modify change) (commit_write t float now_ms) s
          (>>-Succeeds (prepare_write t float now_ms) (modify change) s (prepare-Succeeds s r)
            (λ r'. settled _ (keeps _ r')))
          (commit-Succeeds _)

    -- The five commands that change the status of the unit.
    pub status-Succeeds :
        (f : Words → Words)
        → ((ws : Words) → IsWords 6 ws → IsWords 6 (f ws))
        → (s : Link t) → IsReady s
        → Succeeds (command t float (λ u. record u { status = f u.status }) now_ms s)
    status-Succeeds f sized =
        command-Succeeds (λ u. record u { status = f u.status })
          (λ s r. record {
            alive = r.alive;
            present = r.present;
            valid = record {
              cap = r.valid.cap;
              status = sized s.unit.status r.valid.status;
              hold = r.valid.hold;
              error = r.valid.error;
            };
          })

    -- The command that asks for the filter sign to be taken back.
    pub filter-Succeeds :
        (s : Link t) → IsReady s → Succeeds (command t float (with_filter_reset true) now_ms s)
    filter-Succeeds =
        command-Succeeds (with_filter_reset true) (λ s r. record {
          alive = r.alive;
          present = r.present;
          valid = reset-IsUnit true r.valid;
        })
