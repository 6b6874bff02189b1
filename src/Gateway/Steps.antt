-- ===== src/Gateway/Steps.antt =====
-- Every function on one unit is composed of four kinds of steps. What each step respects, the
-- functions respect.
use daikin_d3net.Base.{ℕ, Bool, true, false, not, if_both, if◌then◌else◌}
use daikin_d3net.Esp.{Err, ok, invalid_arg}
use daikin_d3net.Registers.Temperature.{Float}
use daikin_d3net.Gateway.Bus.{Transport}
use daikin_d3net.Gateway.{HvacUnit, Link, Op, ◌>>◌, modify, holding_read, holding_write_if_dirty}
use daikin_d3net.Gateway.{must_reload_holding}
use daikin_d3net.Gateway.Control.{sync, with_filter_reset, push_status, prepare_write}
use daikin_d3net.Gateway.Control.{clear_filter_reset, commit_write, command}

-- A preorder on links that holds across each step at the time `now_ms`.
pub record IsStepwise (t : Transport) (float : Float) (now_ms : ℕ) (R : Link t → Link t → Type 0)
    : Type 0 where
  pub stays : (s : Link t) → R s s
  pub joins : (a b c : Link t) → R a b → R b c → R a c
  pub reads : (s : Link t) → R s (holding_read t now_ms s).1
  pub sends : (s : Link t) → R s (holding_write_if_dirty t now_ms s).1
  pub syncs : (s : Link t) → R s (record s { unit = sync float s.unit })
  pub clears : (s : Link t) → R s (record s { unit = with_filter_reset false s.unit })

module _ (t : Transport) (float : Float) (now_ms : ℕ) (R : Link t → Link t → Type 0)
    (r : IsStepwise t float now_ms R) where
  abbrev Leads : Link t → Err × Link t → Type 0
  Leads s out = R s out.1

  >>-stepwise :
      (m k : Op t) (s : Link t) → R s (m s).1 → R (m s).1 (k (m s).1).1 → R s ((m >> k) s).1
  >>-stepwise m k s p q = if_both (Leads s) _ (r.joins s (m s).1 (k (m s).1).1 p q) p

  -- A return before anything was done.
  returns_early :
      (b : Bool) (e : Err) (s : Link t) (out : Err × Link t)
      → Leads s out
      → Leads s (if b then (e, s) else out)
  returns_early true e s out p = r.stays s
  returns_early false e s out p = p

  pub push_status-stepwise : (s : Link t) → R s (push_status t float now_ms s).1
  unfolding push_status
  push_status-stepwise s = if_both (Leads s) _ (r.joins _ _ _ (r.syncs s) (r.sends _)) (r.syncs s)

  pub prepare_write-stepwise : (s : Link t) → R s (prepare_write t float now_ms s).1
  unfolding prepare_write
  prepare_write-stepwise s = returns_early (not s.unit.present) invalid_arg s _ (
      returns_early (not (must_reload_holding now_ms s.gw s.unit.hold)) ok s _ (
        >>-stepwise (holding_read t now_ms) (push_status t float now_ms) s (r.reads s)
          (push_status-stepwise (holding_read t now_ms s).1)))

  clear-stepwise : (s : Link t) → R s (clear_filter_reset t float now_ms s).1
  unfolding clear_filter_reset
  clear-stepwise s = if_both (Leads s) _ (r.joins _ _ _ (r.clears s) (r.sends _)) (r.stays s)

  pub commit_write-stepwise : (s : Link t) → R s (commit_write t float now_ms s).1
  unfolding commit_write
  commit_write-stepwise s = if_both (Leads s) _ (r.stays s) (
      >>-stepwise (modify (sync float) >> holding_write_if_dirty t now_ms)
        (clear_filter_reset t float now_ms) s (r.joins _ _ _ (r.syncs s) (r.sends _))
        (clear-stepwise _))

  -- A command, if the change of the unit is a step too.
  pub command-stepwise :
      (change : HvacUnit → HvacUnit)
      → ((s : Link t) → R s (record s { unit = change s.unit }))
      → (s : Link t) → R s (command t float change now_ms s).1
  unfolding command
  command-stepwise change c s =
      >>-stepwise (prepare_write t float now_ms >> modify change) (commit_write t float now_ms) s
        (>>-stepwise (prepare_write t float now_ms) (modify change) s (prepare_write-stepwise s)
          (c _))
        (commit_write-stepwise _)
