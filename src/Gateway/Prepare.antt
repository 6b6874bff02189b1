-- ===== src/Gateway/Prepare.antt =====
-- What a preparation keeps, and what every successful command leaves.
use daikin_d3net.Base.{ℕ, ◌≡◌, refl, ap, sym, ◌∙◌}
use daikin_d3net.Base.{false, if_both}
use daikin_d3net.Esp.{ok}
use daikin_d3net.Codec.{Words}
use daikin_d3net.Codec.View.{IsWords}
use daikin_d3net.Registers.Temperature.{Float}
use daikin_d3net.Registers.Holding
use daikin_d3net.Registers.Holding.{Holding}
use daikin_d3net.Gateway.Bus.{Transport, holding}
use daikin_d3net.Gateway.{HvacUnit, Link, ◌>>◌, modify, holding_read}
use daikin_d3net.Gateway.{holding_address, read, throttle}
use daikin_d3net.Gateway.Control.{prepare_write, commit_write}
use daikin_d3net.Gateway.Control.{command}
use daikin_d3net.Gateway.Commit.{IsUnit, IsCommitted, commit-IsCommitted, >>-ok, write-Sends}
use daikin_d3net.Gateway.Commit.{Sends-IsUnit, sync-IsUnit, reset-IsUnit}
use daikin_d3net.Gateway.Steps.{IsStepwise, prepare_write-stepwise}

-- What a preparation keeps, whatever it returns.
pub record Keeps (u u' : HvacUnit) : Type 0 where
  pub present : u'.present ≡ u.present
  pub status : u'.status ≡ u.status
  pub valid : IsUnit u → IsUnit u'

module _ (t : Transport) (float : Float) (now_ms : ℕ) where
  read_present : (s : Link t) → (holding_read t now_ms s).1.unit.present ≡ s.unit.present
  unfolding holding_read
  read_present s = refl

  read_status : (s : Link t) → (holding_read t now_ms s).1.unit.status ≡ s.unit.status
  unfolding holding_read
  read_status s = refl

  read_hold_words :
      (s : Link t) → IsUnit s.unit → IsWords 3 (holding_read t now_ms s).1.unit.hold.words
  unfolding holding_read read Holding.mark_read
  read_hold_words s v =
      let filled =
        t.read-IsWords (throttle t s.gw now_ms s.world) holding (holding_address s.unit) 3
          s.unit.hold.words v.hold in
      if_both (λ (h : Holding). IsWords 3 h.words) _ filled filled

  pub read-Keeps : (s : Link t) → Keeps s.unit (holding_read t now_ms s).1.unit
  read-Keeps s = record {
    present = read_present s;
    status = read_status s;
    valid = λ v. record {
      cap = unfold holding_read in v.cap;
      status = rw (read_status s) v.status;
      hold = read_hold_words s v;
      error = unfold holding_read in v.error;
    };
  }

  pub Keeps-IsStepwise : IsStepwise t float now_ms (λ a b. Keeps a.unit b.unit)
  Keeps-IsStepwise = record {
    stays = λ s. record { present = refl; status = refl; valid = λ v. v };
    joins = λ a b c p q. record {
      present = q.present ∙ p.present;
      status = q.status ∙ p.status;
      valid = λ v. q.valid (p.valid v);
    };
    reads = read-Keeps;
    sends = λ s.
        let e = write-Sends t now_ms s in
        record { present = e.present; status = e.status; valid = Sends-IsUnit e };
    syncs = λ s. record { present = refl; status = refl; valid = sync-IsUnit float };
    clears = λ s. record { present = refl; status = refl; valid = reset-IsUnit false };
  }

  pub command_lem :
      (change : HvacUnit → HvacUnit) (s : Link t)
      → (command t float change now_ms s).0 ≡ ok
      → let changed = (modify {t = t} change (prepare_write t float now_ms s).1).1 in
        ((prepare_write t float now_ms s).0 ≡ ok)
        × ((commit_write t float now_ms changed).0 ≡ ok)
        × (command t float change now_ms s ≡ commit_write t float now_ms changed)
  unfolding command
  command_lem change s e =
      let prepare = prepare_write t float now_ms in
      let (front_ok, commit_ok, last) =
        >>-ok (prepare >> modify change) (commit_write t float now_ms) s e in
      let (prepare_ok, _, front) = >>-ok prepare (modify change) s front_ok in
      (
        prepare_ok,
        sym (ap (λ r. (commit_write t float now_ms r.1).0) front) ∙ commit_ok,
        last ∙ ap (λ r. commit_write t float now_ms r.1) front,
      )

  -- A command that returns ESP_OK has changed the unit, and has left it committed.
  pub command-IsCommitted :
      (change : HvacUnit → HvacUnit)
      → ((u : HvacUnit) → IsUnit u → IsUnit (change u))
      → (s : Link t) → IsUnit s.unit
      → (command t float change now_ms s).0 ≡ ok
      → IsCommitted (command t float change now_ms s).1.unit
        × ((command t float change now_ms s).1.unit.status
            ≡ (change (prepare_write t float now_ms s).1.unit).status)
  command-IsCommitted change valid s v e =
      let keeps =
        prepare_write-stepwise t float now_ms (λ a b. Keeps a.unit b.unit) Keeps-IsStepwise s in
      let (_, commit_ok, same) = command_lem change s e in
      rw same (commit-IsCommitted t float now_ms _ (valid _ (keeps.valid v)) commit_ok)

  -- The commands that change the status alone.
  pub status-IsCommitted :
      (f : Words → Words)
      → ((ws : Words) → IsWords 6 ws → IsWords 6 (f ws))
      → (s : Link t) → IsUnit s.unit
      → (command t float (λ u. record u { status = f u.status }) now_ms s).0 ≡ ok
      → let u = (command t float (λ u. record u { status = f u.status }) now_ms s).1.unit in
        IsCommitted u × (u.status ≡ f s.unit.status)
  status-IsCommitted f valid s v e =
      let keeps =
        prepare_write-stepwise t float now_ms (λ a b. Keeps a.unit b.unit) Keeps-IsStepwise s in
      let (committed, status) =
        command-IsCommitted (λ u. record u { status = f u.status })
          (λ u w. record {
            cap = w.cap;
            status = valid u.status w.status;
            hold = w.hold;
            error = w.error;
          })
          s v e in
      (committed, status ∙ ap f keeps.status)
