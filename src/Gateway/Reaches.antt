-- ===== src/Gateway/Reaches.antt =====
-- A command that succeeds reaches the device.
use daikin_d3net.Base.{ℕ, ◌%◌, ◌+◌, ◌*◌, ◌^◌, ◌≡◌, ◌≢◌, refl, ap, sym, ◌∙◌, arith}
use daikin_d3net.Base.{Bool, true, false, not, if◌then◌else◌}
use daikin_d3net.Esp.{Err, ok, invalid_arg}
use daikin_d3net.Codec.{Words, bit_get, uint_get}
use daikin_d3net.Codec.View.{IsWords}
use daikin_d3net.Registers.Temperature.{Float}
use daikin_d3net.Registers.Holding
use daikin_d3net.Registers.Status
use daikin_d3net.Registers.StatusLaws
use daikin_d3net.Gateway.Bus.{Transport}
use daikin_d3net.Gateway.{HvacUnit, Link, ◌>>◌, modify, holding_read, holding_address}
use daikin_d3net.Gateway.{must_reload_holding}
use daikin_d3net.Gateway.Control.{push_status, prepare_write, command, set_power, set_mode}
use daikin_d3net.Gateway.Commit.{IsUnit, >>-ok}
use daikin_d3net.Gateway.Steps.{push_status-stepwise, prepare_write-stepwise, commit_write-stepwise}
use daikin_d3net.Gateway.Steps.{command-stepwise}
use daikin_d3net.Gateway.Prepare.{command_lem, status-IsCommitted, read-Keeps}
use daikin_d3net.Gateway.Commands.{set_power_lem, set_mode_lem}
use daikin_d3net.Gateway.Device.{Device, Coherent, Follows, Follows-IsStepwise, read_ok_seen}

module _ (t : Transport) (d : Device t) (float : Float) (now_ms : ℕ) (live : now_ms ≢ 0) where
  steps : (s : Link t) → Follows t d s (prepare_write t float now_ms s).1
  steps =
      prepare_write-stepwise t float now_ms (Follows t d) (Follows-IsStepwise t d now_ms float live)

  must_reload-false :
      (s : Link t)
      → must_reload_holding now_ms s.gw s.unit.hold ≡ false
      → s.unit.hold.last_read_ms ≢ 0
  unfolding must_reload_holding
  must_reload-false s e z = ground arith

  changes :
      (f : Words → Words)
      → ((ws : Words) → IsWords 6 ws → IsWords 6 (f ws))
      → (s : Link t)
      → Follows t d s (record s { unit = record s.unit { status = f s.unit.status } })
  changes f valid s = record {
    index = refl;
    valid = λ v. record {
      cap = v.cap;
      status = valid s.unit.status v.status;
      hold = v.hold;
      error = v.error;
    };
    coherent = λ v c. c;
    seen = λ v p. p;
  }

  abbrev Seen : Err × Link t → Type 0
  Seen out = out.0 ≡ ok → out.1.unit.hold.last_read_ms ≢ 0

  -- The branches of the preparation.
  branches :
      (present reload : Bool) (s : Link t) (out : Err × Link t)
      → (reload ≡ false → s.unit.hold.last_read_ms ≢ 0)
      → Seen out
      → Seen (if not present then (invalid_arg, s) else if not reload then (ok, s) else out)
  branches false reload s out h q e = cc
  branches true false s out h q e = h refl
  branches true true s out h q e = q e

  reloaded :
      (s : Link t) → IsUnit s.unit → Seen ((holding_read t now_ms >> push_status t float now_ms) s)
  reloaded s v e =
      let (read_ok, _, same) = >>-ok (holding_read t now_ms) (push_status t float now_ms) s e in
      let after = (holding_read t now_ms s).1 in
      let follows =
        push_status-stepwise t float now_ms (Follows t d) (Follows-IsStepwise t d now_ms float live)
          after in
      rw same (
        follows.seen ((read-Keeps t float now_ms s).valid v)
          (read_ok_seen t d now_ms live s read_ok))

  -- A preparation that succeeds has read the holding block, now or before.
  prepare_write-Seen : (s : Link t) → IsUnit s.unit → Seen (prepare_write t float now_ms s)
  unfolding prepare_write
  prepare_write-Seen s v =
      branches s.unit.present (must_reload_holding now_ms s.gw s.unit.hold) s _
        (must_reload-false s) (reloaded s v)

  -- When a command on the status succeeds, the device has the block that the program has.
  reaches :
      (f : Words → Words)
      → ((ws : Words) → IsWords 6 ws → IsWords 6 (f ws))
      → (s : Link t) → IsUnit s.unit
      → Coherent t d s
      → (command t float (λ u. record u { status = f u.status }) now_ms s).0 ≡ ok
      → let s' = (command t float (λ u. record u { status = f u.status }) now_ms s).1 in
        d.regs s'.world (holding_address s.unit) 3 ≡ s'.unit.hold.words
  reaches f valid s v c e =
      let change = λ (u : HvacUnit). record u { status = f u.status } in
      let (committed, _) = status-IsCommitted t float now_ms f valid s v e in
      let follows =
        command-stepwise t float now_ms (Follows t d) (Follows-IsStepwise t d now_ms float live)
          change (changes f valid) s in
      let (prepare_ok, _, same) = command_lem t float now_ms change s e in
      let prepared = (prepare_write t float now_ms s).1 in
      let changed = (modify {t = t} change prepared).1 in
      let w = ((steps s).valid v) in
      let last =
        commit_write-stepwise t float now_ms (Follows t d)
          (Follows-IsStepwise t d now_ms float live) changed in
      let seen : (command t float change now_ms s).1.unit.hold.last_read_ms ≢ 0 =
        rw same
          (last.seen ((changes f valid prepared).valid w) (prepare_write-Seen s v prepare_ok)) in
      let address : holding_address (command t float change now_ms s).1.unit
          ≡ holding_address s.unit =
        ap (λ (i : ℕ). (2000 + i * 3) % 2 ^ 16) follows.index in
      ap (λ a. d.regs (command t float change now_ms s).1.world a 3) (sym address)
      ∙ follows.coherent v c committed.sent seen

  -- On a unit whose blocks have their sizes, if the holding block of the program was coherent with
  -- the device (at a time other than 0), a d3net_unit_set_power that returns ESP_OK leaves the
  -- device itself with the given power bit.
  pub set_power_reaches :
      (on : Bool) (s : Link t)
      → IsUnit s.unit
      → Coherent t d s
      → (set_power t float on now_ms s).0 ≡ ok
      → bit_get (d.regs (set_power t float on now_ms s).1.world (holding_address s.unit) 3) 3 0 ≡ on
  unfolding set_power Holding.power_get
  set_power_reaches on s v c e =
      ap (λ ws. bit_get ws 3 0)
        (reaches (λ ws. Status.power_set ws on) (λ ws w. StatusLaws.power_set-IsWords ws w on) s v c
          e)
      ∙ (set_power_lem t float now_ms on s v e).2

  pub set_mode_reaches :
      (mode : ℕ) (s : Link t)
      → IsUnit s.unit
      → Coherent t d s
      → (set_mode t float mode now_ms s).0 ≡ ok
      → let regs = d.regs (set_mode t float mode now_ms s).1.world (holding_address s.unit) 3 in
        (bit_get regs 3 0 ≡ true) × (uint_get regs 3 16 4 ≡ mode % 16)
  unfolding set_mode Holding.power_get Holding.oper_mode_get
  set_mode_reaches mode s v c e =
      let same =
        reaches (λ ws. Status.oper_mode_set (Status.power_set ws true) mode)
          (λ ws w. StatusLaws.oper_mode_set-IsWords _ (StatusLaws.power_set-IsWords ws w true) mode)
          s v c e in
      let done = set_mode_lem t float now_ms mode s v e in
      (ap (λ ws. bit_get ws 3 0) same ∙ done.2, ap (λ ws. uint_get ws 3 16 4) same ∙ done.3)
