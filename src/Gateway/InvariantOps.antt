-- ===== src/Gateway/InvariantOps.antt =====
-- The functions on one unit keep what holds of the gateway, at whatever point they stop.
use daikin_d3net.Base.{ℕ, ◌<◌, ◌≡◌, refl, sym, ◌∙◌, arith, false, ◌+◌, length-set, set, get_or}
use daikin_d3net.Registers.Temperature.{Float}
use daikin_d3net.Gateway.Bus.{Transport}
use daikin_d3net.Gateway.{HvacUnit, Gateway, Link, zero_unit, read, write, holding_read}
use daikin_d3net.Gateway.{holding_write_if_dirty}
use daikin_d3net.Gateway.Commit.{IsUnit, Sends-IsUnit, write-Sends, sync-IsUnit, reset-IsUnit}
use daikin_d3net.Gateway.Steps.{IsStepwise}
use daikin_d3net.Gateway.Prepare.{read-Keeps}
use daikin_d3net.Gateway.Units.{AllFrom-get_or, AllFrom-set, present_count-set}
use daikin_d3net.Gateway.Invariant.{IsUnitAt, IsGateway}

-- What a function on a unit keeps of the link.
pub record Stays {t : Transport} (a b : Link t) : Type 0 where
  pub present : b.unit.present ≡ a.unit.present
  pub index : b.unit.index ≡ a.unit.index
  pub unit_id : b.unit.unit_id ≡ a.unit.unit_id
  pub valid : IsUnit a.unit → IsUnit b.unit
  pub units : b.gw.units ≡ a.gw.units
  pub count : b.gw.discovered_count ≡ a.gw.discovered_count

module _ (t : Transport) (float : Float) (now_ms : ℕ) where
  read-Stays : (s : Link t) → Stays s (holding_read t now_ms s).1
  unfolding holding_read read
  read-Stays s = record {
    present = refl;
    index = refl;
    unit_id = refl;
    valid = (read-Keeps t float now_ms s).valid;
    units = refl;
    count = refl;
  }

  send-Stays : (s : Link t) → Stays s (holding_write_if_dirty t now_ms s).1
  unfolding holding_write_if_dirty write
  send-Stays s = record {
    present = ground arith;
    index = ground arith;
    unit_id = ground arith;
    valid = Sends-IsUnit (write-Sends t now_ms s);
    units = ground arith;
    count = ground arith;
  }

  -- A change of the unit alone.
  pub unit-Stays :
      (s : Link t) (u : HvacUnit)
      → u.present ≡ s.unit.present
      → u.index ≡ s.unit.index
      → u.unit_id ≡ s.unit.unit_id
      → (IsUnit s.unit → IsUnit u)
      → Stays s (record s { unit = u })
  unit-Stays s u p i d v = record {
    present = p;
    index = i;
    unit_id = d;
    valid = v;
    units = refl;
    count = refl;
  }

  pub Stays-IsStepwise : IsStepwise t float now_ms Stays
  Stays-IsStepwise = record {
    stays = λ s. unit-Stays s s.unit refl refl refl (λ v. v);
    joins = λ a b c p q. record {
      present = q.present ∙ p.present;
      index = q.index ∙ p.index;
      unit_id = q.unit_id ∙ p.unit_id;
      valid = λ v. q.valid (p.valid v);
      units = q.units ∙ p.units;
      count = q.count ∙ p.count;
    };
    reads = read-Stays;
    sends = send-Stays;
    syncs = λ s. unit-Stays s _ refl refl refl (sync-IsUnit float);
    clears = λ s. unit-Stays s _ refl refl refl (reset-IsUnit false);
  }

-- The gateway after a function on the unit at an index has come back.
pub at-IsGateway :
    {t : Transport} (gw : Gateway) (index : ℕ) (w : t.World) (b : Link t)
    → IsGateway gw
    → index < 64
    → Stays (record { gw = gw; unit = get_or gw.units index zero_unit; world = w }) b
    → IsGateway (record b.gw { units = set b.gw.units index b.unit })
at-IsGateway gw index w b v p stays =
    let here = AllFrom-get_or IsUnitAt 0 gw.units index v.units (omega (arith, v.count)) in
    let unit : IsUnitAt (0 + index) b.unit = record {
      valid = stays.valid here.valid;
      index = λ e. stays.index ∙ here.index (sym stays.present ∙ e);
      unit_id = λ e. stays.unit_id ∙ here.unit_id (sym stays.present ∙ e);
    } in
    rw stays.units (record {
      count = length-set gw.units index b.unit ∙ v.count;
      units = AllFrom-set IsUnitAt 0 gw.units index b.unit v.units unit;
      counted =
          stays.count ∙ (v.counted ∙ sym (present_count-set gw.units index b.unit stays.present));
    })
