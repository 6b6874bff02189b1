-- ===== src/Gateway/Device.antt =====
-- The device behind the bus: whether the holding block that the program keeps is the one that the
-- device has.
use daikin_d3net.Base.{ℕ, ◌≡◌, ◌≢◌, refl, ap, sym, ◌∙◌, arith}
use daikin_d3net.Base.{false, if_both}
use daikin_d3net.Esp.{ok, is_ok-eq}
use daikin_d3net.Codec.{Words}
use daikin_d3net.Codec.View.{Tracks, Tracks-down}
use daikin_d3net.Registers.Temperature.{Float}
use daikin_d3net.Registers.Holding
use daikin_d3net.Registers.Holding.{Holding}
use daikin_d3net.Registers.Sync.{sync-Tracks, sync-times}
use daikin_d3net.Registers.Writes.{filter_reset_set-Writes}
use daikin_d3net.Gateway.Bus.{Transport, RegType, holding}
use daikin_d3net.Gateway.{Link, throttle, read, write, holding_read}
use daikin_d3net.Gateway.{holding_write_if_dirty, holding_address}
use daikin_d3net.Gateway.Control.{sync, with_filter_reset}
use daikin_d3net.Gateway.Commit.{IsUnit, Sends-IsUnit, write-Sends, sync-IsUnit, reset-IsUnit}
use daikin_d3net.Gateway.Steps.{IsStepwise}
use daikin_d3net.Gateway.Prepare.{read-Keeps}

-- A device whose holding registers only the program writes: a write that is answered has taken
-- place, an answered read shows the registers, and reads and delays change none.
pub record Device (t : Transport) : Type 0 where
  pub regs : t.World → ℕ → ℕ → Words
  pub write_ok :
      (w : t.World) (address count : ℕ) (words : Words)
      → (t.write_fn w address count words).0 ≡ ok
      → regs (t.write_fn w address count words).1 address count ≡ words
  pub read_ok :
      (w : t.World) (address count : ℕ) (buffer : Words)
      → (t.read_fn w holding address count buffer).0 ≡ ok
      → (t.read_fn w holding address count buffer).1
        ≡ regs (t.read_fn w holding address count buffer).2 address count
  pub read_keeps :
      (w : t.World) (ty : RegType) (address count : ℕ) (buffer : Words) (a c : ℕ)
      → regs (t.read_fn w ty address count buffer).2 a c ≡ regs w a c
  pub delay_keeps : (w : t.World) (ms a c : ℕ) → regs (t.delay w ms) a c ≡ regs w a c

module _ (t : Transport) (d : Device t) where
  -- If the program has read its holding block and has nothing to send, the device has that block.
  abbrev pub Coherent : Link t → Type 0
  Coherent s =
      s.unit.hold.dirty ≡ false
      → s.unit.hold.last_read_ms ≢ 0
      → d.regs s.world (holding_address s.unit) 3 ≡ s.unit.hold.words

  -- What is kept from one link to a later one.
  pub record Follows (a b : Link t) : Type 0 where
    pub index : b.unit.index ≡ a.unit.index
    pub valid : IsUnit a.unit → IsUnit b.unit
    pub coherent : IsUnit a.unit → Coherent a → Coherent b
    pub seen : IsUnit a.unit → a.unit.hold.last_read_ms ≢ 0 → b.unit.hold.last_read_ms ≢ 0

  throttle_keeps :
      (s : Link t) (now_ms a c : ℕ)
      → d.regs (throttle t s.gw now_ms s.world) a c ≡ d.regs s.world a c
  unfolding throttle
  throttle_keeps s now_ms a c =
      if_both (λ w. d.regs w a c ≡ d.regs s.world a c) _ refl (d.delay_keeps s.world _ a c)

  -- A change of the holding block that its dirty flag tracks.
  tracked :
      (s : Link t) (h : Holding)
      → Tracks (s.unit.hold.words, s.unit.hold.dirty) (h.words, h.dirty)
      → h.last_read_ms ≡ s.unit.hold.last_read_ms
      → Coherent s
      → Coherent (record s { unit = record s.unit { hold = h } })
  tracked s h tr same c clean seen =
      let e = Tracks-down tr clean in
      c (sym (ap (λ p. p.1) e) ∙ clean) (λ z. seen (same ∙ z)) ∙ sym (ap (λ p. p.0) e)

  module _ (now_ms : ℕ) where
    read-Coherent : (s : Link t) → Coherent s → Coherent (holding_read t now_ms s).1
    unfolding holding_read read Holding.mark_read
    read-Coherent s c =
        let w = throttle t s.gw now_ms s.world in
        let a = holding_address s.unit in
        ground (
          arith,
          is_ok-eq (t.read_fn w holding a 3 s.unit.hold.words).0,
          d.read_ok w a 3 s.unit.hold.words,
          d.read_keeps w holding a 3 s.unit.hold.words a 3,
          throttle_keeps s now_ms a 3,
          t.read_failed w holding a 3 s.unit.hold.words,
          c,
        )

    send-Coherent : (s : Link t) → Coherent s → Coherent (holding_write_if_dirty t now_ms s).1
    unfolding holding_write_if_dirty write Holding.mark_written
    send-Coherent s c =
        let w = throttle t s.gw now_ms s.world in
        let a = holding_address s.unit in
        ground (
          arith,
          is_ok-eq (t.write_fn w a 3 s.unit.hold.words).0,
          d.write_ok w a 3 s.unit.hold.words,
          c,
        )

    read_seen :
        now_ms ≢ 0
        → (s : Link t) → s.unit.hold.last_read_ms ≢ 0
        → (holding_read t now_ms s).1.unit.hold.last_read_ms ≢ 0
    unfolding holding_read Holding.mark_read
    read_seen live s p = if_both (λ (h : Holding). h.last_read_ms ≢ 0) _ live p

    pub read_ok_seen :
        now_ms ≢ 0
        → (s : Link t) → (holding_read t now_ms s).0 ≡ ok
        → (holding_read t now_ms s).1.unit.hold.last_read_ms ≢ 0
    unfolding holding_read Holding.mark_read
    read_ok_seen live s e = ground arith

    pub Follows-IsStepwise : (float : Float) → now_ms ≢ 0 → IsStepwise t float now_ms Follows
    Follows-IsStepwise float live = record {
      stays = λ s. record { index = refl; valid = λ v. v; coherent = λ v c. c; seen = λ v p. p };
      joins = λ a b c p q. record {
        index = q.index ∙ p.index;
        valid = λ v. q.valid (p.valid v);
        coherent = λ v k. q.coherent (p.valid v) (p.coherent v k);
        seen = λ v k. q.seen (p.valid v) (p.seen v k);
      };
      reads = λ s. record {
        index = unfold holding_read in refl;
        valid = (read-Keeps t float now_ms s).valid;
        coherent = λ v. read-Coherent s;
        seen = λ v. read_seen live s;
      };
      sends = λ s.
          let e = write-Sends t now_ms s in
          record {
            index = e.index;
            valid = Sends-IsUnit e;
            coherent = λ v. send-Coherent s;
            seen = λ v p z. p (sym e.read_at ∙ z);
          };
      syncs = λ s. record {
        index = refl;
        valid = sync-IsUnit float;
        coherent = λ v.
            tracked s (sync float s.unit).hold
              (sync-Tracks float s.unit.hold v.hold s.unit.status v.status)
              (sync-times float s.unit.hold v.hold s.unit.status v.status).0;
        seen = λ v p z. p (sym (sync-times float s.unit.hold v.hold s.unit.status v.status).0 ∙ z);
      };
      clears = λ s. record {
        index = refl;
        valid = reset-IsUnit false;
        coherent = λ v.
            let e = filter_reset_set-Writes s.unit.hold v.hold false in
            tracked s (with_filter_reset false s.unit).hold e.tracks e.read_at;
        seen = λ v p z. p (sym (filter_reset_set-Writes s.unit.hold v.hold false).read_at ∙ z);
      };
    }
