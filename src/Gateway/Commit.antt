-- ===== src/Gateway/Commit.antt =====
-- What a command that returns ESP_OK has done to the program's state.
use daikin_d3net.Base.{ℕ, ◌≡◌, ap, sym, ◌∙◌, inl, inr, arith}
use daikin_d3net.Base.{Bool, true, false, not, Bool-cases, if◌then◌else◌}
use daikin_d3net.Esp.{ok, invalid_arg, is_ok, is_ok-eq}
use daikin_d3net.Codec.View.{IsWords}
use daikin_d3net.Registers.Temperature.{Float}
use daikin_d3net.Registers.Holding
use daikin_d3net.Registers.Holding.{Holding}
use daikin_d3net.Registers.Sync.{Agrees, sync-Agrees, sync-IsWords}
use daikin_d3net.Registers.Writes.{filter_reset_set-Writes}
use daikin_d3net.Registers.Reset.{Agrees-words, filter_reset_get-words}
use daikin_d3net.Registers.Reset.{filter_reset_get-filter_reset_set, filter_reset_set-Agrees}
use daikin_d3net.Gateway.Bus.{Transport}
use daikin_d3net.Gateway.{HvacUnit, Link, Op, ◌>>◌, modify}
use daikin_d3net.Gateway.{holding_write_if_dirty}
use daikin_d3net.Gateway.Control.{sync, with_filter_reset}
use daikin_d3net.Gateway.Control.{clear_filter_reset, commit_write}

-- The blocks of a unit have their sizes.
pub record IsUnit (u : HvacUnit) : Type 0 where
  pub cap : IsWords 3 u.cap
  pub status : IsWords 6 u.status
  pub hold : IsWords 3 u.hold.words
  pub error : IsWords 2 u.error

-- The unit was left in agreement, with nothing left to send and no filter reset pending.
pub record IsCommitted (u : HvacUnit) : Type 0 where
  pub agrees : Agrees u.hold u.status
  pub sent : u.hold.dirty ≡ false
  pub no_reset : Holding.filter_reset_get u.hold ≡ false

-- What may differ after a step that only sends the holding block.
pub record Sends (u u' : HvacUnit) : Type 0 where
  pub present : u'.present ≡ u.present
  pub index : u'.index ≡ u.index
  pub status : u'.status ≡ u.status
  pub words : u'.hold.words ≡ u.hold.words
  pub cap : u'.cap ≡ u.cap
  pub error : u'.error ≡ u.error
  pub read_at : u'.hold.last_read_ms ≡ u.hold.last_read_ms

-- A sequence that succeeds has run both parts.
pub >>-ok :
    {t : Transport} (m k : Op t) (s : Link t)
    → ((m >> k) s).0 ≡ ok
    → ((m s).0 ≡ ok) × ((k (m s).1).0 ≡ ok) × ((m >> k) s ≡ k (m s).1)
>>-ok m k s e = elim (Bool-cases (is_ok (m s).0)) [
  | inl y ↦ (is_ok-eq (m s).0 y, rw y at e, rw y)
  | inr n ↦ cc (rw n at e, n)
]

-- A test is passed, or not.
pub not_taken : {A : Type 0} (b : Bool) (x y : A) → b ≡ true → (if not b then x else y) ≡ y
not_taken b x y e = rw e

pub taken : {A : Type 0} (b : Bool) (x y : A) → b ≡ false → (if not b then x else y) ≡ x
taken b x y e = rw e

module _ (t : Transport) (now_ms : ℕ) where
  pub write-Sends : (s : Link t) → Sends s.unit (holding_write_if_dirty t now_ms s).1.unit
  unfolding holding_write_if_dirty
  write-Sends s = ground arith

  -- On success nothing is left to send; on failure the block stays marked for sending.
  pub write-dirty :
      (s : Link t)
      → (holding_write_if_dirty t now_ms s).1.unit.hold.dirty
        ≡ not (is_ok (holding_write_if_dirty t now_ms s).0)
  unfolding holding_write_if_dirty
  write-dirty s = ground arith

pub Sends-IsUnit : {u u' : HvacUnit} → Sends u u' → IsUnit u → IsUnit u'
Sends-IsUnit e v = record {
  cap = rw e.cap v.cap;
  status = rw e.status v.status;
  hold = rw e.words v.hold;
  error = rw e.error v.error;
}

pub sync-IsUnit : (float : Float) {u : HvacUnit} → IsUnit u → IsUnit (sync float u)
sync-IsUnit float {u} v = record {
  cap = v.cap;
  status = v.status;
  hold = sync-IsWords float u.hold v.hold u.status v.status;
  error = v.error;
}

pub reset-IsUnit : (b : Bool) {u : HvacUnit} → IsUnit u → IsUnit (with_filter_reset b u)
reset-IsUnit b {u} v = record {
  cap = v.cap;
  status = v.status;
  hold = (filter_reset_set-Writes u.hold v.hold b).valid;
  error = v.error;
}

module _ (t : Transport) (float : Float) (now_ms : ℕ) where
  after_reset :
      (s : Link t)
      → Agrees s.unit.hold s.unit.status
      → Holding.filter_reset_get s.unit.hold ≡ false
      → (holding_write_if_dirty t now_ms s).0 ≡ ok
      → IsCommitted (holding_write_if_dirty t now_ms s).1.unit
  after_reset s a r e =
      let frame = write-Sends t now_ms s in
      record {
        agrees = rw frame.status (Agrees-words frame.words a);
        sent = write-dirty t now_ms s ∙ rw e;
        no_reset = filter_reset_get-words s.unit.hold _ frame.words ∙ r;
      }

  clear-IsCommitted :
      (s : Link t)
      → IsUnit s.unit
      → Agrees s.unit.hold s.unit.status
      → s.unit.hold.dirty ≡ false
      → (clear_filter_reset t float now_ms s).0 ≡ ok
      → IsCommitted (clear_filter_reset t float now_ms s).1.unit
  unfolding clear_filter_reset
  clear-IsCommitted s v a d = elim (Bool-cases (Holding.filter_reset_get s.unit.hold)) [
    | inl r ↦ rw r (
        after_reset (record s { unit = with_filter_reset false s.unit })
          (filter_reset_set-Agrees s.unit.hold v.hold false a)
          (filter_reset_get-filter_reset_set s.unit.hold v.hold false))
    | inr r ↦ rw r (λ e. record { agrees = a; sent = d; no_reset = r })
  ]

  pub commit_write_present :
      (s : Link t)
      → s.unit.present ≡ true
      → commit_write t float now_ms s
        ≡ (modify (sync float)
              >> holding_write_if_dirty t now_ms
              >> clear_filter_reset t float now_ms)
            s
  unfolding commit_write
  commit_write_present s e = not_taken s.unit.present (invalid_arg, s) _ e

  pub commit_write_absent :
      (s : Link t) → s.unit.present ≡ false → commit_write t float now_ms s ≡ (invalid_arg, s)
  unfolding commit_write
  commit_write_absent s e = taken s.unit.present (invalid_arg, s) _ e

  clear-status : (s : Link t) → (clear_filter_reset t float now_ms s).1.unit.status ≡ s.unit.status
  unfolding clear_filter_reset
  clear-status s = elim (Bool-cases (Holding.filter_reset_get s.unit.hold)) [
    | inl r ↦
        rw r (write-Sends t now_ms (record s { unit = with_filter_reset false s.unit })).status
    | inr r ↦ rw r
  ]

  -- On a unit whose blocks have their sizes, a d3net_unit_commit_write that returns ESP_OK leaves
  -- the status as it was, the holding block asking for what the status shows, nothing left to send
  -- and no filter reset request pending.
  pub commit-IsCommitted :
      (s : Link t)
      → IsUnit s.unit
      → (commit_write t float now_ms s).0 ≡ ok
      → IsCommitted (commit_write t float now_ms s).1.unit
        × ((commit_write t float now_ms s).1.unit.status ≡ s.unit.status)
  commit-IsCommitted s v e = elim (Bool-cases s.unit.present) [
    | inr absent ↦ cc (ap (λ r. r.0) (commit_write_absent s absent))
    | inl present ↦
        let synced = record s { unit = sync float s.unit } in
        let (sent_ok, cleared_ok, same) =
          >>-ok (modify (sync float) >> holding_write_if_dirty t now_ms)
            (clear_filter_reset t float now_ms) s
            (sym (ap (λ r. r.0) (commit_write_present s present)) ∙ e) in
        let sent = (holding_write_if_dirty t now_ms synced).1 in
        let frame = write-Sends t now_ms synced in
        let agrees : Agrees sent.unit.hold sent.unit.status = rw frame.status (
          Agrees-words frame.words (sync-Agrees float s.unit.hold v.hold s.unit.status v.status)) in
        let clean : sent.unit.hold.dirty ≡ false = write-dirty t now_ms synced ∙ rw sent_ok in
        rw (commit_write_present s present, same)
          (
            clear-IsCommitted sent (Sends-IsUnit frame (sync-IsUnit float v)) agrees clean
                cleared_ok,
            clear-status sent ∙ frame.status,
          )
  ]
