-- ===== src/System/Ledger.antt =====
-- The books of a request: how many replies were sent and how often the lock of the gateway is held.
use Prim.Native.String.{String}
use daikin_d3net.Base.{ℕ, ◌+◌, ◌-◌, ◌≡◌, ◌≢◌, refl, ◌∙◌, arith, true, false}
use daikin_d3net.Base.{List, none, if◌then◌else◌}
use daikin_d3net.App.{Platform}
use daikin_d3net.App.Server.{Http}
use daikin_d3net.App.Json.{Json}

-- How many replies were sent, and how often the lock is held. Only the two functions that reply
-- change the first, and only the two on the lock the second; a tree can be printed.
pub record Ledger (F : Type 0) (http : Http F) : Type 0 where
  pub sent : http.World → ℕ
  pub held : http.World → ℕ
  pub send_sends :
      (w : http.World) (kind : String) (body : List ℕ)
      → (sent (http.send w kind body).1 ≡ sent w + 1) × (held (http.send w kind body).1 ≡ held w)
  pub send_err_sends :
      (w : http.World) (status : ℕ) (text : String)
      → (sent (http.send_err w status text) ≡ sent w + 1)
        × (held (http.send_err w status text) ≡ held w)
  pub take_holds :
      (w : http.World) (ms : ℕ)
      → (sent (http.take w ms).1 ≡ sent w)
        × (held (http.take w ms).1 ≡ held w + (if (http.take w ms).0 then 1 else 0))
  pub give_frees :
      (w : http.World) → (sent (http.give w) ≡ sent w) × (held (http.give w) ≡ held w - 1)
  pub recv_keeps :
      (w : http.World) (most : ℕ)
      → (sent (http.recv w most).1 ≡ sent w) × (held (http.recv w most).1 ≡ held w)
  pub delay_keeps :
      (w : http.World) (ms : ℕ)
      → (sent (http.delay w ms) ≡ sent w) × (held (http.delay w ms) ≡ held w)
  pub restart_keeps :
      (w : http.World) → (sent (http.restart w) ≡ sent w) × (held (http.restart w) ≡ held w)
  pub ota_begin_keeps :
      (w : http.World) (partition : ℕ)
      → (sent (http.ota_begin w partition).2 ≡ sent w)
        × (held (http.ota_begin w partition).2 ≡ held w)
  pub ota_write_keeps :
      (w : http.World) (handle : ℕ) (bytes : List ℕ)
      → (sent (http.ota_write w handle bytes).1 ≡ sent w)
        × (held (http.ota_write w handle bytes).1 ≡ held w)
  pub ota_abort_keeps :
      (w : http.World) (handle : ℕ)
      → (sent (http.ota_abort w handle) ≡ sent w) × (held (http.ota_abort w handle) ≡ held w)
  pub ota_end_keeps :
      (w : http.World) (handle : ℕ)
      → (sent (http.ota_end w handle).1 ≡ sent w) × (held (http.ota_end w handle).1 ≡ held w)
  pub set_boot_keeps :
      (w : http.World) (partition : ℕ)
      → (sent (http.set_boot_partition w partition).1 ≡ sent w)
        × (held (http.set_boot_partition w partition).1 ≡ held w)
  pub prints : (root : Json F) → http.print root ≢ none

module _ (p : Platform) (l : Ledger p.float.F p.http) where
  open p use {http, float}

  -- No reply between two worlds, or one, and the lock as it was.
  pub record Silent (w w' : http.World) : Type 0 where
    pub sent : l.sent w' ≡ l.sent w
    pub held : l.held w' ≡ l.held w

  pub record Replied (w w' : http.World) : Type 0 where
    pub sent : l.sent w' ≡ l.sent w + 1
    pub held : l.held w' ≡ l.held w

  pub silent : (w : http.World) → Silent w w
  silent w = record { sent = refl; held = refl }

  pub from_pair :
      {w w' : http.World} → (l.sent w' ≡ l.sent w) × (l.held w' ≡ l.held w) → Silent w w'
  from_pair e = record { sent = e.0; held = e.1 }

  pub then-Silent : {a b c : http.World} → Silent a b → Silent b c → Silent a c
  then-Silent e f = record { sent = f.sent ∙ e.sent; held = f.held ∙ e.held }

  pub then-Replied : {a b c : http.World} → Silent a b → Replied b c → Replied a c
  then-Replied e f = record { sent = omega (arith, f.sent, e.sent); held = f.held ∙ e.held }

  pub then_quiet : {a b c : http.World} → Replied a b → Silent b c → Replied a c
  then_quiet e f = record { sent = omega (arith, f.sent, e.sent); held = f.held ∙ e.held }

  -- The lock taken and given back, and the lock that is not to be had.
  pub given_back :
      (w : http.World) (ms : ℕ) (w' : http.World)
      → (http.take w ms).0 ≡ true
      → Silent (http.take w ms).1 w'
      → Silent w (http.give w')
  given_back w ms w' taken e =
      let takes = l.take_holds w ms in
      let gives = l.give_frees w' in
      let one : l.held (http.take w ms).1 ≡ l.held w + 1 = rw taken at takes.1 in
      record { sent = gives.0 ∙ (e.sent ∙ takes.0); held = omega (arith, gives.1, e.held, one) }

  pub not_taken :
      (w : http.World) (ms : ℕ) → (http.take w ms).0 ≡ false → Silent w (http.take w ms).1
  not_taken w ms busy =
      let takes = l.take_holds w ms in
      let none_held : l.held (http.take w ms).1 ≡ l.held w + 0 = rw busy at takes.1 in
      record { sent = takes.0; held = omega (arith, none_held) }
