-- ===== src/System/Handlers.antt =====
-- What the handlers that read a tree share.
use Prim.Native.String.{String}
use mathlib.Core.Path.{subst}
use daikin_d3net.Base.{ℕ, ◌<◌, ◌≡◌, sym, arith, not, Option, none, some}
use daikin_d3net.Base.{Bool-cases, inl, inr, if_both, leb, if◌then◌else◌}
use daikin_d3net.Base.Int.{ℤ, pos, negsuc}
use daikin_d3net.Esp.{Err, fail, is_ok}
use daikin_d3net.App.{Platform, Machine}
use daikin_d3net.App.Server.{Request}
use daikin_d3net.Web.{refuse, reply_ok, with_json}
use daikin_d3net.Web.Registry.{with_index}
use daikin_d3net.System.Invariant.{IsApp, Safe}
use daikin_d3net.System.Pages.{stays, refuse-Safe, reply_ok-Safe, read_json-app}

module _ (p : Platform) where
  open p use {http}

  -- A function that keeps the application in order.
  abbrev pub Keeps : (Machine p → Err × Machine p) → Type 0
  Keeps f = (m : Machine p) → IsApp m.app → Safe p (f m)

  with_tree-Safe :
      (k : http.Item → Machine p → Err × Machine p)
      → ((json : http.Item) → Keeps (k json))
      → (json : Option http.Item) (m : Machine p) → IsApp m.app
      → Safe p (elim json [ none ↦ (fail, m) | some json ↦ k json m ])
  with_tree-Safe k h none m v = stays p fail m v
  with_tree-Safe k h (some json) m v = h json m v

  pub with_json-Safe :
      (k : http.Item → Machine p → Err × Machine p)
      → ((json : http.Item) → Keeps (k json))
      → (req : Request) → Keeps (with_json p k req)
  unfolding with_json
  with_json-Safe k h req m v = with_tree-Safe k h _ _ (subst IsApp (sym (read_json-app p req m)) v)

  pub with_index-Safe :
      (n : ℤ) (k : ℕ → Machine p → Err × Machine p)
      → ((index : ℕ) → index < 64 → Keeps (k index))
      → Keeps (with_index p n k)
  unfolding with_index
  with_index-Safe (pos n) k h m v = elim (Bool-cases (leb 64 n)) [
    | inl e ↦ rw (e, with_index) (refuse-Safe p 400 "index" fail m v)
    | inr e ↦ rw (e, with_index) (h n (ground arith) m v)
  ]
  with_index-Safe (negsuc n) k h m v = refuse-Safe p 400 "index" fail m v

  -- The end of a handler: a refusal, or the reply.
  pub ends-Safe :
      (status : ℕ) (text : String) (out : Err × Machine p) (f : Machine p → Machine p)
      → Safe p out
      → ((m : Machine p) → (f m).app ≡ m.app)
      → Safe p
          (if not (is_ok out.0) then refuse p status text out.0 out.1 else reply_ok p (f out.1))
  unfolding Safe
  ends-Safe status text out f v same =
      if_both (Safe p) (not (is_ok out.0)) (refuse-Safe p status text out.0 out.1 v)
        (reply_ok-Safe p (f out.1) (subst IsApp (sym (same out.1)) v))
