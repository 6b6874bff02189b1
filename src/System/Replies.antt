-- ===== src/System/Replies.antt =====
-- The replies to a request and the lock of the gateway: what the functions that the handlers of
-- web_server.c share do to both.
use Prim.Native.String.{String}
use mathlib.Core.Path.{subst}
use daikin_d3net.Base.{ℕ, zero, suc, ◌+◌, ◌-◌, ◌≡◌, sym, not}
use daikin_d3net.Base.{
  List, Option, none, some, if_both, if◌then◌else◌, Option-cases, Bool-cases, inl, inr,
}
use daikin_d3net.Base.{[], ◌++◌, length, ltb, ◌==◌, leb}
use daikin_d3net.Base.Int.{ℤ, pos, negsuc}
use daikin_d3net.Esp.{Err, ok, fail, no_mem, is_ok}
use daikin_d3net.App.{Platform, Machine}
use daikin_d3net.App.Server.{Request}
use daikin_d3net.App.Json.{Json}
use daikin_d3net.Web.{refuse, reply_ok, reply_json, receive, recv_body, read_json, with_json}
use daikin_d3net.Web.Registry.{with_index}
use daikin_d3net.System.Ledger.{
  Ledger, Silent, Replied, silent, from_pair, then-Silent, then-Replied,
}

module _ (p : Platform) (l : Ledger p.float.F p.http) where
  open p use {http, float}

  -- A handler's result, for a request that came in the world `w`.
  unfoldable pub Answered : http.World → Err × Machine p → Type 0
  Answered w out = Replied p l w out.1.http

  pub refuse-Answered :
      (w : http.World) (status : ℕ) (text : String) (err : Err) (m : Machine p)
      → Silent p l w m.http
      → Answered w (refuse p status text err m)
  unfolding Answered
  refuse-Answered w status text err m e =
      let sends = l.send_err_sends m.http status text in
      then-Replied p l e (record { sent = sends.0; held = sends.1 })

  pub send-Replied :
      (w : http.World) (kind : String) (body : List ℕ) → Replied p l w (http.send w kind body).1
  send-Replied w kind body =
      let sends = l.send_sends w kind body in record { sent = sends.0; held = sends.1 }

  pub reply_ok-Answered :
      (w : http.World) (m : Machine p) → Silent p l w m.http → Answered w (reply_ok p m)
  unfolding reply_ok Answered
  reply_ok-Answered w m e = then-Replied p l e (send-Replied m.http _ _)

  pub reply_json-Answered :
      (w : http.World) (root : Json float.F) (m : Machine p)
      → Silent p l w m.http
      → Answered w (reply_json p root m)
  unfolding reply_json Answered
  reply_json-Answered w root m e = elim (Option-cases (http.print root)) [
    | inl none_left ↦ absurd (l.prints root none_left)
    | inr (body, printed) ↦ rw (printed, reply_json) (then-Replied p l e (send-Replied m.http _ _))
  ]

  -- Reading a body sends nothing.
  receive-Silent :
      (fuel content_len : ℕ) (buf : List ℕ) (w : http.World)
      → Silent p l w (receive p fuel content_len buf w).1
  unfolding receive
  receive-Silent zero content_len buf w = silent p l w
  receive-Silent (suc fuel) content_len buf w =
      let (bytes, w') = http.recv w (content_len - length buf) in
      let came : Silent p l w w' = from_pair p l (l.recv_keeps w (content_len - length buf)) in
      let rest = receive-Silent fuel content_len (buf ++ bytes) w' in
      let Quiet : Option (List ℕ) × http.World → Type 0 = λ out. Silent p l w out.1 in
      if_both Quiet (not (ltb (length buf) content_len)) {x = (some buf, w)} (silent p l w)
        (if_both Quiet (length bytes == 0) {x = (none, w')} came (then-Silent p l came rest))

  body-Silent : (req : Request) (w : http.World) → Silent p l w (recv_body p req w).2
  unfolding recv_body
  body-Silent req w =
      let Quiet : Err × Option (List ℕ) × http.World → Type 0 = λ out. Silent p l w out.2 in
      let (body, w') = receive p (req.content_len + 1) req.content_len [] w in
      let came = receive-Silent (req.content_len + 1) req.content_len [] w in
      if_both Quiet (req.content_len == 0) {x = (ok, none, w)} (silent p l w) (
        if_both Quiet (not (http.calloc w (req.content_len + 1))) {x = (no_mem, none, w)}
          (silent p l w)
          (elim (Option-cases body) [ inl e ↦ rw e came | inr (buf, e) ↦ rw e came ]))

  -- What reading a tree leaves: a refusal, or a tree and nothing sent.
  unfoldable pub Read : http.World → Option http.Item × Machine p → Type 0
  Read w (none, m) = Replied p l w m.http
  Read w (some json, m) = Silent p l w m.http

  parsed-Read :
      (w : http.World) (tree : Option http.Item) (m : Machine p)
      → Silent p l w m.http
      → Read w
          (elim tree [ none ↦ (none, (refuse p 400 "json" fail m).1) | some json ↦ (some json, m) ])
  unfolding Read Answered
  parsed-Read w none m e = refuse-Answered w 400 "json" fail m e
  parsed-Read w (some json) m e = e

  body-Read :
      (w : http.World) (body : Option (List ℕ)) (m : Machine p)
      → Silent p l w m.http
      → Read w (elim body [
        | none ↦ (none, (refuse p 400 "body" fail m).1)
        | some text ↦ elim (http.parse text) [
          | none ↦ (none, (refuse p 400 "json" fail m).1)
          | some json ↦ (some json, m)
        ]
      ])
  unfolding Read Answered
  body-Read w none m e = refuse-Answered w 400 "body" fail m e
  body-Read w (some text) m e = parsed-Read w (http.parse text) m e

  pub read_json-Read : (req : Request) (m : Machine p) → Read m.http (read_json p req m)
  unfolding read_json
  read_json-Read req m =
      let (err, body, w) = recv_body p req m.http in
      body-Read m.http body (record m { http = w }) (body-Silent req m.http)

  -- A function that goes on with a request that was not answered yet.
  abbrev pub Replies : (Machine p → Err × Machine p) → Type 0
  Replies f = (w : http.World) (m : Machine p) → Silent p l w m.http → Answered w (f m)

  with_tree-Answered :
      (k : http.Item → Machine p → Err × Machine p)
      → ((json : http.Item) → Replies (k json))
      → (w : http.World) (out : Option http.Item × Machine p) → Read w out
      → Answered w (elim out.0 [ none ↦ (fail, out.1) | some json ↦ k json out.1 ])
  unfolding Read Answered
  with_tree-Answered k h w (none, m) r = r
  with_tree-Answered k h w (some json, m) r = h json w m r

  pub with_json-Answered :
      (k : http.Item → Machine p → Err × Machine p)
      → ((json : http.Item) → Replies (k json))
      → (req : Request) (m : Machine p) → Answered m.http (with_json p k req m)
  unfolding with_json
  with_json-Answered k h req m =
      with_tree-Answered k h m.http (read_json p req m) (read_json-Read req m)

  pub with_index-Answered :
      (n : ℤ) (k : ℕ → Machine p → Err × Machine p)
      → ((index : ℕ) → Replies (k index))
      → Replies (with_index p n k)
  unfolding with_index
  with_index-Answered (pos n) k h w m e = elim (Bool-cases (leb 64 n)) [
    | inl far ↦ rw (far, with_index) (refuse-Answered w 400 "index" fail m e)
    | inr near ↦ rw (near, with_index) (h n w m e)
  ]
  with_index-Answered (negsuc n) k h w m e = refuse-Answered w 400 "index" fail m e

  -- The end of a handler: a refusal, or the reply.
  pub ends-Answered :
      (w : http.World) (status : ℕ) (text : String) (out : Err × Machine p)
      (f : Machine p → Machine p)
      → Silent p l w out.1.http
      → ((m : Machine p) → (f m).http ≡ m.http)
      → Answered w
          (if not (is_ok out.0) then refuse p status text out.0 out.1 else reply_ok p (f out.1))
  ends-Answered w status text out f e same =
      if_both (Answered w) (not (is_ok out.0)) (refuse-Answered w status text out.0 out.1 e)
        (reply_ok-Answered w (f out.1) (subst (Silent p l w) (sym (same out.1)) e))
