-- ===== src/Web/LogReader.antt =====
-- A reader of the log over HTTP: a page that asks handle_logs_get again and again, each time for the
-- lines behind the last number that it was given.
use daikin_d3net.Base.{ℕ, ◌+◌, ◌-◌, ◌≤◌, ◌<◌, max, ◌≡◌, refl, ap, ap₂, ◌∙◌, arith}
use daikin_d3net.Base.Int.{pos}
use daikin_d3net.Base.Text.{codes, same_text}
use daikin_d3net.Base.{◌%◌, ◌^◌, false, some, Option-cases, inl, inr}
use daikin_d3net.Base.{List, [], ◌∷◌, ◌++◌, if◌then◌else◌}
use Prim.Native.String.{String}
use daikin_d3net.TelnetLog.{LogLine, get_logs}
use daikin_d3net.TelnetLog.Ring.{IsLog, range}
use daikin_d3net.Esp.{Err}
use daikin_d3net.App.{Platform, Machine}
use daikin_d3net.App.Server.{Request}
use daikin_d3net.App.Json.{Json, bool, number, array, object, Items, no_items, item}
use daikin_d3net.App.Json.{Members, no_members, member}
use daikin_d3net.Web.{reply_json}
use daikin_d3net.Web.Settings.{latest_seq, log_items, logs, logs_get}
use daikin_d3net.Web.LogRange.{numbers, read-latest, reads-whole}

-- What a page reads of a reply: the value of a key, and a number.
unfoldable pub field_in : {F : Type 0} → String → Members F → Json F
field_in key no_members = bool false
field_in key (member name value rest) =
    let later = field_in key rest in if same_text (codes name) (codes key) then value else later

unfoldable pub field : {F : Type 0} → String → Json F → Json F
unfolding field_in
field key (object members) = field_in key members
field key value = bool false

unfoldable pub number_in : {F : Type 0} → Json F → ℕ
number_in (number (pos n)) = n
number_in value = 0

-- The numbers of the lines in a list of items.
unfoldable pub seqs_in : {F : Type 0} → Items F → List ℕ
unfolding field number_in
seqs_in no_items = []
seqs_in (item line rest) = number_in (field "seq" line) ∷ seqs_in rest

unfoldable pub items_in : {F : Type 0} → Json F → Items F
items_in (array items) = items
items_in value = no_items

-- The numbers of the lines of a reply, and its last number.
unfoldable pub seqs : {F : Type 0} → Json F → List ℕ
unfolding seqs_in items_in field
seqs root = seqs_in (items_in (field "lines" root))

unfoldable pub latest : {F : Type 0} → Json F → ℕ
unfolding number_in field
latest root = number_in (field "latest" root)

module _ (p : Platform) where
  open p use {http}

  -- A request for the lines behind a number: the text of its query, as strtoul reads it.
  unfoldable pub Asks : Request → ℕ → Type 0
  Asks req since = (text : List ℕ) × (req.since ≡ some text) × (http.strtoul text ≡ since)

  seqs-items : (ls : List LogLine) → seqs_in (log_items p ls) ≡ numbers ls
  unfolding seqs_in log_items field field_in number_in
  seqs-items [] = refl
  seqs-items (l ∷ ls) = ap (λ ks. l.seq ∷ ks) (seqs-items ls)

  seqs-logs :
      (since : ℕ) (m : Machine p) → seqs (logs p since m) ≡ numbers (get_logs m.telnet since 64)
  unfolding seqs logs field field_in items_in
  seqs-logs since m = seqs-items (get_logs m.telnet since 64)

  latest-logs :
      (since : ℕ) (m : Machine p)
      → latest (logs p since m) ≡ latest_seq p (get_logs m.telnet since 64) since
  unfolding latest logs field field_in number_in
  latest-logs since m = refl

  logs_get-Asks :
      (req : Request) (since : ℕ) (m : Machine p)
      → Asks req since
      → since < 2 ^ 32
      → logs_get p req m ≡ reply_json p (logs p since m) m
  unfolding logs_get Asks
  logs_get-Asks req since m asks small =
      let same : http.strtoul asks.0 % 2 ^ 32 ≡ since = omega (arith, asks.2) in rw (asks.1, same)

  reply_json-telnet :
      (root : Json p.float.F) (m : Machine p) → (reply_json p root m).1.telnet ≡ m.telnet
  unfolding reply_json
  reply_json-telnet root m = elim (Option-cases (http.print root)) [
    | inl none_left ↦ rw (none_left, reply_json)
    | inr (body, printed) ↦ rw (printed, reply_json)
  ]

  -- The ring is in order, holds a line, and its numbers fit 32 bits.
  pub record IsLogging (m : Machine p) : Type 0 where
    pub ring : IsLog m.telnet
    pub held : 0 < m.telnet.log_count
    pub fits : m.telnet.log_seq < 2 ^ 32

  two_trees :
      (since : ℕ) (m m' : Machine p)
      → IsLogging m
      → since ≤ m.telnet.log_seq
      → m'.telnet ≡ m.telnet
      → let first = logs p since m in
        let second = logs p (latest first) m' in
        let from = max since (m.telnet.log_seq - m.telnet.log_count) in
        (seqs first ++ seqs second ≡ range (from + 1) (m.telnet.log_seq - from))
        × (latest second ≡ m.telnet.log_seq)
  two_trees since m m' v h same =
      let first = logs p since m in
      let next = latest_seq p (get_logs m.telnet since 64) since in
      let read = reads-whole p m.telnet v.ring v.held since h in
      let reached : latest first ≡ next = latest-logs since m in
      let lines : get_logs m'.telnet (latest first) 64 ≡ get_logs m.telnet next 64 =
        ap₂ (λ st k. get_logs st k 64) same reached in
      (
        ap₂ ◌++◌ (seqs-logs since m) (seqs-logs (latest first) m' ∙ ap numbers lines) ∙ read.0,
        latest-logs (latest first) m' ∙ (ap₂ (latest_seq p) lines reached ∙ read.1),
      )

  -- On a ring that is in order, holds a line and has numbers below 2^32, a page that is not ahead
  -- of the log and sends two requests to handle_logs_get, one after the other, the second for the
  -- lines behind the last number of the first reply, is sent trees that list every line that it
  -- lacked and the ring still has, in order and once, and the second ends at the last number.
  pub two_reads :
      (since : ℕ) (req req' : Request) (m : Machine p)
      → IsLogging m
      → since ≤ m.telnet.log_seq
      → Asks req since
      → Asks req' (latest (logs p since m))
      → let first = logs p since m in
        let m' = (logs_get p req m).1 in
        let second = logs p (latest first) m' in
        let from = max since (m.telnet.log_seq - m.telnet.log_count) in
        (logs_get p req m ≡ reply_json p first m)
        × (logs_get p req' m' ≡ reply_json p second m')
        × (seqs first ++ seqs second ≡ range (from + 1) (m.telnet.log_seq - from))
        × (latest second ≡ m.telnet.log_seq)
  two_reads since req req' m v h asks asks' =
      let first = logs p since m in
      let m' = (logs_get p req m).1 in
      let sent = logs_get-Asks req since m asks (omega (arith, v.fits)) in
      let same : m'.telnet ≡ m.telnet =
        ap (λ (out : Err × Machine p). out.1.telnet) sent ∙ reply_json-telnet first m in
      let (listed, last) = two_trees since m m' v h same in
      let small : latest first < 2 ^ 32 =
        omega (arith, latest-logs since m, read-latest p m.telnet v.ring v.held since h, v.fits) in
      (sent, logs_get-Asks req' (latest first) m' asks' small, listed, last)
