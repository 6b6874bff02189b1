-- ===== src/TelnetLog/Ring.antt =====
-- The lines in the ring carry consecutive numbers, and a reader gets each line once.
use daikin_d3net.Base.{
  ℕ, zero, suc, ◌+◌, ◌-◌, ◌%◌, ◌^◌, ◌≤◌, ◌<◌, min, max, ◌≡◌, ◌≢◌, ap, ap₂, sym, ◌∙◌, arith,
}
use daikin_d3net.Base.{List, [], ◌∷◌, ◌==◌, leb, if◌then◌else◌, length, get_or, set}
use daikin_d3net.Base.{length-set, get_or-set_self, get_or-set_ne, Bool-cases, inl, inr, dec_lt}
use mathlib.Core.Path.{subst}
use mathlib.Core.List.{map}
use daikin_d3net.TelnetLog.{LogLine, TelnetLog, blank, push, kept_line, collect, get_logs}

-- The number in the slot that is `k` behind the head.
pub seq_at : TelnetLog → ℕ → ℕ
seq_at st k = (get_or st.logs ((st.log_head + k) % 128) blank).seq

-- The slots from the head on hold the last `log_count` numbers up to `log_seq`.
pub record IsLog (st : TelnetLog) : Type 0 where
  pub slots : length st.logs ≡ 128
  pub head : st.log_head < 128
  pub most : st.log_count ≤ 128
  pub counted : st.log_count ≤ st.log_seq
  pub numbers : (k : ℕ) → k < st.log_count → seq_at st k + st.log_count ≡ st.log_seq + 1 + k

module _ (st : TelnetLog) (buf : List ℕ) (v : IsLog st) (h : st.log_seq + 1 < 2 ^ 32) where
  slot : ℕ
  slot = (st.log_head + st.log_count) % 128

  seq_at-written :
      (k : ℕ) → ((push st buf).log_head + k) % 128 ≡ slot → seq_at (push st buf) k ≡ st.log_seq + 1
  unfolding push seq_at slot
  seq_at-written k e =
      let new : LogLine = record { line = kept_line buf; seq = (st.log_seq + 1) % 2 ^ 32 } in
      ap (λ j. (get_or (set st.logs slot new) j blank).seq) e
      ∙ (ap (λ (l : LogLine). l.seq)
            (get_or-set_self st.logs slot new blank (omega (arith, v.slots)))
          ∙ omega arith)

  seq_at-kept :
      (k : ℕ)
      → ((push st buf).log_head + k) % 128 ≢ slot
      → seq_at (push st buf) k ≡ (get_or st.logs (((push st buf).log_head + k) % 128) blank).seq
  unfolding push seq_at slot
  seq_at-kept k e =
      let new : LogLine = record { line = kept_line buf; seq = (st.log_seq + 1) % 2 ^ 32 } in
      ap (λ (l : LogLine). l.seq) (get_or-set_ne st.logs slot _ new blank (λ q. e (sym q)))

  -- How far the head has moved.
  moved : ℕ
  moved = if st.log_count == 128 then 1 else 0

  push-head : (k : ℕ) → ((push st buf).log_head + k) % 128 ≡ (st.log_head + (k + moved)) % 128
  unfolding push moved
  push-head k = ground (arith, v.head)

  push-count : (push st buf).log_count + moved ≡ st.log_count + 1
  unfolding push moved
  push-count = ground (arith, v.most)

  moved_if_full : st.log_count ≤ 127 + moved
  unfolding moved
  moved_if_full = ground (arith, v.most)

  push-numbers :
      (k : ℕ)
      → k < (push st buf).log_count
      → seq_at (push st buf) k + (push st buf).log_count ≡ st.log_seq + 1 + 1 + k
  unfolding slot seq_at
  push-numbers k p = elim (dec_lt (k + moved) st.log_count) [
    | yes inner ↦
        let apart : ((push st buf).log_head + k) % 128 ≢ slot = λ e.
          let same : (st.log_head + (k + moved)) % 128 ≡ (st.log_head + st.log_count) % 128 =
            sym (push-head k) ∙ e in
          omega (arith, same, moved_if_full, v.most) in
        let old : seq_at (push st buf) k ≡ seq_at st (k + moved) =
          seq_at-kept k apart ∙ ap (λ j. (get_or st.logs j blank).seq) (push-head k) in
        omega (arith, old, v.numbers (k + moved) inner, push-count)
    | no outer ↦
        let at_end : k + moved ≡ st.log_count = omega (arith, push-count) in
        omega (
          arith,
          seq_at-written k (push-head k ∙ ap (λ x. (st.log_head + x) % 128) at_end),
          push-count,
        )
  ]

  -- Logging a line keeps the ring in order, as long as the line numbers do not wrap: its last
  -- lines, up to 128 of them, carry consecutive numbers up to the last one.
  pub push-IsLog : IsLog (push st buf)
  unfolding push
  push-IsLog = record {
    slots = length-set st.logs _ _ ∙ v.slots;
    head = ground (arith, v.head);
    most = ground (arith, v.most);
    counted = ground (arith, v.counted, v.most);
    numbers = λ k p. push-numbers k p ∙ omega arith;
  }

-- So many numbers from `lo` on.
unfoldable pub range : ℕ → ℕ → List ℕ
range lo zero = []
range lo (suc n) = lo ∷ range (lo + 1) n

pub range-step : (lo n : ℕ) → 0 < n → range lo n ≡ lo ∷ range (lo + 1) (n - 1)
unfolding range
range-step lo zero h = absurd (omega arith)
range-step lo (suc n) h = let less : suc n - 1 ≡ n = omega arith in rw less

collect-range :
    (st : TelnetLog) (since_seq left i room : ℕ)
    → IsLog st
    → i + left ≡ st.log_count
    → let from = max since_seq (st.log_seq - st.log_count + i) in
      map (λ (l : LogLine). l.seq) (collect st since_seq left i room)
      ≡ range (from + 1) (min room (st.log_seq - from))
unfolding collect range seq_at
collect-range st since_seq zero i room v e =
    let none : min room (st.log_seq - max since_seq (st.log_seq - st.log_count + i)) ≡ 0 =
      omega (arith, v.counted) in
    rw none
collect-range st since_seq (suc left) i room v e =
    let number : seq_at st i + st.log_count ≡ st.log_seq + 1 + i = v.numbers i (omega arith) in
    let first = st.log_seq - st.log_count + i in
    let next = st.log_seq - st.log_count + (i + 1) in
    let from = max since_seq first in
    let from' = max since_seq next in
    elim (Bool-cases (room == 0)) [
      | inl none ↦
          let nothing : min room (st.log_seq - from) ≡ 0 = ground arith in rw (none, nothing)
      | inr some_room ↦ elim (Bool-cases (leb (seq_at st i) since_seq)) [
        | inl old ↦
            let same : from' ≡ from = ground (arith, v.counted) in
            rw (some_room, old)
              (collect-range st since_seq left (i + 1) room v (omega arith)
                ∙ ap (λ m. range (m + 1) (min room (st.log_seq - m))) same)
        | inr new ↦
            let head : seq_at st i ≡ from + 1 = ground (arith, v.counted) in
            let later : from' + 1 ≡ from + 1 + 1 = ground (arith, v.counted) in
            let fewer : min (room - 1) (st.log_seq - from') ≡ min room (st.log_seq - from) - 1 =
              ground (arith, v.counted) in
            let some_left : 0 < min room (st.log_seq - from) = ground (arith, v.counted) in
            rw (some_room, new)
              (ap₂ ◌∷◌ head (
                  collect-range st since_seq left (i + 1) (room - 1) v (omega arith)
                  ∙ ap₂ range later fewer)
                ∙ sym (range-step (from + 1) (min room (st.log_seq - from)) some_left))
      ]
    ]

-- From a ring in order, a reader that asks for the lines after a number gets as many as it has
-- room for of those that are still in the ring: consecutive ones, from the oldest on, none twice.
pub get_logs_lem :
    (st : TelnetLog) (since_seq max_lines : ℕ)
    → IsLog st
    → let from = max since_seq (st.log_seq - st.log_count) in
      map (λ (l : LogLine). l.seq) (get_logs st since_seq max_lines)
      ≡ range (from + 1) (min max_lines (st.log_seq - from))
unfolding get_logs
get_logs_lem st since_seq max_lines v =
    let start : st.log_seq - st.log_count + 0 ≡ st.log_seq - st.log_count = omega arith in
    subst
      (λ b.
        map (λ (l : LogLine). l.seq) (collect st since_seq st.log_count 0 max_lines)
        ≡ range (max since_seq b + 1) (min max_lines (st.log_seq - max since_seq b)))
      start (collect-range st since_seq st.log_count 0 max_lines v (omega arith))
