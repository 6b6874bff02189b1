-- ===== src/Web/LogRange.antt =====
-- Two reads of the ring of log lines, each for the lines behind a number.
use daikin_d3net.Base.{ℕ, zero, suc, ◌+◌, ◌-◌, ◌≤◌, ◌<◌, min, max, ◌≡◌, refl, ap, ap₂, ◌∙◌, arith}
use daikin_d3net.Base.{List, [], ◌∷◌, ◌++◌, ltb, if◌then◌else◌, dec_lt}
use mathlib.Core.List.{map}
use daikin_d3net.TelnetLog.{LogLine, TelnetLog, get_logs}
use daikin_d3net.TelnetLog.Ring.{IsLog, range, get_logs_lem}
use daikin_d3net.App.{Platform}
use daikin_d3net.Web.Settings.{latest_seq}

abbrev pub numbers : List LogLine → List ℕ
numbers ls = map (λ (l : LogLine). l.seq) ls

greatest : List ℕ → ℕ → ℕ
greatest [] n = n
greatest (k ∷ ks) n = greatest ks (if ltb n k then k else n)

range-append : (lo a b : ℕ) → range lo a ++ range (lo + a) b ≡ range lo (a + b)
unfolding range
range-append lo zero b =
    let same : lo + 0 ≡ lo = omega arith in
    let none : 0 + b ≡ b = omega arith in rw (same, none) refl
range-append lo (suc a) b =
    let shifted : lo + suc a ≡ lo + 1 + a = omega arith in
    let more : suc a + b ≡ suc (a + b) = omega arith in
    rw (shifted, more) (ap (λ ks. lo ∷ ks) (range-append (lo + 1) a b))

greatest-range :
    (n lo latest : ℕ) → latest ≤ lo → 0 < n → greatest (range (lo + 1) n) latest ≡ lo + n
unfolding range greatest
greatest-range zero lo latest h more = absurd (omega arith)
greatest-range (suc zero) lo latest h more = ground arith
greatest-range (suc (suc n)) lo latest h more =
    let first : (if ltb latest (lo + 1) then lo + 1 else latest) ≡ lo + 1 = ground arith in
    ap (greatest (range (lo + 1 + 1) (suc n))) first
    ∙ (greatest-range (suc n) (lo + 1) (lo + 1) (omega arith) (omega arith) ∙ omega arith)

module _ (p : Platform) where
  latest_seq-greatest :
      (ls : List LogLine) (latest : ℕ) → latest_seq p ls latest ≡ greatest (numbers ls) latest
  unfolding latest_seq greatest
  latest_seq-greatest [] latest = refl
  latest_seq-greatest (l ∷ ls) latest = latest_seq-greatest ls _

  module _ (st : TelnetLog) (v : IsLog st) (held : 0 < st.log_count) where
    -- The number before the first line that a reader is given.
    abbrev pub from : ℕ → ℕ
    from since = max since (st.log_seq - st.log_count)

    last_of_range :
        (since : ℕ)
        → since ≤ st.log_seq
        → greatest (range (from since + 1) (min 64 (st.log_seq - from since))) since
          ≡ from since + min 64 (st.log_seq - from since)
    unfolding range greatest
    last_of_range since h =
        let n = min 64 (st.log_seq - from since) in
        elim (dec_lt 0 n) [
          | yes new ↦ greatest-range n (from since) since (omega arith) new
          | no old ↦
              let none : n ≡ 0 = omega arith in
              let end : since ≡ from since + n = omega (arith, v.counted, v.most, held) in
              ap (λ k. greatest (range (from since + 1) k) since) none ∙ end
        ]

    pub read-latest :
        (since : ℕ)
        → since ≤ st.log_seq
        → latest_seq p (get_logs st since 64) since ≡ from since + min 64 (st.log_seq - from since)
    read-latest since h =
        latest_seq-greatest (get_logs st since 64) since
        ∙ (ap (λ ks. greatest ks since) (get_logs_lem st since 64 v) ∙ last_of_range since h)

    -- Two reads of the ring, the second from the last number of the first.
    pub reads-whole :
        (since : ℕ)
        → since ≤ st.log_seq
        → let first = get_logs st since 64 in
          let next = latest_seq p first since in
          let second = get_logs st next 64 in
          (map (λ (l : LogLine). l.seq) first ++ map (λ (l : LogLine). l.seq) second
            ≡ range (from since + 1) (st.log_seq - from since))
          × (latest_seq p second next ≡ st.log_seq)
    reads-whole since h =
        let n = min 64 (st.log_seq - from since) in
        let next = latest_seq p (get_logs st since 64) since in
        let reached : next ≡ from since + n = read-latest since h in
        let from_next : from next ≡ from since + n = omega (arith, reached, v.counted, v.most) in
        let left : min 64 (st.log_seq - from next) ≡ st.log_seq - from since - n =
          omega (arith, from_next, v.counted, v.most) in
        let whole : n + (st.log_seq - from since - n) ≡ st.log_seq - from since = omega arith in
        let start : from next + 1 ≡ from since + 1 + n = omega (arith, from_next) in
        (
          ap₂ ◌++◌ (get_logs_lem st since 64 v) (get_logs_lem st next 64 v ∙ ap₂ range start left)
              ∙ (range-append (from since + 1) n (st.log_seq - from since - n)
                  ∙ ap (range (from since + 1)) whole),
          read-latest next (omega (arith, reached)) ∙ omega (arith, from_next, left),
        )
