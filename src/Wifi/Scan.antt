-- ===== src/Wifi/Scan.antt =====
-- The bounds of a scan.
use daikin_d3net.Base.{
  ℕ, zero, suc, ◌+◌, ◌≤◌, ◌≡◌, refl, ap, arith, List, [], length, length-take, All, ltb,
  if◌then◌else◌, ◌==◌,
}
use daikin_d3net.Base.{get_or, Bool-cases, inl, inr}
use daikin_d3net.Esp.{is_ok}
use daikin_d3net.Wifi.{ScanItem, Radio, no_item, copy_items, scan}

-- The items of an array of `most`, each with a name that fits its field.
pub record IsScan (most : ℕ) (items : List ScanItem) (count : ℕ) : Type 0 where
  pub counted : length items ≡ count
  pub bound : count ≤ most
  pub names : All (λ (item : ScanItem). length item.ssid ≤ 32) items

copy_items-length : (recs : List ScanItem) (left i : ℕ) → length (copy_items recs left i) ≡ left
unfolding copy_items
copy_items-length recs zero i = refl
copy_items-length recs (suc left) i = ap suc (copy_items-length recs left (i + 1))

copy_items-names :
    (recs : List ScanItem) (left i : ℕ)
    → All (λ (item : ScanItem). length item.ssid ≤ 32) (copy_items recs left i)
unfolding copy_items
copy_items-names recs zero i = tt
copy_items-names recs (suc left) i =
    (omega (arith, length-take 32 (get_or recs i no_item).ssid), copy_items-names recs left (i + 1))

-- Whatever a wifi_manager_scan returns, it has written as many items as it reports, not more than
-- the array of the caller has room for, each with a name of at most 32 characters.
pub scan-IsScan :
    (radio : Radio) (max_items : ℕ) (w : radio.World)
    → IsScan max_items (scan radio max_items w).1 (scan radio max_items w).2
unfolding scan
scan-IsScan radio max_items w =
    let empty : IsScan max_items [] 0 = record {
      counted = refl;
      bound = omega arith;
      names = tt;
    } in
    let w1 = (radio.scan_start w).1 in
    let ap_num = (radio.scan_get_ap_num w1).1 in
    let (err, found, recs, w2) = radio.scan_get_ap_records w1 ap_num in
    let n = if ltb found max_items then found else max_items in
    let full : IsScan max_items (copy_items recs n 0) n = record {
      counted = copy_items-length recs n 0;
      bound = ground arith;
      names = copy_items-names recs n 0;
    } in
    elim (Bool-cases (is_ok (radio.scan_start w).0)) [
      | inr bad ↦ rw bad empty
      | inl started ↦ elim (Bool-cases (is_ok (radio.scan_get_ap_num w1).0)) [
        | inr bad ↦ rw (started, bad) empty
        | inl counted ↦ elim (Bool-cases (ap_num == 0)) [
          | inl no_aps ↦ rw (started, counted, no_aps) empty
          | inr some_aps ↦ elim (Bool-cases (radio.calloc w1 ap_num)) [
            | inr bad ↦ rw (started, counted, some_aps, bad) empty
            | inl memory ↦ elim (Bool-cases (is_ok err)) [
              | inr bad ↦ rw (started, counted, some_aps, memory, bad) empty
              | inl read ↦ rw (started, counted, some_aps, memory, read) full
            ]
          ]
        ]
      ]
    ]
