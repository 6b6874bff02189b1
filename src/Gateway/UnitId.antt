-- ===== src/Gateway/UnitId.antt =====
-- d3net_make_unit_id. The buffer has D3NET_UNIT_ID_STR_LEN characters, the end included.
use daikin_d3net.Base.{ℕ, ◌+◌, ◌/◌, ◌%◌, ◌^◌, ◌<◌, ◌≡◌, ◌≢◌, arith}
use daikin_d3net.Base.{List, [], ◌∷◌, ltb, if◌then◌else◌, length, get_or, ap}

-- The character of a digit.
abbrev pub figure : ℕ → ℕ
figure d = 48 + d % 10

-- `%u` of a number below 100.
abbrev pub print_unsigned : ℕ → List ℕ → List ℕ
print_unsigned n rest = if ltb n 10 then figure n ∷ rest else figure (n / 10) ∷ figure n ∷ rest

-- `d3net_make_unit_id`
unfoldable pub make_unit_id : ℕ → List ℕ
make_unit_id index =
    let group = (index / 16 + 1) % 2 ^ 8 in
    let num = index % 16 % 2 ^ 8 in print_unsigned group (45 ∷ figure (num / 10) ∷ figure num ∷ [])

make_unit_id_injective : (a b : ℕ) → a < 256 → b < 256 → make_unit_id a ≡ make_unit_id b → a ≡ b
unfolding make_unit_id
make_unit_id_injective a b ha hb e = ground (
  arith,
  e,
  ap length e,
  ap (λ s. get_or s 0 0) e,
  ap (λ s. get_or s 1 0) e,
  ap (λ s. get_or s 2 0) e,
  ap (λ s. get_or s 3 0) e,
  ap (λ s. get_or s 4 0) e,
)

-- Two different unit indexes below 256 have different unit ids.
pub make_unit_id_differs : (a b : ℕ) → a < 256 → b < 256 → a ≢ b → make_unit_id a ≢ make_unit_id b
make_unit_id_differs a b ha hb differ e = differ (make_unit_id_injective a b ha hb e)
