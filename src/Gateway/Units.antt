-- ===== src/Gateway/Units.antt =====
-- The array of units: what holds at each place, and how many are present.
use daikin_d3net.Base.{ℕ, zero, suc, ◌+◌, ◌<◌, ◌≡◌, refl, sym, arith, if◌then◌else◌}
use daikin_d3net.Base.{List, [], ◌∷◌, length, set, get_or}
use mathlib.Core.Path.{subst}
use daikin_d3net.Gateway.{HvacUnit, zero_unit}

-- A property of each unit with its index.
unfoldable pub AllFrom : (ℕ → HvacUnit → Type 0) → ℕ → List HvacUnit → Type 0
AllFrom P i [] = Unit {0}
AllFrom P i (u ∷ us) = P i u × AllFrom P (i + 1) us

-- The number of units that are present.
unfoldable pub present_count : List HvacUnit → ℕ
present_count [] = 0
present_count (u ∷ us) = (if u.present then 1 else 0) + present_count us

-- A relation between the units of two lists at each place.
unfoldable pub Pointwise : (HvacUnit → HvacUnit → Type 0) → List HvacUnit → List HvacUnit → Type 0
Pointwise R [] [] = Unit {0}
Pointwise R [] (v ∷ vs) = ⊥
Pointwise R (u ∷ us) [] = ⊥
Pointwise R (u ∷ us) (v ∷ vs) = R u v × Pointwise R us vs

-- A property of each unit that follows from another.
pub AllFrom-map :
    (P Q : ℕ → HvacUnit → Type 0)
    → ((i : ℕ) (u : HvacUnit) → P i u → Q i u)
    → (i : ℕ) (us : List HvacUnit) → AllFrom P i us
    → AllFrom Q i us
unfolding AllFrom
AllFrom-map P Q f i [] h = tt
AllFrom-map P Q f i (u ∷ us) h = (f i u h.0, AllFrom-map P Q f (i + 1) us h.1)

pub AllFrom-get_or :
    (P : ℕ → HvacUnit → Type 0) (i : ℕ) (us : List HvacUnit) (k : ℕ)
    → AllFrom P i us
    → k < length us
    → P (i + k) (get_or us k zero_unit)
unfolding AllFrom
AllFrom-get_or P i [] k h p = absurd (omega arith)
AllFrom-get_or P i (u ∷ us) zero h p =
    let here : i + 0 ≡ i = omega arith in subst (λ j. P j u) (sym here) h.0
AllFrom-get_or P i (u ∷ us) (suc k) h p =
    let shifted : i + 1 + k ≡ i + suc k = omega arith in
    subst (λ j. P j (get_or us k zero_unit)) shifted
      (AllFrom-get_or P (i + 1) us k h.1 (omega arith))

pub AllFrom-set :
    (P : ℕ → HvacUnit → Type 0) (i : ℕ) (us : List HvacUnit) (k : ℕ) (v : HvacUnit)
    → AllFrom P i us
    → P (i + k) v
    → AllFrom P i (set us k v)
unfolding AllFrom
AllFrom-set P i [] k v h p = h
AllFrom-set P i (u ∷ us) zero v h p =
    let here : i + 0 ≡ i = omega arith in (subst (λ j. P j v) here p, h.1)
AllFrom-set P i (u ∷ us) (suc k) v h p =
    let shifted : i + suc k ≡ i + 1 + k = omega arith in
    (h.0, AllFrom-set P (i + 1) us k v h.1 (subst (λ j. P j v) shifted p))

pub present_count-set :
    (us : List HvacUnit) (k : ℕ) (v : HvacUnit)
    → v.present ≡ (get_or us k zero_unit).present
    → present_count (set us k v) ≡ present_count us
unfolding present_count
present_count-set [] k v e = refl
present_count-set (u ∷ us) zero v e = rw e
present_count-set (u ∷ us) (suc k) v e = rw (present_count-set us k v e)
