-- ===== src/Web/Registry/Listing.antt =====
-- What handle_registry_get lists: each unit that is present or registered, once.
use daikin_d3net.Base.{ℕ, zero, suc, ◌+◌, ◌-◌, ◌<◌, ◌≡◌, refl, ap, sym, ◌∙◌, arith}
use daikin_d3net.Base.{Bool, true, false, not, ◌&&◌, ◌||◌, Bool-cases, inl, inr, dec_lt, ℕ_discrete}
use daikin_d3net.Base.{List, [], ◌∷◌, get_or, ltb, leb, ◌==◌, if◌then◌else◌}
use daikin_d3net.Base.Int.{pos}
use daikin_d3net.Gateway.{HvacUnit, zero_unit}
use daikin_d3net.Gateway.Units.{AllFrom}
use daikin_d3net.Gateway.Invariant.{IsUnitAt, IsGateway}
use daikin_d3net.Config.{AppConfig}
use daikin_d3net.App.{Platform, Machine}
use daikin_d3net.App.Json.{Json, Items, no_items, item, object, member, number, array}
use daikin_d3net.Web.Registry.{online_item, offline_item, online_items, offline_items}
use daikin_d3net.Web.Registry.{reg_is_set, present_map, registry}

module _ {F : Type 0} where
  -- Whether the first member of an object is an index.
  abbrev pub has_index : ℕ → Json F → Bool
  has_index j (object (member key (number (pos n)) rest)) = n == j
  has_index j other = false

  -- How often an index is listed.
  unfoldable pub listed : ℕ → Items F → ℕ
  listed j no_items = 0
  listed j (item x xs) = (if has_index j x then 1 else 0) + listed j xs

  -- The items of the array that the tree of the reply holds first.
  abbrev pub items_of : Json F → Items F
  items_of (object (member key (array xs) rest)) = xs
  items_of other = no_items

one : Bool → ℕ
one b = if b then 1 else 0

module _ (p : Platform) (cfg : AppConfig) where
  open p use {float}

  online-listed :
      (units : List HvacUnit) (i j : ℕ) (rest : Items float.F)
      → AllFrom IsUnitAt i units
      → listed j (online_items p cfg units i rest)
        ≡ one (leb i j && (get_or units (j - i) zero_unit).present) + listed j rest
  unfolding online_items online_item listed AllFrom one
  online-listed [] i j rest v = ground arith
  online-listed (u ∷ units) i j rest v =
      let next = online-listed units (i + 1) j rest v.1 in
      elim (ℕ_discrete i j) [
        | yes here ↦
            let past : leb (i + 1) j ≡ false = ground arith in
            let reached : leb i j ≡ true = ground arith in
            let at : j - i ≡ 0 = omega arith in
            elim (Bool-cases u.present) [
              | inl e ↦
                  let same : (u.index == j) ≡ true = ground (arith, v.0.index e) in
                  rw (e, reached, at, same) (ap (λ n. 1 + n) (next ∙ rw past (omega arith)))
              | inr e ↦ rw (e, reached, at) (next ∙ rw past refl)
            ]
        | no apart ↦ elim (dec_lt i j) [
          | yes later ↦
              let behind : leb (i + 1) j ≡ true = ground arith in
              let reached : leb i j ≡ true = ground arith in
              let at : j - i ≡ suc (j - (i + 1)) = omega arith in
              let after : listed j (online_items p cfg units (i + 1) rest)
                  ≡ one (get_or units (j - (i + 1)) zero_unit).present + listed j rest =
                next ∙ rw behind refl in
              elim (Bool-cases u.present) [
                | inl e ↦
                    let other : (u.index == j) ≡ false = ground (arith, v.0.index e) in
                    rw (e, reached, at, other) (omega (arith, after))
                | inr e ↦ rw (e, reached, at) after
              ]
          | no earlier ↦
              let behind : leb (i + 1) j ≡ false = ground arith in
              let reached : leb i j ≡ false = ground arith in
              let after : listed j (online_items p cfg units (i + 1) rest) ≡ 0 + listed j rest =
                next ∙ rw behind refl in
              elim (Bool-cases u.present) [
                | inl e ↦
                    let other : (u.index == j) ≡ false = ground (arith, v.0.index e) in
                    rw (e, reached, other) (omega (arith, after))
                | inr e ↦ rw (e, reached) after
              ]
        ]
      ]

  offline-listed :
      (seen : List Bool) (left i j : ℕ)
      → listed j (offline_items p cfg seen left i)
        ≡ one (leb i j && (ltb j (i + left) && (reg_is_set cfg j && not (get_or seen j false))))
  unfolding offline_items offline_item listed one
  offline-listed seen zero i j = ground arith
  offline-listed seen (suc left) i j =
      let next = offline-listed seen left (i + 1) j in
      elim (ℕ_discrete i j) [
        | yes here ↦
            let past : leb (i + 1) j ≡ false = ground arith in
            let reached : leb i j ≡ true = ground arith in
            let within : ltb j (i + suc left) ≡ true = ground arith in
            let same : (i == j) ≡ true = ground arith in
            let none_later = next ∙ rw past refl in
            rw
              (
                reached,
                within,
                sym (ap (reg_is_set cfg) here),
                sym (ap (λ k. get_or seen k false) here),
              )
              (elim (Bool-cases (reg_is_set cfg i)) [
                | inr e ↦ rw e none_later
                | inl e ↦ elim (Bool-cases (get_or seen i false)) [
                  | inl s ↦ rw (e, s) none_later
                  | inr s ↦ rw (e, s, same) (ap (λ n. 1 + n) none_later)
                ]
              ])
        | no apart ↦
            let other : (i == j) ≡ false = ground arith in
            let from : leb (i + 1) j ≡ leb i j = ground arith in
            let until : ltb j (i + 1 + left) ≡ ltb j (i + suc left) = ground arith in
            let later : listed j (offline_items p cfg seen left (i + 1))
                ≡ one (
                    leb i j
                    && (ltb j (i + suc left) && (reg_is_set cfg j && not (get_or seen j false)))) =
              next ∙ rw (from, until) refl in
            elim (Bool-cases (reg_is_set cfg i)) [
              | inr e ↦ rw e later
              | inl e ↦ elim (Bool-cases (get_or seen i false)) [
                | inl s ↦ rw (e, s) later
                | inr s ↦ rw (e, s, other) (omega (arith, later))
              ]
            ]
      ]

  seen-present :
      (us : List HvacUnit) (j : ℕ)
      → get_or (present_map p us) j false ≡ (get_or us j zero_unit).present
  seen-present [] j = refl
  seen-present (u ∷ us) zero = refl
  seen-present (u ∷ us) (suc j) = seen-present us j

  either_once :
      (present registered : Bool)
      → one present + one (registered && not present) ≡ one (present || registered)
  unfolding one
  either_once present registered = ground arith

  both-listed :
      (units : List HvacUnit) (j : ℕ)
      → AllFrom IsUnitAt 0 units
      → j < 64
      → listed j (online_items p cfg units 0 (offline_items p cfg (present_map p units) 64 0))
        ≡ one ((get_or units j zero_unit).present || reg_is_set cfg j)
  both-listed units j v h =
      let seen = present_map p units in
      let from : leb 0 j ≡ true = ground arith in
      let until : ltb j (0 + 64) ≡ true = ground arith in
      let at : j - 0 ≡ j = omega arith in
      let first = online-listed units 0 j (offline_items p cfg seen 64 0) v in
      let second = offline-listed seen 64 0 j in
      first
      ∙ rw (second, from, until, at, seen-present units j)
          (either_once (get_or units j zero_unit).present (reg_is_set cfg j))

module _ (p : Platform) (taken : Bool) (m : Machine p) (v : IsGateway m.app.gateway) where
  -- On a gateway in order, the tree of handle_registry_get lists an index below 64 once if its
  -- unit is registered, or present while the lock was to be had, and not at all otherwise.
  pub registry_lists_once :
      (j : ℕ)
      → j < 64
      → listed j (items_of (registry p taken m)) ≡ (
          if (taken && (get_or m.app.gateway.units j zero_unit).present)
            || reg_is_set m.app.config j
          then 1
          else 0)
  unfolding registry one AllFrom
  registry_lists_once j h = elim (Bool-cases taken) [
    | inl e ↦ rw e (both-listed p m.app.config m.app.gateway.units j v.units h)
    | inr e ↦ rw e (both-listed p m.app.config [] j tt h)
  ]
