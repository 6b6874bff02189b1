-- ===== src/Web/Registry.antt =====
-- The registry of units: reg_is_set, reg_set, handle_registry_get and handle_registry_post.
pub mod Mask
pub mod Listing
use Prim.Native.String.{String}
use daikin_d3net.Base.{
  ℕ, zero, suc, ◌+◌, ◌-◌, ◌*◌, ◌/◌, ◌^◌, bit_and, bit_or, Bool, true, false, not, ◌||◌,
}
use daikin_d3net.Base.{
  List, [], ◌∷◌, ◌++◌, Option, none, some, leb, if◌then◌else◌, set, get_or, take,
}
use daikin_d3net.Base.Int.{ℤ, pos, negsuc}
use daikin_d3net.Base.Text.{codes, same_text}
use daikin_d3net.Esp.{Err, ok, fail, invalid_arg, not_found, is_ok}
use daikin_d3net.Codec.{◌!=◌, is_negative, magnitude}
use daikin_d3net.Registers.Status
use daikin_d3net.Gateway.{HvacUnit, max_units, zero_unit}
use daikin_d3net.Gateway.UnitId.{print_unsigned}
use daikin_d3net.Config.{AppConfig}
use daikin_d3net.App.{Platform, Machine, log}
use daikin_d3net.App.Server.{Http, Request}
use daikin_d3net.App.Json.{Json, bool, number, float, string, array, object, Items, no_items, item}
use daikin_d3net.App.Json.{no_members, member}
use daikin_d3net.Web.{Handler, refuse, reply_ok, reply_json, with_json, is_number, is_string}
use daikin_d3net.Web.{valueint, valuestring, save_config}

-- `reg_is_set`
unfoldable pub reg_is_set : AppConfig → ℕ → Bool
reg_is_set cfg index =
    if leb max_units index then false else bit_and cfg.registered_mask (2 ^ index) != 0

-- `reg_set`, without an id for NULL
unfoldable pub reg_set : AppConfig → ℕ → Bool → Option (List ℕ) → AppConfig
reg_set cfg index on unit_id =
    if leb max_units index
    then cfg
    else if on
    then record cfg {
      registered_mask = bit_or cfg.registered_mask (2 ^ index);
      registered_ids = elim unit_id [
        | none ↦ cfg.registered_ids
        | some id ↦ set cfg.registered_ids index (take 5 id)
      ];
    }
    else record cfg {
      registered_mask = bit_and cfg.registered_mask (2 ^ 64 - 1 - 2 ^ index);
      registered_ids = set cfg.registered_ids index [];
    }

-- The index of a request: `idx->valueint`, if it is one of a unit.
abbrev pub unit_index : ℤ → Option ℕ
unit_index (pos n) = if leb max_units n then none else some n
unit_index (negsuc n) = none

module _ (p : Platform) where
  open p use {http, float}

  -- What `handle_registry_get` shows of a unit that is present.
  unfoldable pub online_item : AppConfig → ℕ → HvacUnit → Json float.F
  online_item cfg i u = object (
      member "index" (number (pos u.index)) (
        member "unit_id" (string u.unit_id) (
          member "registered" (bool (reg_is_set cfg i)) (
            member "online" (bool true) (
              member "power" (bool (Status.power_get u.status)) (
                member "mode" (number (pos (Status.oper_mode_get u.status))) (
                  member "mode_name" (string []) (
                    member "temp_current" (Json.float (Status.temp_current_get float u.status)) (
                      member "temp_setpoint" (Json.float (Status.temp_setpoint_get float u.status))
                        no_members)))))))))

  -- And of a registered unit that is not.
  unfoldable pub offline_item : AppConfig → ℕ → Json float.F
  offline_item cfg i = object (
      member "index" (number (pos i)) (
        member "unit_id" (string (get_or cfg.registered_ids i []))
          (member "registered" (bool true) (member "online" (bool false) no_members))))

  -- The loop over the units, from index `i`, in front of the items behind it.
  unfoldable pub online_items : AppConfig → List HvacUnit → ℕ → Items float.F → Items float.F
  unfolding online_item
  online_items cfg [] i rest = rest
  online_items cfg (u ∷ units) i rest =
      let next = online_items cfg units (i + 1) rest in
      if u.present then item (online_item cfg i u) next else next

  -- The loop over the registry, with `left` indexes from `i` on. `present_map` has the units that
  -- the first loop has seen.
  unfoldable pub offline_items : AppConfig → List Bool → ℕ → ℕ → Items float.F
  unfolding offline_item
  offline_items cfg present_map zero i = no_items
  offline_items cfg present_map (suc left) i =
      let next = offline_items cfg present_map left (i + 1) in
      if not (reg_is_set cfg i)
      then next
      else if get_or present_map i false
      then next
      else item (offline_item cfg i) next

  -- `present_map` of the units from the head on.
  abbrev pub present_map : List HvacUnit → List Bool
  present_map [] = []
  present_map (u ∷ units) = u.present ∷ present_map units

  -- The tree that `handle_registry_get` replies with; without the lock it shows no unit as online.
  unfoldable pub registry : Bool → Machine p → Json float.F
  unfolding online_items offline_items
  registry taken m =
      let units = if taken then m.app.gateway.units else [] in
      object (
        member "units"
          (array (
            online_items m.app.config units 0
              (offline_items m.app.config (present_map units) max_units 0)))
          no_members)

  -- `handle_registry_get`
  unfoldable pub registry_get : Handler p
  unfolding registry reply_json
  registry_get req m =
      let (taken, w) = http.take m.http 2000 in
      let root = registry taken m in
      reply_json p root (record m { http = if taken then http.give w else w })

  abbrev pub with_config : AppConfig → Machine p → Machine p
  with_config cfg m = record m { app = record m.app { config = cfg } }

  -- The branch "add" of `handle_registry_post`. If the lock is not to be had, nothing is done, and
  -- the result stays ESP_OK.
  unfoldable pub register : ℕ → Machine p → Err × Machine p
  unfolding reg_set save_config log
  register index m =
      let (taken, w) = http.take m.http 2000 in
      let m1 = record m { http = w } in
      if not taken
      then (ok, m1)
      else (let u = get_or m.app.gateway.units index zero_unit in
          if not u.present
          then (not_found, record m1 { http = http.give w })
          else (let m2 =
                save_config p (with_config (reg_set m.app.config index true (some u.unit_id)) m1) in
              let m3 =
                log p
                  (codes "registered unit idx="
                    ++ (print_unsigned index [] ++ (codes " id=" ++ u.unit_id)))
                  m2 in
              (ok, record m3 { http = http.give m3.http })))

  -- The branch "remove", which takes no lock.
  unfoldable pub unregister : ℕ → Machine p → Err × Machine p
  unfolding reg_set save_config log
  unregister index m =
      let m1 = save_config p (with_config (reg_set m.app.config index false none) m) in
      (ok, log p (codes "unregistered unit idx=" ++ print_unsigned index []) m1)

  -- The action that a request names.
  unfoldable pub registry_action : List ℕ → ℕ → Machine p → Err × Machine p
  unfolding register unregister
  registry_action action index m =
      if same_text action (codes "add")
      then register index m
      else if same_text action (codes "remove")
      then unregister index m
      else (invalid_arg, m)

  -- What follows for the index of a request, if it is one of a unit.
  unfoldable pub with_index : ℤ → (ℕ → Machine p → Err × Machine p) → Machine p → Err × Machine p
  with_index n k m = elim (unit_index n) [
    | none ↦ refuse p 400 "index" fail m
    | some index ↦ k index m
  ]

  -- The end of `handle_registry_post`, for an index.
  unfoldable pub registry_change_at : List ℕ → ℕ → Machine p → Err × Machine p
  unfolding registry_action reply_ok
  registry_change_at action index m =
      let (err, m1) = registry_action action index m in
      if not (is_ok err) then refuse p 500 "registry" err m1 else reply_ok p m1

  -- What it does with the tree of the request.
  unfoldable pub registry_change : http.Item → Machine p → Err × Machine p
  unfolding with_index registry_change_at
  registry_change json m =
      let idx = http.get_item json "index" in
      let action = http.get_item json "action" in
      if not (is_number p idx) || not (is_string p action)
      then refuse p 400 "fields" fail m
      else with_index (valueint p idx) (registry_change_at (valuestring p action)) m

  -- `handle_registry_post`
  unfoldable pub registry_post : Handler p
  unfolding with_json registry_change
  registry_post = with_json p registry_change
