-- ===== src/System/Loaded.antt =====
-- The configuration that app_main loads fits its types.
use Prim.Native.String.{String}
use daikin_d3net.Base.{ℕ, ◌^◌, ◌<◌, ◌≡◌, refl, arith, false, not, ◌||◌, List, length}
use daikin_d3net.Base.{if_both}
use daikin_d3net.Esp.{Err, ok, is_ok, is_nvs_not_found}
use daikin_d3net.Codec.{◌!=◌}
use daikin_d3net.Gateway.{max_units}
use daikin_d3net.Modbus.Master.{RtuConfig}
use daikin_d3net.Config.{AppConfig, default_config}
use daikin_d3net.Config.Nvs.{Nvs, Struct}
use daikin_d3net.Config.Store.{load_password, load_registry, load_rtu, load}
use daikin_d3net.System.Invariant.{IsRegistry}

-- What a store and a struct of ids give fits the types.
module _ (nvs : Nvs) (ids : Struct (List (List ℕ))) (rtu : Struct RtuConfig)
    (numbers : (w : nvs.World) (k : String) → (nvs.get_u64 w k).1 < 2 ^ 64)
    (rows : (bytes : List ℕ) → length (ids.of_bytes bytes) ≡ max_units) where
  default-IsRegistry : IsRegistry default_config
  default-IsRegistry = record { mask = omega arith; ids = refl }

  load_registry-IsRegistry :
      (w : nvs.World) (cfg : AppConfig)
      → IsRegistry cfg
      → IsRegistry (load_registry nvs ids rtu w cfg)
  unfolding load_registry
  load_registry-IsRegistry w cfg r =
      let (mask_err, mask) = nvs.get_u64 w "reg_mask" in
      let (ids_err, ids_read, ids_len) = nvs.get_blob w "reg_ids" ids.size in
      record {
        mask = if_both (λ (n : ℕ). n < 2 ^ 64) (is_ok mask_err) (numbers w "reg_mask") r.mask;
        ids =
            if_both (λ (l : List (List ℕ)). length l ≡ max_units)
              (not (is_ok ids_err) || ids_len != ids.size) refl (rows ids_read);
      }

  Loaded : Err × AppConfig × nvs.World → Type 0
  Loaded out = IsRegistry out.1

  loaded : (err : Err) (cfg : AppConfig) (w : nvs.World) → IsRegistry cfg → Loaded (err, cfg, w)
  unfolding Loaded
  loaded err cfg w r = r

  load-Loaded : (w : nvs.World) → Loaded (load nvs ids rtu w)
  unfolding load load_password load_rtu
  load-Loaded w =
      let (open_err, w1) = nvs.nvs_open w false in
      let (ssid_err, sta_ssid) = nvs.get_str w1 "sta_ssid" 33 default_config.sta_ssid in
      let cfg = record default_config { sta_ssid = sta_ssid } in
      let named : IsRegistry cfg = record { mask = omega arith; ids = refl } in
      let (err, cfg1) = load_password nvs ids rtu w1 cfg in
      let named1 : IsRegistry cfg1 = record { mask = omega arith; ids = refl } in
      let read = load_registry-IsRegistry w1 cfg1 named1 in
      if_both Loaded (is_nvs_not_found open_err) (loaded ok default_config w1 default-IsRegistry) (
        if_both Loaded (not (is_ok open_err)) (loaded open_err default_config w1 default-IsRegistry)
          (if_both Loaded (not (is_ok ssid_err)) (loaded ok cfg _ named)
            (loaded err _ _ (record { mask = read.mask; ids = read.ids }))))

  pub load-IsRegistry : (w : nvs.World) → IsRegistry (load nvs ids rtu w).1
  unfolding Loaded
  load-IsRegistry w = load-Loaded w
