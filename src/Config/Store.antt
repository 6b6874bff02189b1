-- ===== src/Config/Store.antt =====
-- config_store_load and config_store_save.
use daikin_d3net.Base.{ℕ, true, false, not, ◌||◌, List, [], if◌then◌else◌}
use daikin_d3net.Base.Text.{is_empty}
use daikin_d3net.Esp.{Err, ok, is_ok, is_nvs_not_found, ◌>>?◌}
use daikin_d3net.Codec.{◌!=◌}
use daikin_d3net.Modbus.Master.{RtuConfig}
use daikin_d3net.Config.{AppConfig, rtu_defaults, no_ids, default_config}
use daikin_d3net.Config.Nvs.{Nvs, Struct}

module _ (nvs : Nvs) (ids : Struct (List (List ℕ))) (rtu : Struct RtuConfig) where
  open nvs use {World, nvs_open, nvs_close, get_str, get_u64, get_blob}
  open nvs use {set_str, set_u64, set_blob, commit}

  -- The password and what depends on it: the result and the configuration.
  unfoldable pub load_password : World → AppConfig → Err × AppConfig
  load_password w cfg =
      let (read_err, sta_password) = get_str w "sta_pass" 65 cfg.sta_password in
      let missing = is_nvs_not_found read_err in
      let err = if missing then ok else read_err in
      (
        err,
        record cfg {
          sta_password = if missing then [] else sta_password;
          sta_configured = if is_ok err then not (is_empty cfg.sta_ssid) else cfg.sta_configured;
        },
      )

  -- The registry and the settings of the line.
  unfoldable pub load_registry : World → AppConfig → AppConfig
  load_registry w cfg =
      let (mask_err, mask) = get_u64 w "reg_mask" in
      let (ids_err, ids_read, ids_len) = get_blob w "reg_ids" ids.size in
      record cfg {
        registered_mask = if is_ok mask_err then mask else cfg.registered_mask;
        registered_ids =
            if not (is_ok ids_err) || ids_len != ids.size then no_ids else ids.of_bytes ids_read;
      }

  unfoldable pub load_rtu : World → AppConfig → AppConfig
  load_rtu w cfg =
      let (rtu_err, rtu_read, rtu_len) = get_blob w "rtu_cfg" rtu.size in
      record cfg {
        rtu_cfg =
            if not (is_ok rtu_err) || rtu_len != rtu.size
            then rtu_defaults
            else rtu.of_bytes rtu_read;
      }

  -- `config_store_load`
  unfoldable pub load : World → Err × AppConfig × World
  unfolding load_password load_registry load_rtu
  load w =
      let (open_err, w1) = nvs_open w false in
      if is_nvs_not_found open_err
      then (ok, default_config, w1)
      else if not (is_ok open_err)
      then (open_err, default_config, w1)
      else (let (ssid_err, sta_ssid) = get_str w1 "sta_ssid" 33 default_config.sta_ssid in
          let cfg = record default_config { sta_ssid = sta_ssid } in
          if not (is_ok ssid_err)
          then (ok, cfg, nvs_close w1)
          else (let (err, cfg1) = load_password w1 cfg in
              (err, load_rtu w1 (load_registry w1 cfg1), nvs_close w1)))

  -- The entries that `config_store_save` writes.
  unfoldable pub write_entries : AppConfig → World → Err × World
  write_entries cfg w =
      set_str w "sta_ssid" cfg.sta_ssid
      >>? (λ w. set_str w "sta_pass" cfg.sta_password)
      >>? (λ w. set_u64 w "reg_mask" cfg.registered_mask)
      >>? (λ w. set_blob w "reg_ids" (ids.bytes cfg.registered_ids))
      >>? (λ w. set_blob w "rtu_cfg" (rtu.bytes cfg.rtu_cfg))

  -- With the commit.
  unfoldable pub write_all : AppConfig → World → Err × World
  unfolding write_entries
  write_all cfg w = write_entries cfg w >>? commit

  -- `config_store_save`
  unfoldable pub save : AppConfig → World → Err × World
  unfolding write_all
  save cfg w =
      let (open_err, w1) = nvs_open w true in
      if not (is_ok open_err)
      then (open_err, w1)
      else (let (err, w2) = write_all cfg w1 in (err, nvs_close w2))
