-- ===== src/Config/RoundTrip.antt =====
-- A configuration that was saved is loaded again.
use Prim.Native.String.{String}
use daikin_d3net.Base.{ℕ, ◌≤◌, ◌≡◌, refl, ap, ◌∙◌, arith, true, false, not, List, [], length}
use daikin_d3net.Base.{some, if◌then◌else◌}
use daikin_d3net.Base.Text.{is_empty}
use daikin_d3net.Esp.{Err, ok, is_ok, is_ok-eq, ◌>>?◌, >>?-ok}
use daikin_d3net.Codec.{◌!=◌}
use daikin_d3net.Modbus.Master.{RtuConfig}
use daikin_d3net.Config.{AppConfig}
use daikin_d3net.Config.Nvs.{Nvs, Struct, Flash, stored_text, stored_number, stored_blob}
use daikin_d3net.Config.Store.{
  load_password, load_registry, load_rtu, load, write_entries, write_all, save,
}

-- A configuration that the struct can hold.
pub record Fits (ids : Struct (List (List ℕ))) (rtu : Struct RtuConfig) (cfg : AppConfig)
    : Type 0 where
  pub ssid : length cfg.sta_ssid ≤ 32
  pub password : length cfg.sta_password ≤ 64
  pub rows : ids.Fits cfg.registered_ids
  pub line : rtu.Fits cfg.rtu_cfg

not_differ : {a b : ℕ} → a ≡ b → (a != b) ≡ false
not_differ e = ground arith

went_on :
    {World : Type 0} (opened wrote : Err) (a b : World)
    → let out : Err × World = (if not (is_ok opened) then (opened, a) else (wrote, b)) in
      out.0 ≡ ok → (wrote ≡ ok) × (out.1 ≡ b)
went_on opened wrote a b e = ground (arith, is_ok-eq opened)

module _ (nvs : Nvs) (flash : Flash nvs) (ids : Struct (List (List ℕ))) (rtu : Struct RtuConfig)
    (cfg : AppConfig) where
  open nvs use {World}

  -- The store has the configuration.
  record Holds (w : World) : Type 0 where
    ssid : flash.entry w "sta_ssid" ≡ some (stored_text cfg.sta_ssid)
    password : flash.entry w "sta_pass" ≡ some (stored_text cfg.sta_password)
    mask : flash.entry w "reg_mask" ≡ some (stored_number cfg.registered_mask)
    rows : flash.entry w "reg_ids" ≡ some (stored_blob (ids.bytes cfg.registered_ids))
    line : flash.entry w "rtu_cfg" ≡ some (stored_blob (rtu.bytes cfg.rtu_cfg))

  Holds-same :
      {a b : World} → ((k : String) → flash.entry b k ≡ flash.entry a k) → Holds a → Holds b
  Holds-same same v = record {
    ssid = same "sta_ssid" ∙ v.ssid;
    password = same "sta_pass" ∙ v.password;
    mask = same "reg_mask" ∙ v.mask;
    rows = same "reg_ids" ∙ v.rows;
    line = same "rtu_cfg" ∙ v.line;
  }

  write_all-Holds :
      (w : World) → (write_all nvs ids rtu cfg w).0 ≡ ok → Holds (write_all nvs ids rtu cfg w).1
  unfolding write_all write_entries
  write_all-Holds w e =
      let r1 = nvs.set_str w "sta_ssid" cfg.sta_ssid in
      let r2 = r1 >>? (λ w. nvs.set_str w "sta_pass" cfg.sta_password) in
      let r3 = r2 >>? (λ w. nvs.set_u64 w "reg_mask" cfg.registered_mask) in
      let r4 = r3 >>? (λ w. nvs.set_blob w "reg_ids" (ids.bytes cfg.registered_ids)) in
      let r5 = r4 >>? (λ w. nvs.set_blob w "rtu_cfg" (rtu.bytes cfg.rtu_cfg)) in
      let (e5, e6, s6) = >>?-ok r5 nvs.commit e in
      let (e4, f5, s5) = >>?-ok r4 (λ w. nvs.set_blob w "rtu_cfg" (rtu.bytes cfg.rtu_cfg)) e5 in
      let (e3, f4, s4) =
        >>?-ok r3 (λ w. nvs.set_blob w "reg_ids" (ids.bytes cfg.registered_ids)) e4 in
      let (e2, f3, s3) = >>?-ok r2 (λ w. nvs.set_u64 w "reg_mask" cfg.registered_mask) e3 in
      let (e1, f2, s2) = >>?-ok r1 (λ w. nvs.set_str w "sta_pass" cfg.sta_password) e2 in
      let k1 = λ (k : String). flash.set_str_ok w "sta_ssid" cfg.sta_ssid k e1 in
      let k2 = λ (k : String).
        ap (λ x. flash.entry x k) s2 ∙ flash.set_str_ok r1.1 "sta_pass" cfg.sta_password k f2 in
      let k3 = λ (k : String).
        ap (λ x. flash.entry x k) s3 ∙ flash.set_u64_ok r2.1 "reg_mask" cfg.registered_mask k f3 in
      let k4 = λ (k : String).
        ap (λ x. flash.entry x k) s4
        ∙ flash.set_blob_ok r3.1 "reg_ids" (ids.bytes cfg.registered_ids) k f4 in
      let k5 = λ (k : String).
        ap (λ x. flash.entry x k) s5
        ∙ flash.set_blob_ok r4.1 "rtu_cfg" (rtu.bytes cfg.rtu_cfg) k f5 in
      let k6 = λ (k : String). ap (λ x. flash.entry x k) s6 ∙ flash.commit_keeps r5.1 k in
      Holds-same k6 (record {
        ssid = k5 "sta_ssid" ∙ (k4 "sta_ssid" ∙ (k3 "sta_ssid" ∙ (k2 "sta_ssid" ∙ k1 "sta_ssid")));
        password = k5 "sta_pass" ∙ (k4 "sta_pass" ∙ (k3 "sta_pass" ∙ k2 "sta_pass"));
        mask = k5 "reg_mask" ∙ (k4 "reg_mask" ∙ k3 "reg_mask");
        rows = k5 "reg_ids" ∙ k4 "reg_ids";
        line = k5 "rtu_cfg";
      })

  load-Holds :
      (w : World)
      → Fits ids rtu cfg
      → Holds w
      → (nvs.nvs_open w false).0 ≡ ok
      → ((load nvs ids rtu w).0 ≡ ok)
        × ((load nvs ids rtu w).1 ≡ record cfg { sta_configured = not (is_empty cfg.sta_ssid) })
  unfolding load load_password load_registry load_rtu
  load-Holds w fits held opened =
      let w1 = (nvs.nvs_open w false).1 in
      let h = Holds-same (flash.open_keeps w false) held in
      rw
        (
          opened,
          flash.get_str_ok w1 "sta_ssid" 33 [] cfg.sta_ssid h.ssid (omega (arith, fits.ssid)),
          flash.get_str_ok w1 "sta_pass" 65 [] cfg.sta_password h.password
              (omega (arith, fits.password)),
          flash.get_u64_ok w1 "reg_mask" cfg.registered_mask h.mask,
          flash.get_blob_ok w1 "reg_ids" ids.size (ids.bytes cfg.registered_ids) h.rows
              (ids.length-bytes cfg.registered_ids fits.rows),
          flash.get_blob_ok w1 "rtu_cfg" rtu.size (rtu.bytes cfg.rtu_cfg) h.line
              (rtu.length-bytes cfg.rtu_cfg fits.line),
          not_differ (ids.length-bytes cfg.registered_ids fits.rows),
          not_differ (rtu.length-bytes cfg.rtu_cfg fits.line),
          ids.of_bytes-bytes cfg.registered_ids fits.rows,
          rtu.of_bytes-bytes cfg.rtu_cfg fits.line,
        )
        (refl, refl)

  write_all-readable :
      (w : World)
      → (write_all nvs ids rtu cfg w).0 ≡ ok
      → (nvs.nvs_open (nvs.nvs_close (write_all nvs ids rtu cfg w).1) false).0 ≡ ok
  unfolding write_all
  write_all-readable w e =
      let (_, committed, same) = >>?-ok (write_entries nvs ids rtu cfg w) nvs.commit e in
      ap (λ x. (nvs.nvs_open (nvs.nvs_close x) false).0) same
      ∙ flash.commit_ok (write_entries nvs ids rtu cfg w).1 committed

  save-ok :
      (w : World)
      → (save nvs ids rtu cfg w).0 ≡ ok
      → let wrote = write_all nvs ids rtu cfg (nvs.nvs_open w true).1 in
        (wrote.0 ≡ ok) × ((save nvs ids rtu cfg w).1 ≡ nvs.nvs_close wrote.1)
  unfolding save
  save-ok w e =
      let wrote = write_all nvs ids rtu cfg (nvs.nvs_open w true).1 in
      went_on (nvs.nvs_open w true).0 wrote.0 (nvs.nvs_open w true).1 (nvs.nvs_close wrote.1) e

  -- A config_store_save that returns ESP_OK is undone by config_store_load, for a configuration
  -- that its struct can hold: the same configuration comes back, configured if it has a network.
  pub load-save :
      (w : World)
      → Fits ids rtu cfg
      → (save nvs ids rtu cfg w).0 ≡ ok
      → let loaded = load nvs ids rtu (save nvs ids rtu cfg w).1 in
        (loaded.0 ≡ ok) × (loaded.1 ≡ record cfg { sta_configured = not (is_empty cfg.sta_ssid) })
  load-save w fits e =
      let (wrote, same) = save-ok w e in
      let w1 = (nvs.nvs_open w true).1 in
      let held = Holds-same (flash.close_keeps _) (write_all-Holds w1 wrote) in
      rw same (load-Holds _ fits held (write_all-readable w1 wrote))
