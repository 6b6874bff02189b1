-- ===== src/System/Invariant.antt =====
-- What holds of the application between two steps.
use daikin_d3net.Base.{
  ℕ, ◌-◌, ◌^◌, ◌<◌, ◌≡◌, refl, arith, Bool, true, false, List, [], Option, none, some,
}
use daikin_d3net.Base.{length, length-set, take, leb}
use daikin_d3net.Base.Bits.{bit_and-lt, bit_or-lt}
use daikin_d3net.Base.Text.{codes}
use daikin_d3net.Esp.{Err}
use daikin_d3net.Gateway.{max_units, init}
use daikin_d3net.Gateway.Invariant.{IsGateway, init-IsGateway}
use daikin_d3net.Config.{AppConfig}
use daikin_d3net.App.{OtaState, AppContext, Platform, Machine}
use daikin_d3net.Web.Registry.{reg_set}
use daikin_d3net.Web.Registry.Mask.{pow-lt}

-- The registry fits its types.
pub record IsRegistry (cfg : AppConfig) : Type 0 where
  pub mask : cfg.registered_mask < 2 ^ 64
  pub ids : length cfg.registered_ids ≡ max_units

-- No update is under way, and a successful one of fewer than 2^31 bytes has received all of them.
pub record IsOta (ota : OtaState) : Type 0 where
  pub idle : ota.active ≡ false
  pub whole : ota.success ≡ true → ota.total_bytes < 2 ^ 31 → ota.bytes_received ≡ ota.total_bytes

pub record IsApp (app : AppContext) : Type 0 where
  pub gateway : IsGateway app.gateway
  pub ota : IsOta app.ota
  pub registry : IsRegistry app.config

-- The context as `app_main` has it before the tasks start, from a configuration.
abbrev pub idle_ota : OtaState
idle_ota = record {
  active = false;
  success = false;
  message = codes "idle";
  bytes_received = 0;
  total_bytes = 0;
}

abbrev pub initial_app : AppConfig → AppContext
initial_app cfg = record { gateway = init cfg.rtu_cfg.slave_id; ota = idle_ota; config = cfg }

pub initial-IsApp : (cfg : AppConfig) → IsRegistry cfg → IsApp (initial_app cfg)
initial-IsApp cfg r = record {
  gateway = init-IsGateway cfg.rtu_cfg.slave_id;
  ota = record { idle = refl; whole = λ e small. refl };
  registry = r;
}

pub reg_set-IsRegistry :
    (cfg : AppConfig) (i : ℕ) (on : Bool) (unit_id : Option (List ℕ))
    → i < 64
    → IsRegistry cfg
    → IsRegistry (reg_set cfg i on unit_id)
unfolding reg_set
reg_set-IsRegistry cfg i true none h r =
    let far : leb 64 i ≡ false = ground arith in
    rw far
      (record { mask = bit_or-lt 64 cfg.registered_mask (2 ^ i) r.mask (pow-lt i h); ids = r.ids })
reg_set-IsRegistry cfg i true (some id) h r =
    let far : leb 64 i ≡ false = ground arith in
    rw far (record {
      mask = bit_or-lt 64 cfg.registered_mask (2 ^ i) r.mask (pow-lt i h);
      ids = rw (length-set cfg.registered_ids i (take 5 id)) r.ids;
    })
reg_set-IsRegistry cfg i false unit_id h r =
    let far : leb 64 i ≡ false = ground arith in
    rw far (record {
      mask = bit_and-lt 64 cfg.registered_mask (2 ^ 64 - 1 - 2 ^ i) r.mask;
      ids = rw (length-set cfg.registered_ids i []) r.ids;
    })

-- A result on the machine leaves the application in order.
unfoldable pub Safe : (p : Platform) → Err × Machine p → Type 0
Safe p out = IsApp out.1.app
