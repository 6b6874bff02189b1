-- ===== src/Gateway.antt =====
-- The gateway to the units (firmware/esp32_d3net/main/d3net_gateway.h, d3net_gateway.c): its
-- state, the throttled access to the bus and the writes to one unit.
-- A unit is passed by value beside the gateway and comes back changed, as `Link`: no function on
-- one unit reads the gateway's array. Pointers are not NULL. Log lines are left out.
pub mod Bus
pub mod Control
pub mod Commit
pub mod Steps
pub mod Prepare
pub mod Commands
pub mod Device
pub mod Reaches
pub mod Answering
pub mod Delivery
pub mod Finding
pub mod UnitId
pub mod Units
pub mod Discovery
pub mod DiscoveryRound
pub mod DiscoveryLaws
pub mod Polling
pub mod Throttle
pub mod Invariant
pub mod InvariantOps
use daikin_d3net.Base.{ℕ, ◌+◌, ◌-◌, ◌*◌, ◌/◌, ◌%◌, ◌^◌, Bool, true, false, not, ◌&&◌, ◌||◌}
use daikin_d3net.Base.{List, [], ◌∷◌, ltb, leb, ◌==◌, if◌then◌else◌, replicate}
use daikin_d3net.Esp.{Err, ok, invalid_arg, is_ok}
use daikin_d3net.Codec.{Words}
use daikin_d3net.Registers.Temperature.{Float}
use daikin_d3net.Registers.SystemStatus
use daikin_d3net.Registers.Capability
use daikin_d3net.Registers.Status
use daikin_d3net.Registers.Holding
use daikin_d3net.Registers.Holding.{Holding, elapsed}
use daikin_d3net.Registers.UnitError
use Bus.{Transport, RegType, input, holding}

-- `d3net_unit_t`; `unit_id` is the text up to its end, by character codes.
pub record HvacUnit : Type 0 where
  pub present : Bool
  pub index : ℕ
  pub unit_id : List ℕ
  pub last_error_read_ms : ℕ
  pub cap : Words
  pub status : Words
  pub hold : Holding
  pub error : Words

-- `d3net_gateway_t`, less the function pointers and their context, which `Transport` stands for.
pub record Gateway : Type 0 where
  pub modbus_device_id : ℕ
  pub poll_interval_s : ℕ
  pub throttle_ms : ℕ
  pub cache_write_s : ℕ
  pub cache_error_s : ℕ
  pub last_op_ms : ℕ
  pub system_status : Words
  pub units : List HvacUnit
  pub discovered_count : ℕ

abbrev pub max_units : ℕ
max_units = 64

-- `memset(unit, 0, sizeof(*unit))`
abbrev pub zero_unit : HvacUnit
zero_unit = record {
  present = false;
  index = 0;
  unit_id = [];
  last_error_read_ms = 0;
  cap = replicate Capability.count 0;
  status = replicate Status.count 0;
  hold = record {
    words = replicate Holding.count 0;
    dirty = false;
    last_read_ms = 0;
    last_write_ms = 0;
  };
  error = replicate UnitError.count 0;
}

-- `d3net_gateway_init`
unfoldable pub init : ℕ → Gateway
init modbus_device_id = record {
  modbus_device_id = modbus_device_id;
  poll_interval_s = 10;
  throttle_ms = 25;
  cache_write_s = 35;
  cache_error_s = 10;
  last_op_ms = 0;
  system_status = replicate SystemStatus.count 0;
  units = replicate max_units zero_unit;
  discovered_count = 0;
}

-- The milliseconds that `d3net_throttle` waits; 0 where it returns at once.
unfoldable pub throttle_wait : Gateway → ℕ → ℕ
throttle_wait gw now_ms =
    if gw.last_op_ms == 0
    then 0
    else if leb gw.throttle_ms (elapsed now_ms gw.last_op_ms)
    then 0
    else (gw.throttle_ms - elapsed now_ms gw.last_op_ms) % 2 ^ 32

module _ (t : Transport) where
  open t use {World, read_fn, write_fn, delay}

  -- `d3net_throttle`
  unfoldable pub throttle : Gateway → ℕ → World → World
  unfolding throttle_wait
  throttle gw now_ms w =
      if throttle_wait gw now_ms == 0 then w else delay w (throttle_wait gw now_ms)

  -- `d3net_read`: the result, the buffer, the gateway and the world after the call.
  unfoldable pub read :
      Gateway → RegType → ℕ → ℕ → Words → ℕ → World → Err × Words × Gateway × World
  unfolding throttle
  read gw reg_type address count out_words now_ms w =
      let (err, out, w') = read_fn (throttle gw now_ms w) reg_type address count out_words in
      (err, out, record gw { last_op_ms = now_ms }, w')

  -- `d3net_write`
  unfoldable pub write : Gateway → ℕ → ℕ → Words → ℕ → World → Err × Gateway × World
  unfolding throttle
  write gw address count words now_ms w =
      let (err, w') = write_fn (throttle gw now_ms w) address count words in
      (err, record gw { last_op_ms = now_ms }, w')

-- The gateway, one unit and the world.
pub record Link (t : Transport) : Type 0 where
  pub gw : Gateway
  pub unit : HvacUnit
  pub world : t.World

-- A function on a link that returns an `esp_err_t`. `m >> k` is
-- `err = m; if (err != ESP_OK) return err; k`.
abbrev pub Op : Transport → Type 0
Op t = Link t → Err × Link t

infixl 5 ◌>>◌
abbrev pub ◌>>◌ : {t : Transport} → Op t → Op t → Op t
◌>>◌ m k s = if is_ok (m s).0 then k (m s).1 else m s

-- A step that changes the unit and cannot fail.
abbrev pub modify : {t : Transport} → (HvacUnit → HvacUnit) → Op t
modify f s = (ok, record s { unit = f s.unit })

-- `(uint16_t)(D3NET_ADDR_UNIT_HOLDING + unit->index * D3NET_CNT_UNIT_HOLDING)`
abbrev pub holding_address : HvacUnit → ℕ
holding_address u = (Holding.address + u.index * Holding.count) % 2 ^ 16

-- `must_reload_holding` of `d3net_unit_prepare_write`
unfoldable pub must_reload_holding : ℕ → Gateway → Holding → Bool
unfolding Holding.read_within Holding.write_within
must_reload_holding now_ms gw h =
    h.last_read_ms == 0
    || (not h.dirty
        && (not (Holding.read_within h now_ms gw.cache_write_s)
            && not (Holding.write_within h now_ms gw.cache_write_s)))

module _ (t : Transport) where
  open t use {World}

  -- `d3net_gateway_read_error`
  unfoldable pub read_error : ℕ → Op t
  unfolding read
  read_error now_ms s =
      let u = s.unit in
      if not u.present
      then (invalid_arg, s)
      else if not (u.last_error_read_ms == 0)
          && ltb (elapsed now_ms u.last_error_read_ms) (s.gw.cache_error_s * 1000 % 2 ^ 64)
      then (ok, s)
      else (let error_addr = (UnitError.address + u.index * UnitError.count) % 2 ^ 16 in
          let (err, out, gw', w') =
            read t s.gw input error_addr UnitError.count u.error now_ms s.world in
          let u' = record u { error = out } in
          (
            err,
            record {
              gw = gw';
              unit = if is_ok err then record u' { last_error_read_ms = now_ms } else u';
              world = w';
            },
          ))

  -- `d3net_holding_read`
  unfoldable pub holding_read : ℕ → Op t
  unfolding read Holding.mark_read
  holding_read now_ms s =
      let u = s.unit in
      let (err, out, gw', w') =
        read t s.gw holding (holding_address u) Holding.count u.hold.words now_ms s.world in
      let h = record u.hold { words = out } in
      (
        err,
        record {
          gw = gw';
          unit = record u { hold = if is_ok err then Holding.mark_read h now_ms else h };
          world = w';
        },
      )

  -- `d3net_holding_write_if_dirty`
  unfoldable pub holding_write_if_dirty : ℕ → Op t
  unfolding write Holding.mark_written
  holding_write_if_dirty now_ms s =
      let u = s.unit in
      if not u.hold.dirty
      then (ok, s)
      else (let (err, gw', w') =
            write t s.gw (holding_address u) Holding.count u.hold.words now_ms s.world in
          (
            err,
            record {
              gw = gw';
              unit = record u {
                hold = if is_ok err then Holding.mark_written u.hold now_ms else u.hold;
              };
              world = w';
            },
          ))
