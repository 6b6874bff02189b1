-- ===== src/Web/Hvac/Delivery.antt =====
-- From a request over HTTP to the registers of the unit.
use daikin_d3net.Base.{ℕ, ◌<◌, ◌≡◌, ◌≢◌, arith, true, some, get_or}
use daikin_d3net.Esp.{ok}
use daikin_d3net.Base.Text.{codes}
use daikin_d3net.Codec.{bit_get}
use daikin_d3net.Gateway.{zero_unit, holding_address}
use daikin_d3net.Gateway.Units.{AllFrom-get_or}
use daikin_d3net.Gateway.Device.{Device, Coherent}
use daikin_d3net.Gateway.Delivery.{set_power_delivers}
use daikin_d3net.Gateway.Discovery.{to_ms}
use daikin_d3net.Gateway.Invariant.{IsUnitAt, IsGateway}
use daikin_d3net.Gateway.Answering.{Answers, IsReady}
use daikin_d3net.App.{Platform, Machine}
use daikin_d3net.Web.Hvac.{run_command}
use daikin_d3net.Web.Hvac.Command.{link}

module _ (p : Platform) (a : Answers p.bus) (d : Device p.bus) (index : ℕ) (m : Machine p) where
  open p use {http, bus}

  -- A request that can be served: the index is one of the array, the lock is to be had, the gateway is in order, the unit present,
  -- the bus alive, the clock past its start, and the holding block the one of the device.
  pub record IsServed : Type 0 where
    pub within : index < 64
    pub taken : (http.take m.http 5000).0 ≡ true
    pub order : IsGateway m.app.gateway
    pub present : (get_or m.app.gateway.units index zero_unit).present ≡ true
    pub alive : a.Alive m.bus
    pub later : to_ms (bus.time_us m.bus) ≢ 0
    pub coherent : Coherent bus d (link p index m)

  ready : IsServed → IsReady bus a (link p index m)
  ready s = record {
    alive = s.alive;
    present = s.present;
    valid =
        (AllFrom-get_or IsUnitAt 0 m.app.gateway.units index s.order.units
          (omega (arith, s.within, s.order.count))).valid;
  }

  pub power_delivers :
      (val : http.Item)
      → IsServed
      → http.is_number val ≡ true
      → let (err, m') = run_command p index (codes "power") (some val) m in
        let address = holding_address (get_or m.app.gateway.units index zero_unit) in
        (err ≡ ok) × (bit_get (d.regs m'.bus address 3) 3 0 ≡ http.above_half val)
  unfolding run_command
  power_delivers val s number =
      let done =
        set_power_delivers bus a d p.float (to_ms (bus.time_us m.bus)) s.later (http.above_half val)
          (link p index m) (ready s) s.coherent in
      rw (s.taken, s.present, number) done
