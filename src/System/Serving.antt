-- ===== src/System/Serving.antt =====
-- Commands over HTTP in the states that the program reaches: that the gateway is in order is no
-- assumption there.
use daikin_d3net.Base.{ℕ, ◌<◌, ◌≡◌, Bool, ◌&&◌, List, Option, get_or}
use daikin_d3net.Esp.{is_ok}
use daikin_d3net.Gateway.{zero_unit}
use daikin_d3net.Gateway.Answering.{Answers}
use daikin_d3net.Config.{AppConfig}
use daikin_d3net.App.{Platform, Machine}
use daikin_d3net.Web.Hvac.{run_command}
use daikin_d3net.Web.Hvac.Answering.{is_command, run_command_answered}
use daikin_d3net.System.Invariant.{IsRegistry, initial_app}
use daikin_d3net.System.Steps.{State, Reach, Reach-IsApp}

module _ (p : Platform) (page : List ℕ) (a : Answers p.bus) where
  open p use {http}

  -- In every state that requests, rounds of the tasks, connections and events of the radio reach
  -- from the context that app_main makes of a configuration whose registry fits its types, if the
  -- bus answers there, a command over HTTP for an index of the array returns ESP_OK exactly if the
  -- lock is to be had, the unit is present, and the text is that of a command, with a number where
  -- the command needs one.
  pub reached_command :
      (cfg : AppConfig) (first : Bool) (m : Machine p) (s : State p page)
      → IsRegistry cfg
      → m.app ≡ initial_app cfg
      → Reach p page (first, m) s
      → a.Alive s.1.bus
      → (index : ℕ) (cmd : List ℕ) (val : Option http.Item) → index < 64
      → is_ok (run_command p index cmd val s.1).0 ≡ (
          (http.take s.1.http 5000).0
          && ((get_or s.1.app.gateway.units index zero_unit).present && is_command p a cmd val))
  reached_command cfg first m s r e steps alive index cmd val h =
      run_command_answered p a index h s.1 (Reach-IsApp p page cfg first m s r e steps).gateway
        alive cmd val
