-- ===== src/Tests/Pins.antt =====
-- The line of one device, with the settings of its port and the state of its pins.
use daikin_d3net.Base.{ℕ, refl, Bool, true, false, if◌then◌else◌}
use daikin_d3net.Base.Int.{ℤ, pos}
use daikin_d3net.Modbus.Uart.{Uart, UartConfig, disable, data_8_bits, stop_bits_1}
use daikin_d3net.Modbus.SetupLaws.{same_pin, Driver}
use daikin_d3net.Esp.{ok}
use daikin_d3net.Tests.Line.{Line, line, uart as device}

pub record Pins : Type 0 where
  pub line : Line
  pub settings : UartConfig
  pub pins : ℤ × ℤ
  pub is_output : ℤ → Bool
  pub level : ℤ → ℕ

abbrev with_line : Pins → Line → Pins
with_line w l = record w { line = l }

abbrev pub uart : Uart
uart = record {
  World = Pins;
  driver_install = λ w port size. (ok, w);
  param_config = λ w port c. (ok, record w { settings = c });
  set_pin = λ w port tx rx. (ok, record w { pins = (tx, rx) });
  reset_pin = λ w pin. record w {
    is_output = λ other. if same_pin pin other then false else w.is_output other;
  };
  set_output = λ w pin. record w {
    is_output = λ other. if same_pin pin other then true else w.is_output other;
  };
  flush_input = λ w port. with_line w (device.flush_input w.line port);
  write_bytes =
      λ w port bytes. let (n, l) = device.write_bytes w.line port bytes in (n, with_line w l);
  wait_tx_done = λ w port ticks. (ok, w);
  tick_count = λ w. device.tick_count w.line;
  read_bytes = λ w port most ticks.
      let (bytes, l) = device.read_bytes w.line port most ticks in (bytes, with_line w l);
  set_level =
      λ w pin n. record w { level = λ other. if same_pin pin other then n else w.level other };
  ms_to_ticks = device.ms_to_ticks;
  length-read_bytes = λ w port most ticks. device.length-read_bytes w.line port most ticks;
  read_bytes-byte = λ w port most ticks. device.read_bytes-byte w.line port most ticks;
}

abbrev pub driver : Driver uart
driver = record {
  settings = λ w port. w.settings;
  pins = λ w port. w.pins;
  is_output = λ w. w.is_output;
  level = λ w. w.level;
  param_config_sets = λ w port c e. refl;
  set_pin_sets = λ w port tx rx t r e. refl;
  set_pin_keeps = λ w port tx rx. refl;
  reset_pin_keeps = λ w pin port. refl;
  set_output_keeps = λ w pin port. refl;
  set_level_keeps = λ w pin port n. (refl, refl, refl);
  reset_pin_pins = λ w pin port t r. refl;
  set_output_pins = λ w pin port t r. refl;
  reset_pin_outputs = λ w pin other. refl;
  set_output_outputs = λ w pin other. refl;
  set_level_levels = λ w pin other n. refl;
}

-- A port that has not been set up, and no outputs.
abbrev pub unset : Pins
unset = record {
  line = line;
  settings = record {
    baud_rate = pos 0;
    data_bits = data_8_bits;
    parity = disable;
    stop_bits = stop_bits_1;
  };
  pins = (pos 0, pos 0);
  is_output = λ pin. false;
  level = λ pin. 0;
}
