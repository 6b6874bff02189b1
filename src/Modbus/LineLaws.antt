-- ===== src/Modbus/LineLaws.antt =====
-- A line after a modbus_rtu_init that succeeded.
use daikin_d3net.Base.{ℕ, ◌≡◌, ◌⊎◌, inl, inr, refl, ap, sym, ◌∙◌, arith, true, false}
use daikin_d3net.Base.{if_both, Bool-cases}
use daikin_d3net.Base.Int.{ℤ, pos, negsuc}
use mathlib.Core.Path.{subst}
use daikin_d3net.Esp.{ok, is_ok, is_ok-eq}
use daikin_d3net.Codec.{is_negative}
use daikin_d3net.Modbus.Uart.{Uart}
use daikin_d3net.Modbus.Master.{RtuConfig, drive, set_rx}
use daikin_d3net.Modbus.Setup.{uart_cfg, prepare_pin, init_rtu}
use daikin_d3net.Modbus.SetupLaws.{same_pin, Driver, IsWired, IsFormat, uart_cfg-IsFormat}

same_pin_self : (pin : ℤ) → same_pin pin pin ≡ true
same_pin_self (pos n) = ground arith
same_pin_self (negsuc n) = ground arith

module _ (uart : Uart) (d : Driver uart) where
  open uart use {World}

  -- A pin for the direction is an output at level 0, if the board has it.
  abbrev pub Receives : ℤ → World → Type 0
  Receives pin w = (is_negative pin ≡ true) ⊎ ((d.is_output w pin ≡ true) × (d.level w pin ≡ 0))

  -- The port of a configuration has its settings and its pins, and the pins for the direction are
  -- set to receive.
  pub record IsLine (cfg : RtuConfig) (w : World) : Type 0 where
    pub format : IsFormat cfg (d.settings w cfg.uart_num)
    pub pins : d.pins w cfg.uart_num ≡ (cfg.tx_pin, cfg.rx_pin)
    pub de : Receives cfg.de_pin w
    pub re : Receives cfg.re_pin w

  -- The port and its pins are set.
  IsPort : RtuConfig → World → Type 0
  IsPort cfg w =
      (d.settings w cfg.uart_num ≡ uart_cfg cfg)
      × (d.pins w cfg.uart_num ≡ (cfg.tx_pin, cfg.rx_pin))

  prepare-IsPort :
      (cfg : RtuConfig) (pin : ℤ) (w : World)
      → same_pin pin cfg.tx_pin ≡ false
      → same_pin pin cfg.rx_pin ≡ false
      → IsPort cfg w
      → IsPort cfg (prepare_pin uart pin w)
  unfolding IsPort
  prepare-IsPort cfg pin w tx rx set =
      let apart_tx : same_pin pin (d.pins w cfg.uart_num).0 ≡ false =
        ap (λ (ps : ℤ × ℤ). same_pin pin ps.0) set.1 ∙ tx in
      let apart_rx : same_pin pin (d.pins w cfg.uart_num).1 ≡ false =
        ap (λ (ps : ℤ × ℤ). same_pin pin ps.1) set.1 ∙ rx in
      let w1 = uart.reset_pin w pin in
      let kept = d.reset_pin_pins w pin cfg.uart_num apart_tx apart_rx in
      let still_tx : same_pin pin (d.pins w1 cfg.uart_num).0 ≡ false =
        ap (λ (ps : ℤ × ℤ). same_pin pin ps.0) kept ∙ apart_tx in
      let still_rx : same_pin pin (d.pins w1 cfg.uart_num).1 ≡ false =
        ap (λ (ps : ℤ × ℤ). same_pin pin ps.1) kept ∙ apart_rx in
      if_both (IsPort cfg) (is_negative pin) set (
        d.set_output_keeps w1 pin cfg.uart_num ∙ (d.reset_pin_keeps w pin cfg.uart_num ∙ set.0),
        d.set_output_pins w1 pin cfg.uart_num still_tx still_rx ∙ (kept ∙ set.1),
      )

  drive-IsPort :
      (cfg : RtuConfig) (pin : ℤ) (n : ℕ) (w : World)
      → IsPort cfg w
      → IsPort cfg (drive uart pin n w)
  unfolding IsPort
  drive-IsPort cfg pin n w set =
      let kept = d.set_level_keeps w pin cfg.uart_num n in
      if_both (IsPort cfg) (is_negative pin) set (kept.0 ∙ set.0, kept.1 ∙ set.1)

  -- The pin is an output, if the board has it.
  Prepared : ℤ → World → Type 0
  Prepared pin w = (is_negative pin ≡ true) ⊎ (d.is_output w pin ≡ true)

  output-step :
      (pin other : ℤ) (w : World)
      → d.is_output w other ≡ true
      → d.is_output (prepare_pin uart pin w) other ≡ true
  output-step pin other w out =
      if_both (λ x. d.is_output x other ≡ true) (is_negative pin) out
        (let set = d.set_output_outputs (uart.reset_pin w pin) pin other in
          let reset = d.reset_pin_outputs w pin other in ground (arith, set, reset))

  prepare-Prepared : (pin : ℤ) (w : World) → Prepared pin (prepare_pin uart pin w)
  unfolding Prepared
  prepare-Prepared pin w = elim (Bool-cases (is_negative pin)) [
    | inl absent ↦ inl absent
    | inr present ↦
        let set = d.set_output_outputs (uart.reset_pin w pin) pin pin in
        inr (rw present (set ∙ rw (same_pin_self pin) refl))
  ]

  prepare-keeps :
      (pin other : ℤ) (w : World) → Prepared other w → Prepared other (prepare_pin uart pin w)
  unfolding Prepared
  prepare-keeps pin other w (inl absent) = inl absent
  prepare-keeps pin other w (inr out) = inr (output-step pin other w out)

  drive-Receives : (pin : ℤ) (w : World) → Prepared pin w → Receives pin (drive uart pin 0 w)
  unfolding Prepared
  drive-Receives pin w (inl absent) = inl absent
  drive-Receives pin w (inr out) = elim (Bool-cases (is_negative pin)) [
    | inl absent ↦ inl absent
    | inr present ↦
        let kept = d.set_level_keeps w pin pin 0 in
        let set = d.set_level_levels w pin pin 0 in
        inr (rw present (kept.2 ∙ out, set ∙ rw (same_pin_self pin) refl))
  ]

  drive-keeps : (pin other : ℤ) (w : World) → Receives other w → Receives other (drive uart pin 0 w)
  drive-keeps pin other w (inl absent) = inl absent
  drive-keeps pin other w (inr (out, low)) =
      if_both (Receives other) (is_negative pin) (inr (out, low)) (
        let kept = d.set_level_keeps w pin other 0 in
        let set = d.set_level_levels w pin other 0 in inr (kept.2 ∙ out, ground (arith, set)))

  drive-Prepared :
      (pin other : ℤ) (w : World) → Prepared other w → Prepared other (drive uart pin 0 w)
  unfolding Prepared
  drive-Prepared pin other w (inl absent) = inl absent
  drive-Prepared pin other w (inr out) =
      let kept = d.set_level_keeps w pin other 0 in
      inr (if_both (λ x. d.is_output x other ≡ true) (is_negative pin) out (kept.2 ∙ out))

  -- Where the calls lead that a successful modbus_rtu_init makes.
  configured : (cfg : RtuConfig) → World → World
  configured cfg w =
      (uart.param_config (uart.driver_install w cfg.uart_num 2048).1 cfg.uart_num (uart_cfg cfg)).1

  wired : (cfg : RtuConfig) → World → World
  wired cfg w = (uart.set_pin (configured cfg w) cfg.uart_num cfg.tx_pin cfg.rx_pin).1

  init_rtu-wired :
      (cfg : RtuConfig) (w : World)
      → is_ok (init_rtu uart cfg w).0 ≡ true
      → ((uart.param_config
            (uart.driver_install w cfg.uart_num 2048).1
            cfg.uart_num
            (uart_cfg cfg)).0
          ≡ ok)
        × ((uart.set_pin (configured cfg w) cfg.uart_num cfg.tx_pin cfg.rx_pin).0 ≡ ok)
        × ((init_rtu uart cfg w).2
            ≡ set_rx uart cfg
                (prepare_pin uart cfg.re_pin (prepare_pin uart cfg.de_pin (wired cfg w))))
  unfolding init_rtu configured wired
  init_rtu-wired cfg w e =
      let w1 = (uart.driver_install w cfg.uart_num 2048).1 in
      let param = uart.param_config w1 cfg.uart_num (uart_cfg cfg) in
      let pin = uart.set_pin param.1 cfg.uart_num cfg.tx_pin cfg.rx_pin in
      ground (arith, is_ok-eq param.0, is_ok-eq pin.0)

  wired-IsPort :
      (cfg : RtuConfig) (w : World)
      → IsWired cfg
      → is_ok (init_rtu uart cfg w).0 ≡ true
      → IsPort cfg (wired cfg w)
  unfolding IsPort wired configured
  wired-IsPort cfg w v e =
      let (param_ok, pin_ok, last) = init_rtu-wired cfg w e in
      (
        d.set_pin_keeps _ cfg.uart_num cfg.tx_pin cfg.rx_pin
            ∙ d.param_config_sets _ cfg.uart_num (uart_cfg cfg) param_ok,
        d.set_pin_sets _ cfg.uart_num cfg.tx_pin cfg.rx_pin v.tx v.rx pin_ok,
      )

  pub init_rtu-IsLine :
      (cfg : RtuConfig) (w : World)
      → IsWired cfg
      → is_ok (init_rtu uart cfg w).0 ≡ true
      → IsLine cfg (init_rtu uart cfg w).2
  unfolding set_rx IsPort
  init_rtu-IsLine cfg w v e =
      let w1 = wired cfg w in
      let w2 = prepare_pin uart cfg.de_pin w1 in
      let w3 = prepare_pin uart cfg.re_pin w2 in
      let w4 = drive uart cfg.de_pin 0 w3 in
      let set = drive-IsPort cfg cfg.re_pin 0 w4 (
        drive-IsPort cfg cfg.de_pin 0 w3 (
          prepare-IsPort cfg cfg.re_pin w2 v.re.0 v.re.1
            (prepare-IsPort cfg cfg.de_pin w1 v.de.0 v.de.1 (wired-IsPort cfg w v e)))) in
      let de = prepare-keeps cfg.re_pin cfg.de_pin w2 (prepare-Prepared cfg.de_pin w1) in
      let re = drive-Prepared cfg.de_pin cfg.re_pin w3 (prepare-Prepared cfg.re_pin w2) in
      let done : IsLine cfg (drive uart cfg.re_pin 0 w4) = record {
        format = subst (IsFormat cfg) (sym set.0) (uart_cfg-IsFormat cfg v.rate);
        pins = set.1;
        de = drive-keeps cfg.re_pin cfg.de_pin w4 (drive-Receives cfg.de_pin w3 de);
        re = drive-Receives cfg.re_pin w4 re;
      } in
      subst (IsLine cfg) (sym (init_rtu-wired cfg w e).2) done
