-- ===== src/Tests/AnswerRuns.antt =====
-- The theorems on a bus that answers, at the sample bus and at a line with a prompt device.
use daikin_d3net.Base.{◌%◌, ◌^◌, ◌<◌, ◌≡◌, refl, arith, true, [], ◌∷◌, length}
use daikin_d3net.Base.{ℕ, All, ◌==◌}
use daikin_d3net.Esp.{ok}
use daikin_d3net.Codec.{Words, bit_get, uint_get}
use daikin_d3net.Codec.View.{IsWords}
use daikin_d3net.Registers.Status
use daikin_d3net.Gateway.Bus.{RegType, holding}
use daikin_d3net.Gateway.{Gateway, Link}
use daikin_d3net.Gateway.Control.{set_power, set_mode, command, with_filter_reset}
use daikin_d3net.Gateway.Commit.{IsCommitted}
use daikin_d3net.Gateway.Units.{AllFrom}
use daikin_d3net.Gateway.Discovery.{discover_units}
use daikin_d3net.Gateway.Answering.{Answers, IsReady, Succeeds, filter-Succeeds}
use daikin_d3net.Gateway.Delivery.{set_power_delivers, set_mode_delivers}
use daikin_d3net.Gateway.Finding.{is_shown, discover_units_answered}
use daikin_d3net.Modbus.Master.{read_registers, write_registers}
use daikin_d3net.Modbus.Answered.{read_registers_answered, write_registers_answered}
use daikin_d3net.Modbus.Commands.{line_bus, set_mode_over_line, discover_units_over_line}
use daikin_d3net.Tests.Sample.{
  Block, bus, device, fractions, unit, link, block_regs, block_read, block_write, fits, world,
}
use daikin_d3net.Tests.GatewayRuns.{unit-IsUnit, link-Coherent}
use daikin_d3net.Tests.Line.{Line, context, line}
use daikin_d3net.Tests.Slave.{prompt, slave}

All-fits : (ws : Words) → All (λ w. w < 2 ^ 16) ws → fits ws ≡ true
All-fits [] v = refl
All-fits (w ∷ ws) v = ground (arith, All-fits ws v.1, v.0)

pub block_write-answers :
    (w : Block) (address count : ℕ) (words : Words)
    → w.online ≡ true
    → IsWords count words
    → ((block_write w address count words).0 ≡ ok)
      × ((block_write w address count words).1.online ≡ true)
unfolding block_write
block_write-answers w address count words e v =
    let counted : (length words == count) ≡ true = ground (arith, v.count) in
    rw (e, counted, All-fits words v.fit) (refl, refl)

pub block_read-answers :
    (w : Block) (ty : RegType) (address count : ℕ) (buffer : Words)
    → w.online ≡ true
    → ((block_read w ty address count buffer).0 ≡ ok)
      × ((block_read w ty address count buffer).2.online ≡ true)
unfolding block_read
block_read-answers w ty address count buffer e = rw e (refl, refl)

-- The sample bus answers while it is online.
abbrev pub online : Answers bus
online = record {
  Alive = λ w. w.online ≡ true;
  reads = λ w ty address count buffer v some few. block_read-answers w ty address count buffer v;
  writes =
      λ w address count words v some few sized. block_write-answers w address count words v sized;
  waits = λ w ms v. v;
}

link-IsReady : IsReady bus online link
link-IsReady = record { alive = refl; present = refl; valid = unit-IsUnit }

set_power_delivers_example :
    ((set_power bus fractions true 5000 link).0 ≡ ok)
    × (bit_get (block_regs (set_power bus fractions true 5000 link).1.world 2006 3) 3 0 ≡ true)
unfolding device
set_power_delivers_example =
    set_power_delivers bus online device fractions 5000 (omega arith) true link link-IsReady
      link-Coherent

set_mode_delivers_example :
    let out = set_mode bus fractions 18 5000 link in
    let regs = block_regs out.1.world 2006 3 in
    (out.0 ≡ ok) × (bit_get regs 3 0 ≡ true) × (uint_get regs 3 16 4 ≡ 18 % 16)
unfolding device
set_mode_delivers_example =
    set_mode_delivers bus online device fractions 5000 (omega arith) 18 link link-IsReady
      link-Coherent

filter-Succeeds_example :
    Succeeds bus online (command bus fractions (with_filter_reset true) 5000 link)
filter-Succeeds_example = filter-Succeeds bus online fractions 5000 link link-IsReady

-- A bus whose system status has unit 1 connected, and a gateway of two units.
abbrev shown : Block
shown = record world { at = 0; words = 1 ∷ 2 ∷ 0 ∷ 0 ∷ 0 ∷ 0 ∷ 0 ∷ 0 ∷ 0 ∷ [] }

abbrev pair_of_units : Gateway
pair_of_units = record link.gw { units = unit ∷ unit ∷ [] }

discover_units_answered_example :
    let (err, gw', w') = discover_units bus pair_of_units shown in
    (err ≡ ok)
    × AllFrom (λ i u. u.present ≡ is_shown gw'.system_status i) 0 gw'.units
    × (w'.online ≡ true)
discover_units_answered_example = discover_units_answered bus online pair_of_units shown refl

-- The prompt device.
read_registers_answered_example :
    let out = read_registers prompt context holding 2006 2 (0 ∷ 0 ∷ []) line in
    (out.0 ≡ ok) × (out.1 ≡ 1 ∷ 1 ∷ []) × (out.2.ticks < 1000)
unfolding slave
read_registers_answered_example =
    read_registers_answered prompt context slave refl (omega arith) line holding 2006 2 (0 ∷ 0 ∷ [])
      (omega arith) (omega arith) (omega arith)

write_registers_answered_example :
    let out = write_registers prompt context 2006 3 (97 ∷ 2 ∷ 210 ∷ []) line in
    (out.0 ≡ ok) × (out.1.ticks < 1000)
unfolding slave
write_registers_answered_example =
    write_registers_answered prompt context slave refl (omega arith) line 2006 3 (97 ∷ 2 ∷ 210 ∷ [])
      (omega arith) (omega arith) (omega arith) refl

-- The sample unit on the line of the prompt device. Delays take no tick.
abbrev still : Line → ℕ → Line
still w ms = w

abbrev five_seconds : Line → ℕ
five_seconds w = 5000000

abbrev remote :
    Link (line_bus prompt context slave refl (omega arith) still five_seconds (λ w ms v. v))
remote = record { gw = link.gw; unit = unit; world = line }

set_mode_over_line_example :
    let bus' = line_bus prompt context slave refl (omega arith) still five_seconds (λ w ms v. v) in
    let out = set_mode bus' fractions 2 5000 remote in
    (out.0 ≡ ok)
    × IsCommitted out.1.unit
    × (out.1.unit.status ≡ Status.oper_mode_set (Status.power_set unit.status true) 2)
    × (out.1.world.ticks < 1000)
unfolding slave
set_mode_over_line_example =
    set_mode_over_line prompt context slave refl (omega arith) still five_seconds (λ w ms v. v)
      fractions 2 5000 remote (record { alive = omega arith; present = refl; valid = unit-IsUnit })

discover_units_over_line_example :
    let bus' = line_bus prompt context slave refl (omega arith) still five_seconds (λ w ms v. v) in
    let (err, gw', w') = discover_units bus' pair_of_units line in
    (err ≡ ok)
    × AllFrom (λ i u. u.present ≡ is_shown gw'.system_status i) 0 gw'.units
    × (w'.ticks < 1000)
unfolding slave
discover_units_over_line_example =
    discover_units_over_line prompt context slave refl (omega arith) still five_seconds
      (λ w ms v. v) pair_of_units line (omega arith)
