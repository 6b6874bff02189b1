-- ===== src/Tests/GatewayRuns.antt =====
-- The gateway's theorems at a unit behind a sample bus, and runs of the commands.
use daikin_d3net.Base.{◌%◌, ◌^◌, ◌<◌, ◌≡◌, refl, arith, true, [], ◌∷◌}
use daikin_d3net.Base.Int.{pos}
use daikin_d3net.Esp.{ok}
use daikin_d3net.Codec.{bit_get}
use daikin_d3net.Registers.Status
use daikin_d3net.Registers.Holding
use daikin_d3net.Registers.Temperature.{to_tenths}
use daikin_d3net.Gateway.Control.{set_power, set_mode, set_setpoint, set_fan_speed, set_fan_dir}
use daikin_d3net.Gateway.Control.{filter_reset, commit_write}
use daikin_d3net.Gateway.Commit.{IsUnit, IsCommitted, commit-IsCommitted}
use daikin_d3net.Gateway.Commands.{
  set_power_lem, set_mode_lem, set_setpoint_lem, set_fan_speed_lem, set_fan_dir_lem,
}
use daikin_d3net.Gateway.Commands.{filter_reset_lem}
use daikin_d3net.Registers.StatusLaws
use daikin_d3net.Codec.Signed.{abs}
use daikin_d3net.Gateway.Device.{Coherent}
use daikin_d3net.Gateway.Reaches.{set_power_reaches}
use daikin_d3net.Tests.Sample.{
  Fraction, bus, device, fractions, unit, link, block_write, block_read, block_regs, llround,
}
use daikin_d3net.Gateway.{init}

-- What a run of a command computes with.
running : Unit {0}
unfolding init block_write block_read llround Holding.sync_from_status Status.power_get
    Status.power_set Status.fan_dir_get Status.fan_speed_get Status.oper_mode_get
    Status.temp_setpoint_get Holding.filter_reset_get Status.oper_mode_set Status.fan_speed_set
    Status.fan_dir_set Status.temp_setpoint_set Holding.filter_reset_set
running = tt

pub unit-IsUnit : IsUnit unit
unit-IsUnit = omega arith

pub link-Coherent : Coherent bus device link
unfolding device block_regs
link-Coherent clean seen = refl

-- The command succeeds and leaves the power bit on the device.
set_power_runs :
    ((set_power bus fractions true 5000 link).0 ≡ ok)
    × ((set_power bus fractions true 5000 link).1.world.words ≡ 97 ∷ 2 ∷ 210 ∷ [])
unfolding set_power running
set_power_runs = (refl, refl)

set_power_lem_example :
    let u = (set_power bus fractions true 5000 link).1.unit in
    IsCommitted u
    × (u.status ≡ Status.power_set unit.status true)
    × (Holding.power_get u.hold ≡ true)
set_power_lem_example = set_power_lem bus fractions 5000 true link unit-IsUnit set_power_runs.0

set_power_reaches_example :
    bit_get (block_regs (set_power bus fractions true 5000 link).1.world 2006 3) 3 0 ≡ true
unfolding device
set_power_reaches_example =
    set_power_reaches bus device fractions 5000 (omega arith) true link unit-IsUnit link-Coherent
      set_power_runs.0

-- Mode 18 is cut to four bits, the cooling mode 2.
set_mode_runs :
    ((set_mode bus fractions 18 5000 link).0 ≡ ok)
    × ((set_mode bus fractions 18 5000 link).1.world.words ≡ 97 ∷ 2 ∷ 210 ∷ [])
unfolding set_mode running
set_mode_runs = (refl, refl)

set_mode_lem_example :
    let u = (set_mode bus fractions 18 5000 link).1.unit in
    IsCommitted u
    × (u.status ≡ Status.oper_mode_set (Status.power_set unit.status true) 18)
    × (Holding.power_get u.hold ≡ true)
    × (Holding.oper_mode_get u.hold ≡ 18 % 16)
set_mode_lem_example = set_mode_lem bus fractions 5000 18 link unit-IsUnit set_mode_runs.0

-- 23 degrees.
abbrev warm : Fraction
warm = record { num = pos 23; den = 1 }

set_setpoint_runs :
    ((set_setpoint bus fractions warm 5000 link).0 ≡ ok)
    × ((set_setpoint bus fractions warm 5000 link).1.world.words ≡ 96 ∷ 2 ∷ 230 ∷ [])
unfolding set_setpoint running
set_setpoint_runs = (refl, refl)

setpoint_fits : abs (to_tenths fractions warm) < 2 ^ 15
unfolding llround
setpoint_fits = omega arith

set_setpoint_lem_example :
    let u = (set_setpoint bus fractions warm 5000 link).1.unit in
    IsCommitted u
    × (u.status ≡ Status.temp_setpoint_set fractions unit.status warm)
    × (Holding.setpoint_x10 u.hold ≡ to_tenths fractions warm)
set_setpoint_lem_example =
    set_setpoint_lem bus fractions 5000 warm link unit-IsUnit setpoint_fits set_setpoint_runs.0

set_fan_speed_runs :
    ((set_fan_speed bus fractions 5 5000 link).0 ≡ ok)
    × ((set_fan_speed bus fractions 5 5000 link).1.world.words ≡ 20576 ∷ 2 ∷ 210 ∷ [])
unfolding set_fan_speed running
set_fan_speed_runs = (refl, refl)

set_fan_speed_lem_example :
    let u = (set_fan_speed bus fractions 5 5000 link).1.unit in
    IsCommitted u
    × (u.status ≡ Status.fan_speed_set unit.status 5)
    × (Holding.fan_speed_get u.hold ≡ 5 % 8)
    × (Holding.fan_control_get u.hold ≡ true)
set_fan_speed_lem_example =
    set_fan_speed_lem bus fractions 5000 5 link unit-IsUnit set_fan_speed_runs.0

set_fan_dir_runs :
    ((set_fan_dir bus fractions 7 5000 link).0 ≡ ok)
    × ((set_fan_dir bus fractions 7 5000 link).1.world.words ≡ 1888 ∷ 2 ∷ 210 ∷ [])
unfolding set_fan_dir running
set_fan_dir_runs = (refl, refl)

set_fan_dir_lem_example :
    let u = (set_fan_dir bus fractions 7 5000 link).1.unit in
    IsCommitted u
    × (u.status ≡ Status.fan_dir_set unit.status 7)
    × (Holding.fan_dir_get u.hold ≡ 7 % 8)
    × (Holding.fan_control_get u.hold ≡ true)
set_fan_dir_lem_example = set_fan_dir_lem bus fractions 5000 7 link unit-IsUnit set_fan_dir_runs.0

filter_reset_runs : (filter_reset bus fractions 5000 link).0 ≡ ok
unfolding filter_reset running
filter_reset_runs = refl

filter_reset_lem_example :
    let u = (filter_reset bus fractions 5000 link).1.unit in
    IsCommitted u × (u.status ≡ unit.status)
filter_reset_lem_example = filter_reset_lem bus fractions 5000 link unit-IsUnit filter_reset_runs

commit_write_runs : (commit_write bus fractions 5000 link).0 ≡ ok
unfolding commit_write running
commit_write_runs = refl

commit-IsCommitted_example :
    IsCommitted (commit_write bus fractions 5000 link).1.unit
    × ((commit_write bus fractions 5000 link).1.unit.status ≡ unit.status)
commit-IsCommitted_example =
    commit-IsCommitted bus fractions 5000 link unit-IsUnit commit_write_runs
