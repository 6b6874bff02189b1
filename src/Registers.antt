-- ===== src/Registers.antt =====
-- The register blocks of a unit and of the adapter, by the fields that they hold
-- (firmware/esp32_d3net/main/d3net_codec.h, and d3net_codec.c from d3net_system_initialized on).
-- The C enums of modes, fan speeds and fan directions are numbers here, as they are there: a cast
-- makes an enum of whatever number the field holds.
pub mod Temperature
pub mod SystemStatus
pub mod Capability
pub mod Status
pub mod Holding
pub mod UnitError
pub mod StatusLaws
pub mod Writes
pub mod Sync
pub mod Reset
