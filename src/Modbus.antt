-- ===== src/Modbus.antt =====
-- The Modbus RTU master (firmware/esp32_d3net/main/modbus_rtu.h, modbus_rtu.c).
pub mod Crc
pub mod CrcLaws
pub mod Frame
pub mod FrameLaws
pub mod AnswerLaws
pub mod Uart
pub mod Master
pub mod Setup
pub mod SetupLaws
pub mod LineLaws
pub mod MasterLaws
pub mod WriteLaws
pub mod Slave
pub mod Bus
pub mod Answered
pub mod Commands
