-- ===== src/Tests.antt =====
-- Concrete inputs: the theorems at them, and runs of the model.
pub mod Sample
pub mod Line
pub mod Pins
pub mod Slave
pub mod Store
pub mod Board
mod CodecRuns
mod ModbusRuns
pub mod GatewayRuns
pub mod AnswerRuns
mod DiscoveryRuns
mod ThrottleRuns
pub mod LogRuns
pub mod WebRuns
mod CommandRuns
mod BodyRuns
mod StartRuns
