-- ===== src/Tests.antt =====
-- The theorems at concrete inputs: `Instances` has a board to run on, the others the runs.
pub mod Wires
pub mod Instances
pub mod DeliveryRuns
pub mod LinkRuns
pub mod UartRuns
pub mod ConformanceRuns
pub mod StartupRuns
pub mod FirmwareRuns
pub mod BatchRuns
pub mod RadioRuns
pub mod BleRuns
pub mod ControlRuns
