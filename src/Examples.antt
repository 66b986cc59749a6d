-- ===== src/Examples.antt =====
-- Tests, instances of what the models take as parameters, and the theorems at concrete inputs.
pub mod Bytes
pub mod Codec
pub mod Store
pub mod Kernel
pub mod ServerRuns
pub mod Stage
pub mod LoggerRuns
pub mod CaptureRuns
pub mod HostRuns
pub mod ClpRuns
pub mod SelfTestRuns
pub mod DoipRuns
pub mod GpioRuns
pub mod LinkRuns
pub mod FlashRuns
pub mod UsbRuns
