-- ===== src/Api.antt =====
-- src/dryve_d1/api: the driver object that applications use.
pub mod Accessor
pub mod Status
pub mod Stop
pub mod Home
pub mod Limits
pub mod Move
pub mod Boundary
pub mod IdleShutdown
pub mod JogCommands
pub mod JogStart
