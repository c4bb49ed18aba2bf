-- ===== src/Od.antt =====
-- The object dictionary helpers of src/dryve_d1/od.
pub mod Types
pub mod Indices
pub mod Controlword
pub mod Statusword
