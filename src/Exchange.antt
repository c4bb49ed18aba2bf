-- ===== src/Exchange.antt =====
-- The two ends of the gateway protocol against one another: the driver's telegrams
-- (src/dryve_d1/protocol) and the simulator's gateway (simulator.py).
pub mod Enabled
pub mod Kept
pub mod Limits
pub mod Path
pub mod Plant
pub mod Read
pub mod Words
pub mod Write
