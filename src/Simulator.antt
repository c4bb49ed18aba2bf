-- ===== src/Simulator.antt =====
-- packages/cia402-dryve-d1/src/cia402_dryve_d1/simulator.py: the drive's side of the protocol.
pub mod Drive
pub mod Gateway
pub mod Server
pub mod Statusword
