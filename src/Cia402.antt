-- ===== src/Cia402.antt =====
-- src/dryve_d1/cia402: the word helpers, the preconditions, the state machine and the fault manager.
pub mod Bits
pub mod Preconditions
pub mod Fault
pub mod StateMachine
