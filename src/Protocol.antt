-- ===== src/Protocol.antt =====
-- src/dryve_d1/protocol: the telegrams of the Modbus TCP gateway.
pub mod Codec
pub mod Validator
pub mod Telegram
pub mod Sdo
