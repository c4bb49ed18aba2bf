-- ===== src/Transport.antt =====
-- src/dryve_d1/transport: the transaction ids, the framing of the TCP client, and the session that retries.
pub mod TransactionId
pub mod Client
pub mod Session
