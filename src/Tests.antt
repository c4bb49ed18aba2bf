-- ===== src/Tests.antt =====
-- The theorems at concrete inputs, and runs of the code.
mod Simulated
mod Words
mod Codec
mod Exchange
mod Transport
mod Drive
mod Motion
mod Moved
mod Api
mod Commands
