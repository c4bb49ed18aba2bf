-- ===== src/Lib.antt =====
-- The dryve D1 driver: a Python driver for a motor controller that is reached through a Modbus TCP
-- gateway and speaks CiA 402, and the simulator that the repository tests it with. A command of the
-- driver becomes a read or a write of the object dictionary, this a telegram of the gateway, and
-- this an exchange on a TCP connection; the answer comes back the same way, checked at each level.
--
-- The modules, from the bottom up:
-- - Base: names that all modules share, Python's integers, bits of numbers, exceptions as values.
-- - Od: src/dryve_d1/od. Controlword and statusword bits, the state inferred from a statusword, the
--   indices, and the integer types. A word is a number that is not negative; what Python masks
--   to 16 bits is `% 65536` here.
-- - Protocol: src/dryve_d1/protocol. Codec is codec.py, Validator validator.py, Telegram
--   gateway_telegram.py and Sdo sdo.py, one function for each of theirs. Validator.Layout states the
--   layouts of the gateway manual apart from the code; an exception response may be longer than
--   there, as the code says of some firmware.
-- - Transport: src/dryve_d1/transport. TransactionId and Session are session.py (and retry.py),
--   Client is modbus_tcp_client.py. The socket is Python's: a parameter, of which the proofs use that
--   `recv` returns no more than was asked for (`IsStream`); its `close` is taken not to raise.
-- - Io: coroutines as functions on a world, which has the drive behind the object dictionary
--   accessor of src/dryve_d1/protocol/accessor.py, the clock, and a log of the writes. The drive may answer
--   and raise anything; that the clock does not go back and sleeping takes its time is `IsTimely`.
-- - Cia402: src/dryve_d1/cia402. Preconditions is dominance.py, StateMachine state_machine.py and Fault
--   fault.py.
-- - Motion: src/dryve_d1/motion. ProfilePosition is profile_position.py, ProfileVelocity
--   profile_velocity.py, Homing homing.py and Jog jog.py, where a `Controller` has the fields of
--   `JogController` beside the drive. The abort event is a predicate of the drive's state, so it may
--   be set at any time.
-- - Simulator: packages/cia402-dryve-d1/src/cia402_dryve_d1/simulator.py. Gateway and Server are the
--   parsing of a request and the answer to it, over any drive whose reads and writes may raise.
--   Drive is `FakeDriveState`: Controlword its state machine, Engine a round of its motion engine,
--   Objects `sdo_read` and `sdo_write`, Reachable the three in any order, with the emergency button.
--   A float of the engine is an exact number, its clock counts whole microseconds, and what
--   `int` cuts off is cut off here.
-- - Api: src/dryve_d1/api. Accessor is od_accessor.py over any session, which Accessor.Stored takes
--   to be the simulated gateway on a network that loses nothing. Stop, Home, Limits, Boundary, Move,
--   JogStart and JogCommands are the commands of motion_commands.py, Status the queries of
--   status_queries.py, where the abort event and the idle timer are parameters. IdleShutdown is
--   idle_shutdown.py: asyncio's loop is reduced to a timer that will fire, an action that runs and
--   one that was cancelled, which gets its exception before a later timer fires.
-- - Exchange: the driver and the simulator together: a telegram through the gateway and back, the
--   driver's state machine and its position limits on the simulated drive, whose objects
--   Exchange.Plant packs and unpacks as the accessor does, and the settings that it keeps (Kept).
-- - Tests: the theorems at concrete inputs, and runs of the code.
--
-- Bounds. A loop that waits for the drive is given a number of rounds; one more than the time limit
-- divided by the poll interval is enough. Reading `n` bytes takes at most `n + 1` rounds, since
-- each chunk has a byte. A call of the session has a round for each attempt allowed, or one. The
-- watchdog of a jog takes two rounds more than the intervals that cover the time to live. Times are
-- whole microseconds.
--
-- Not modelled: log lines and the texts of exceptions; the keepalive thread and the random part of
-- the retry delay; the telemetry; drive.py, which connects, reconnects and closes, and the web
-- service built on it; the configuration, which only reads settings; a cancelled task, other than
-- the watchdog that `close` cancels.
pub mod Base
pub mod Od
pub mod Io
pub mod Cia402
pub mod Protocol
pub mod Simulator
pub mod Exchange
pub mod Transport
pub mod Motion
pub mod Api
pub mod Tests
