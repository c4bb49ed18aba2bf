-- ===== src/Cia402/Preconditions.antt =====
-- src/dryve_d1/cia402/dominance.py.
use dryve_d.Base.{ℕ, not}
use dryve_d.Base.Errors.{Result, guard, precondition_failed}
use dryve_d.Cia402.Bits.{bit_is_set}
use dryve_d.Od.Statusword.{SwBit, position}

unfoldable pub require_remote_enabled : ℕ → Result (Unit {0})
require_remote_enabled statusword =
    guard (bit_is_set statusword (position SwBit.remote)) precondition_failed

unfoldable pub require_not_in_fault : ℕ → Result (Unit {0})
require_not_in_fault statusword =
    guard (not (bit_is_set statusword (position SwBit.fault))) precondition_failed

unfoldable pub require_operation_enabled : ℕ → Result (Unit {0})
require_operation_enabled statusword =
    guard (bit_is_set statusword (position SwBit.operation_enabled)) precondition_failed
