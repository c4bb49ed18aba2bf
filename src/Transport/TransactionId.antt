-- ===== src/Transport/TransactionId.antt =====
-- src/dryve_d1/transport/session.py: `TransactionIdGenerator`, for a start that is not negative. Its
-- lock makes each method one step.
pub mod Cycle
use dryve_d.Base.{ℕ, zero, suc, ◌+◌, ◌%◌, ◌≤◌, ◌==◌, if◌then◌else◌}

-- `_max` and `_next`
pub record Generator : Type 0 where
  pub max_value : ℕ
  pub next_id : ℕ

-- `value or 1`
abbrev pub or_one : ℕ → ℕ
or_one value = if value == 0 then 1 else value

-- `__init__`
unfoldable pub new : ℕ → ℕ → Generator
new start max_value = record { max_value = max_value; next_id = or_one (start % suc max_value) }

-- `next`
unfoldable pub next : Generator → ℕ × Generator
next g = (g.next_id, record g { next_id = or_one (suc g.next_id % suc g.max_value) })

-- `align`
unfoldable pub align : ℕ → Generator → Generator
align next_value g = record g { next_id = or_one (next_value % suc g.max_value) }
