-- ===== src/Cia402/Bits.antt =====
-- src/dryve_d1/cia402/bits.py.
use dryve_d.Base.{ℕ, ◌%◌, Bool}
use dryve_d.Base.Bits.{test_bit}

-- `bool(((int(word) & 0xFFFF) >> int(bit)) & 1)`
unfoldable pub bit_is_set : ℕ → ℕ → Bool
bit_is_set word bit = test_bit (word % 65536) bit
