-- ===== src/Od/Controlword.antt =====
-- src/dryve_d1/od/controlword.py. A controlword is a number that is not negative; the functions
-- work on words of any width, and the callers mask to 16 bits when they write.
pub mod Laws
use Prim.Native.Nat.{bit_or}
use dryve_d.Base.{ℕ, ◌^◌, Bool, List, [], ◌∷◌, if◌then◌else◌}
use dryve_d.Base.Bits.{and_not}

-- `CWBit`
pub data CwBit : Type 0 where
  switch_on enable_voltage quick_stop enable_operation : CwBit
  new_set_point change_set_immediately abs_rel fault_reset halt : CwBit

-- `int(CWBit.X)`
abbrev pub position : CwBit → ℕ
position CwBit.switch_on = 0
position CwBit.enable_voltage = 1
position CwBit.quick_stop = 2
position CwBit.enable_operation = 3
position CwBit.new_set_point = 4
position CwBit.change_set_immediately = 5
position CwBit.abs_rel = 6
position CwBit.fault_reset = 7
position CwBit.halt = 8

-- The loop of `_mask`, from the mask built so far.
unfoldable pub mask_from : ℕ → List CwBit → ℕ
mask_from m [] = m
mask_from m (b ∷ bits) = mask_from (bit_or m (2 ^ position b)) bits

-- `_mask`
unfoldable pub mask : List CwBit → ℕ
unfolding mask_from
mask bits = mask_from 0 bits

unfoldable pub cw_set_bits : ℕ → List CwBit → ℕ
unfolding mask
cw_set_bits word bits = bit_or word (mask bits)

unfoldable pub cw_clear_bits : ℕ → List CwBit → ℕ
unfolding mask
cw_clear_bits word bits = and_not word (mask bits)

unfoldable pub cw_with_bit : ℕ → CwBit → Bool → ℕ
unfolding cw_set_bits cw_clear_bits
cw_with_bit word bit enabled =
    if enabled then cw_set_bits word (bit ∷ []) else cw_clear_bits word (bit ∷ [])

abbrev pub cw_disable_voltage : ℕ
cw_disable_voltage = 0x0000

abbrev pub cw_shutdown : ℕ
cw_shutdown = 0x0006

abbrev pub cw_switch_on : ℕ
cw_switch_on = 0x0007

abbrev pub cw_enable_operation : ℕ
cw_enable_operation = 0x000F

-- The default base is `cw_enable_operation`.
unfoldable pub cw_quick_stop : ℕ → ℕ
unfolding cw_clear_bits
cw_quick_stop base = cw_clear_bits base (CwBit.quick_stop ∷ [])

abbrev pub cw_fault_reset : ℕ
cw_fault_reset = 0x0080

unfoldable pub cw_pulse_new_set_point : ℕ → ℕ × ℕ
unfolding cw_set_bits cw_clear_bits
cw_pulse_new_set_point base =
    let set_word = cw_set_bits base (CwBit.new_set_point ∷ []) in
    (set_word, cw_clear_bits set_word (CwBit.new_set_point ∷ []))
