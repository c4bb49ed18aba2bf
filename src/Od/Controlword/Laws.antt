-- ===== src/Od/Controlword/Laws.antt =====
-- What the controlword helpers do to every single bit of the word.
use Prim.Native.Nat.{bit_or}
use dryve_d.Base.{
  ℕ, ◌^◌, ◌≡◌, ap, ◌∙◌, Bool, true, false, not, ◌&&◌, ◌||◌, List, [], ◌∷◌, arith, ◌==◌,
  if◌then◌else◌,
}
use dryve_d.Base.Bits.{test_bit, test_bit-or, test_bit-and_not, test_bit-pow, test_bit-zero}
use dryve_d.Od.Controlword.{
  CwBit, position, mask_from, mask, cw_set_bits, cw_clear_bits, cw_with_bit, cw_quick_stop,
  cw_pulse_new_set_point,
}

-- The bit position `k` is named by the list.
abbrev pub names : ℕ → List CwBit → Bool
names k [] = false
names k (b ∷ bits) = position b == k || names k bits

mask_from-bit :
    (m k : ℕ) (bits : List CwBit) → test_bit (mask_from m bits) k ≡ (test_bit m k || names k bits)
unfolding mask_from
mask_from-bit m k [] = ground arith
mask_from-bit m k (b ∷ bits) = ground (
  arith,
  mask_from-bit (bit_or m (2 ^ position b)) k bits,
  test_bit-or m (2 ^ position b) k,
  test_bit-pow (position b) k,
)

pub mask-bit : (k : ℕ) (bits : List CwBit) → test_bit (mask bits) k ≡ names k bits
unfolding mask
mask-bit k bits = mask_from-bit 0 k bits ∙ ap (λ t. t || names k bits) (test_bit-zero k)

-- `cw_set_bits` sets the bits it is given, whatever the word was, and keeps all others.
pub cw_set_bits-bit :
    (word k : ℕ) (bits : List CwBit)
    → test_bit (cw_set_bits word bits) k ≡ (test_bit word k || names k bits)
unfolding cw_set_bits
cw_set_bits-bit word k bits =
    test_bit-or word (mask bits) k ∙ ap (λ t. test_bit word k || t) (mask-bit k bits)

-- `cw_clear_bits` clears the bits it is given, whatever the word was, and keeps all others.
pub cw_clear_bits-bit :
    (word k : ℕ) (bits : List CwBit)
    → test_bit (cw_clear_bits word bits) k ≡ (test_bit word k && not (names k bits))
unfolding cw_clear_bits
cw_clear_bits-bit word k bits =
    test_bit-and_not word (mask bits) k ∙ ap (λ t. test_bit word k && not t) (mask-bit k bits)

-- `cw_with_bit` gives the bit the value asked for and keeps every other bit.
pub cw_with_bit-bit :
    (word k : ℕ) (bit : CwBit) (enabled : Bool)
    → test_bit (cw_with_bit word bit enabled) k
      ≡ (if position bit == k then enabled else test_bit word k)
unfolding cw_with_bit
cw_with_bit-bit word k bit true = cw_set_bits-bit word k (bit ∷ []) ∙ ground arith
cw_with_bit-bit word k bit false = cw_clear_bits-bit word k (bit ∷ []) ∙ ground arith

-- The two words of a set-point pulse make a rising and a falling edge on bit 4, and agree with
-- the base word on every other bit.
pub cw_pulse-edge :
    (base k : ℕ)
    → let (set_word, clear_word) = cw_pulse_new_set_point base in
      (test_bit set_word k ≡ (if k == 4 then true else test_bit base k))
      × (test_bit clear_word k ≡ (if k == 4 then false else test_bit base k))
unfolding cw_pulse_new_set_point
cw_pulse-edge base k =
    let bits : List CwBit = CwBit.new_set_point ∷ [] in
    ground (arith, cw_set_bits-bit base k bits, cw_clear_bits-bit (cw_set_bits base bits) k bits)

-- A quick stop clears bit 2 and keeps every other bit of the base word.
pub cw_quick_stop-bit :
    (base k : ℕ) → test_bit (cw_quick_stop base) k ≡ (if k == 2 then false else test_bit base k)
unfolding cw_quick_stop
cw_quick_stop-bit base k = cw_clear_bits-bit base k (CwBit.quick_stop ∷ []) ∙ ground arith
