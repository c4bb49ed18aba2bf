-- ===== src/Protocol/Codec.antt =====
-- src/dryve_d1/protocol/codec.py. Python's `int.to_bytes` and `int.from_bytes` are the two loops
-- over bytes below, lowest byte first, reversed for big-endian order.
pub mod Bytes
pub mod RoundTrip
use dryve_d.Base.{
  ℕ, zero, suc, ◌+◌, ◌-◌, ◌*◌, ◌/◌, ◌%◌, ◌^◌, Bool, true, false, ◌&&◌, ◌||◌, not, List, [], ◌∷◌,
  reverse, length, ◌==◌, is_1_to_4, if◌then◌else◌,
}
use dryve_d.Base.Bits.{test_bit}
use dryve_d.Base.Int.{ℤ, pos, negsuc, sub_ℕ, pos_part, neg_part, ltb_ℤ}
use dryve_d.Base.Errors.{Result, ok, err, value_error, guard, ◌>>=◌, ◌>>◌}

-- `Endian`: "<" and ">".
pub data Endian : Type 0 where
  little big : Endian

-- `_range_for`
unfoldable pub range_for : ℕ → Bool → Result (ℤ × ℤ)
range_for size signed = do
  guard (is_1_to_4 size) value_error
  let bits = size * 8
  ok (
      if signed
      then (negsuc (2 ^ (bits - 1) - 1), pos (2 ^ (bits - 1) - 1))
      else (pos 0, pos (2 ^ bits - 1)))

-- `n.to_bytes(k, "little", signed=False)`, for n below 256 ^ k.
unfoldable pub to_bytes_le : ℕ → ℕ → List ℕ
to_bytes_le zero n = []
to_bytes_le (suc k) n = (n % 256) ∷ to_bytes_le k (n / 256)

unfoldable pub to_bytes : ℕ → Endian → ℕ → List ℕ
unfolding to_bytes_le
to_bytes k Endian.little n = to_bytes_le k n
to_bytes k Endian.big n = reverse (to_bytes_le k n)

-- `int.from_bytes(data, "little", signed=False)`.
unfoldable pub from_bytes_le : List ℕ → ℕ
from_bytes_le [] = 0
from_bytes_le (b ∷ bs) = b + 256 * from_bytes_le bs

unfoldable pub from_bytes : Endian → List ℕ → ℕ
unfolding from_bytes_le
from_bytes Endian.little bs = from_bytes_le bs
from_bytes Endian.big bs = from_bytes_le (reverse bs)

-- The number whose bytes `pack_int` writes: two's complement for a negative value.
abbrev pub unsigned_of : ℤ → ℕ → Bool → ℕ
unsigned_of value size signed =
    if signed && ltb_ℤ value (pos 0) then 2 ^ (size * 8) - neg_part value else pos_part value

-- The type test on `value` is Python's; here the value is an integer.
unfoldable pub pack_int : ℤ → ℕ → Bool → Endian → Result (List ℕ)
unfolding range_for
pack_int value size signed endian = do
  (lo, hi) ← range_for size signed
  guard (not (ltb_ℤ value lo || ltb_ℤ hi value)) value_error
  ok (to_bytes size endian (unsigned_of value size signed))

unfoldable pub unpack_int : List ℕ → Bool → Endian → Result ℤ
unpack_int bytes signed endian = do
  let size = length bytes
  guard (is_1_to_4 size) value_error
  let unsigned = from_bytes endian bytes
  ok (
      if signed && test_bit unsigned (size * 8 - 1)
      then sub_ℕ unsigned (2 ^ (size * 8))
      else pos unsigned)

unfoldable pub pack_u16_le : ℤ → Result (List ℕ)
unfolding pack_int
pack_u16_le value = pack_int value 2 false Endian.little

unfoldable pub unpack_u16_le : List ℕ → Result ℤ
unfolding unpack_int
unpack_u16_le bytes = do guard (length bytes == 2) value_error; unpack_int bytes false Endian.little

unfoldable pub pack_i32_le : ℤ → Result (List ℕ)
unfolding pack_int
pack_i32_le value = pack_int value 4 true Endian.little

unfoldable pub unpack_i32_le : List ℕ → Result ℤ
unfolding unpack_int
unpack_i32_le bytes = do guard (length bytes == 4) value_error; unpack_int bytes true Endian.little
