-- ===== src/Od/Types.antt =====
-- src/dryve_d1/od/types.py. The formats of Python's `struct` are the two's complement numbers of one,
-- two and four bytes; it refuses a value that does not fit.
pub mod Clamp
use dryve_d.Base.{
  ℕ, ◌+◌, ◌-◌, ◌*◌, ◌^◌, Bool, true, false, not, ◌||◌, List, length, ◌==◌, if◌then◌else◌,
}
use dryve_d.Base.Int.{ℤ, pos, negsuc, ltb_ℤ, sub_ℕ}
use dryve_d.Base.Errors.{Result, ok, err, value_error, guard, ◌>>=◌, ◌>>◌}
use dryve_d.Protocol.Codec.{Endian, to_bytes, unsigned_of, unpack_int}

-- The descriptors of the module.
pub data OdType : Type 0 where
  int8 uint8 int16 uint16 int32 uint32 : OdType

abbrev pub size : OdType → ℕ
size OdType.int8 = 1
size OdType.uint8 = 1
size OdType.int16 = 2
size OdType.uint16 = 2
size OdType.int32 = 4
size OdType.uint32 = 4

abbrev pub signed : OdType → Bool
signed OdType.int8 = true
signed OdType.uint8 = false
signed OdType.int16 = true
signed OdType.uint16 = false
signed OdType.int32 = true
signed OdType.uint32 = false

-- `range`
unfoldable pub range : OdType → ℤ × ℤ
range t =
    let bits = size t * 8 in
    if signed t
    then (negsuc (2 ^ (bits - 1) - 1), pos (2 ^ (bits - 1) - 1))
    else (pos 0, pos (2 ^ bits - 1))

unfoldable pub clamp : OdType → ℤ → ℤ
unfolding range
clamp t value =
    let (lo, hi) = range t in if ltb_ℤ value lo then lo else if ltb_ℤ hi value then hi else value

unfoldable pub pack : OdType → ℤ → Endian → Result (List ℕ)
unfolding range
pack t value endian = do
  guard (not (ltb_ℤ value (range t).0 || ltb_ℤ (range t).1 value)) value_error
  ok (to_bytes (size t) endian (unsigned_of value (size t) (signed t)))
