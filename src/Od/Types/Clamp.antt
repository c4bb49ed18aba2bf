-- ===== src/Od/Types/Clamp.antt =====
-- `pack` and `clamp` of the descriptors, beside the codec of the protocol.
use dryve_d.Base.{◌≡◌, ◌⊎◌, refl, false, ◌||◌, arith, if◌then◌else◌}
use dryve_d.Base.Int.{ℤ, ltb_ℤ, ◌≤ℤ◌}
use dryve_d.Base.Errors.{ok}
use dryve_d.Protocol.Codec.{Endian, pack_int, range_for, to_bytes, unsigned_of}
use dryve_d.Od.Types.{OdType, size, signed, range, clamp, pack}

-- The descriptors and the codec of the protocol give the same bytes, and refuse the same values.
pub pack-eq-pack_int :
    (t : OdType) (value : ℤ) (endian : Endian)
    → pack t value endian ≡ pack_int value (size t) (signed t) endian
unfolding pack pack_int range range_for
pack-eq-pack_int OdType.int8 value endian = refl
pack-eq-pack_int OdType.uint8 value endian = refl
pack-eq-pack_int OdType.int16 value endian = refl
pack-eq-pack_int OdType.uint16 value endian = refl
pack-eq-pack_int OdType.int32 value endian = refl
pack-eq-pack_int OdType.uint32 value endian = refl

between :
    (lo hi value : ℤ)
    → lo ≤ℤ hi
    → let c = (if ltb_ℤ value lo then lo else if ltb_ℤ hi value then hi else value) in
      (ltb_ℤ c lo || ltb_ℤ hi c) ≡ false
between lo hi value h = ground arith

range-ordered : (t : OdType) → (range t).0 ≤ℤ (range t).1
unfolding range
range-ordered OdType.int8 = omega arith
range-ordered OdType.uint8 = omega arith
range-ordered OdType.int16 = omega arith
range-ordered OdType.uint16 = omega arith
range-ordered OdType.int32 = omega arith
range-ordered OdType.uint32 = omega arith

clamp-fits :
    (t : OdType) (value : ℤ)
    → (ltb_ℤ (clamp t value) (range t).0 || ltb_ℤ (range t).1 (clamp t value)) ≡ false
unfolding clamp
clamp-fits t value = between (range t).0 (range t).1 value (range-ordered t)

between_both :
    (lo hi value y : ℤ)
    → lo ≤ℤ y
    → y ≤ℤ hi
    → let c = (if ltb_ℤ value lo then lo else if ltb_ℤ hi value then hi else value) in
      ((value ≤ℤ c) × (c ≤ℤ y)) ⊎ ((y ≤ℤ c) × (c ≤ℤ value))
between_both lo hi value y l h = ground arith

-- For every value and every integer `y` of the type's range: the clamped value is packed, and it
-- lies between the value and `y`, both included. So it is the integer of the range next to the
-- value.
pub clamp-nearest :
    (t : OdType) (value y : ℤ) (endian : Endian)
    → (range t).0 ≤ℤ y
    → y ≤ℤ (range t).1
    → let c = clamp t value in
      (pack t c endian ≡ ok (to_bytes (size t) endian (unsigned_of c (size t) (signed t))))
      × (((value ≤ℤ c) × (c ≤ℤ y)) ⊎ ((y ≤ℤ c) × (c ≤ℤ value)))
unfolding pack clamp
clamp-nearest t value y endian l h =
    (rw (clamp-fits t value) refl, between_both (range t).0 (range t).1 value y l h)
