-- ===== src/Protocol/Codec/RoundTrip.antt =====
-- `pack_int` and `unpack_int`, at each width, sign and byte order.
use dryve_d.Base.{
  ℕ, zero, suc, ◌-◌, ◌*◌, ◌/◌, ◌^◌, ◌≤◌, ◌<◌, ◌≡◌, ap, ◌∙◌, Bool, true, false, List, length,
  IsBytes, arith, dec_lt, ◌&&◌, if◌then◌else◌,
}
use dryve_d.Base.Bits.{test_bit}
use dryve_d.Base.Int.{ℤ, pos, negsuc, ◌≤ℤ◌, sub_ℕ}
use dryve_d.Base.Errors.{ok, err, value_error}
use dryve_d.Protocol.Codec.{Endian, to_bytes, from_bytes, unsigned_of, pack_int, unpack_int}
use dryve_d.Protocol.Codec.Bytes.{
  length-to_bytes, to_bytes-IsBytes, from_bytes-to_bytes, to_bytes-from_bytes, from_bytes-lt,
}

-- The integers that `size` bytes hold: 256 ^ size of them, half of them negative if signed.
abbrev pub Fits : ℤ → ℕ → Bool → Type 0
Fits value size true = (negsuc (256 ^ size / 2 - 1) ≤ℤ value) × (value ≤ℤ pos (256 ^ size / 2 - 1))
Fits value size false = (pos 0 ≤ℤ value) × (value ≤ℤ pos (256 ^ size - 1))

-- A property of the four supported widths holds of each supported width.
abbrev pub by_width {ℓ} :
    (P : ℕ → Type ℓ) → P 1 → P 2 → P 3 → P 4 → (size : ℕ) → 1 ≤ size → size ≤ 4 → P size
by_width P p1 p2 p3 p4 zero lo hi = absurd (omega arith)
by_width P p1 p2 p3 p4 (suc zero) lo hi = p1
by_width P p1 p2 p3 p4 (suc (suc zero)) lo hi = p2
by_width P p1 p2 p3 p4 (suc (suc (suc zero))) lo hi = p3
by_width P p1 p2 p3 p4 (suc (suc (suc (suc zero)))) lo hi = p4
by_width P p1 p2 p3 p4 (suc (suc (suc (suc (suc k))))) lo hi = absurd (omega arith)

abbrev Packs : Bool → Endian → ℤ → ℕ → Type 0
Packs signed endian value size =
    Fits value size signed
    → pack_int value size signed endian ≡ ok (to_bytes size endian (unsigned_of value size signed))

packs :
    (signed : Bool) (endian : Endian) (value : ℤ) (size : ℕ)
    → 1 ≤ size
    → size ≤ 4
    → Packs signed endian value size
unfolding pack_int
packs true e (pos n) =
    by_width _ (λ h. ground arith) (λ h. ground arith) (λ h. ground arith) (λ h. ground arith)
packs true e (negsuc n) =
    by_width _ (λ h. ground arith) (λ h. ground arith) (λ h. ground arith) (λ h. ground arith)
packs false e (pos n) =
    by_width _ (λ h. ground arith) (λ h. ground arith) (λ h. ground arith) (λ h. ground arith)
packs false e (negsuc n) =
    by_width _ (λ h. ground arith) (λ h. ground arith) (λ h. ground arith) (λ h. ground arith)

abbrev Small : Bool → ℤ → ℕ → Type 0
Small signed value size = Fits value size signed → unsigned_of value size signed < 256 ^ size

small : (signed : Bool) (value : ℤ) (size : ℕ) → 1 ≤ size → size ≤ 4 → Small signed value size
small true (pos n) =
    by_width _ (λ h. ground arith) (λ h. ground arith) (λ h. ground arith) (λ h. ground arith)
small true (negsuc n) =
    by_width _ (λ h. ground arith) (λ h. ground arith) (λ h. ground arith) (λ h. ground arith)
small false (pos n) =
    by_width _ (λ h. ground arith) (λ h. ground arith) (λ h. ground arith) (λ h. ground arith)
small false (negsuc n) =
    by_width _ (λ h. ground arith) (λ h. ground arith) (λ h. ground arith) (λ h. ground arith)

-- The value that `unpack_int` makes of the unsigned number `u` of `size` bytes.
abbrev value_of : Bool → ℕ → ℕ → ℤ
value_of signed size u =
    if signed && test_bit u (size * 8 - 1) then sub_ℕ u (2 ^ (size * 8)) else pos u

abbrev Reads : Bool → ℤ → ℕ → Type 0
Reads signed value size =
    Fits value size signed → value_of signed size (unsigned_of value size signed) ≡ value

reads : (signed : Bool) (value : ℤ) (size : ℕ) → 1 ≤ size → size ≤ 4 → Reads signed value size
reads true (pos n) =
    by_width _ (λ h. ground arith) (λ h. ground arith) (λ h. ground arith) (λ h. ground arith)
reads true (negsuc n) =
    by_width _ (λ h. ground arith) (λ h. ground arith) (λ h. ground arith) (λ h. ground arith)
reads false (pos n) =
    by_width _ (λ h. ground arith) (λ h. ground arith) (λ h. ground arith) (λ h. ground arith)
reads false (negsuc n) =
    by_width _ (λ h. ground arith) (λ h. ground arith) (λ h. ground arith) (λ h. ground arith)

unpack-eq-value_of :
    (bytes : List ℕ) (signed : Bool) (endian : Endian)
    → 1 ≤ length bytes
    → length bytes ≤ 4
    → unpack_int bytes signed endian ≡ ok (value_of signed (length bytes) (from_bytes endian bytes))
unfolding unpack_int
unpack-eq-value_of bytes signed endian lo hi = ground arith

-- A value that fits one to four bytes is packed into exactly that many bytes, and unpacking these
-- with the same sign and byte order gives the value back.
pub unpack-pack :
    (value : ℤ) (size : ℕ) (signed : Bool) (endian : Endian)
    → 1 ≤ size
    → size ≤ 4
    → Fits value size signed
    → (bytes : List ℕ) × (pack_int value size signed endian ≡ ok bytes)
      × (length bytes ≡ size)
      × IsBytes bytes
      × (unpack_int bytes signed endian ≡ ok value)
unpack-pack value size signed endian lo hi fits =
    let u : ℕ = unsigned_of value size signed in
    let bytes : List ℕ = to_bytes size endian u in
    let len : length bytes ≡ size = length-to_bytes size endian u in
    (
      bytes,
      packs signed endian value size lo hi fits,
      len,
      to_bytes-IsBytes size endian u,
      unpack-eq-value_of bytes signed endian (rw len lo) (rw len hi)
          ∙ ap (λ k. ok (value_of signed k (from_bytes endian bytes))) len
          ∙ ap (λ v. ok (value_of signed size v))
              (from_bytes-to_bytes size endian u (small signed value size lo hi fits))
          ∙ ap ok (reads signed value size lo hi fits),
    )

abbrev Inverts : Bool → ℕ → ℕ → Type 0
Inverts signed u size =
    u < 256 ^ size
    → Fits (value_of signed size u) size signed
      × (unsigned_of (value_of signed size u) size signed ≡ u)

inverts : (signed : Bool) (u size : ℕ) → 1 ≤ size → size ≤ 4 → Inverts signed u size
inverts true u =
    by_width _ (λ h. ground arith) (λ h. ground arith) (λ h. ground arith) (λ h. ground arith)
inverts false u =
    by_width _ (λ h. ground arith) (λ h. ground arith) (λ h. ground arith) (λ h. ground arith)

-- Any one to four bytes are unpacked to a value that fits their number, and packing it again gives
-- the same bytes.
pub pack-unpack :
    (bytes : List ℕ) (signed : Bool) (endian : Endian)
    → IsBytes bytes
    → 1 ≤ length bytes
    → length bytes ≤ 4
    → (value : ℤ) × (unpack_int bytes signed endian ≡ ok value)
      × Fits value (length bytes) signed
      × (pack_int value (length bytes) signed endian ≡ ok bytes)
pack-unpack bytes signed endian h lo hi =
    let u : ℕ = from_bytes endian bytes in
    let value : ℤ = value_of signed (length bytes) u in
    let (fits, back) = inverts signed u (length bytes) lo hi (from_bytes-lt endian bytes h) in
    (
      value,
      unpack-eq-value_of bytes signed endian lo hi,
      fits,
      packs signed endian value (length bytes) lo hi fits
          ∙ ap (λ v. ok (to_bytes (length bytes) endian v)) back
          ∙ ap ok (to_bytes-from_bytes endian bytes h),
    )

abbrev Rejects : Bool → Endian → ℤ → ℕ → Type 0
Rejects signed endian value size =
    ¬ (Fits value size signed) → pack_int value size signed endian ≡ err value_error

rejects :
    (signed : Bool) (endian : Endian) (value : ℤ) (size : ℕ)
    → 1 ≤ size
    → size ≤ 4
    → Rejects signed endian value size
unfolding pack_int
rejects true e (pos n) =
    by_width _ (λ h. ground arith) (λ h. ground arith) (λ h. ground arith) (λ h. ground arith)
rejects true e (negsuc n) =
    by_width _ (λ h. ground arith) (λ h. ground arith) (λ h. ground arith) (λ h. ground arith)
rejects false e (pos n) =
    by_width _ (λ h. ground arith) (λ h. ground arith) (λ h. ground arith) (λ h. ground arith)
rejects false e (negsuc n) =
    by_width _ (λ h. ground arith) (λ h. ground arith) (λ h. ground arith) (λ h. ground arith)

-- A value that does not fit, or an unsupported width, is a ValueError and never truncated.
pub pack_rejects :
    (value : ℤ) (size : ℕ) (signed : Bool) (endian : Endian)
    → ¬ ((1 ≤ size) × (size ≤ 4) × Fits value size signed)
    → pack_int value size signed endian ≡ err value_error
unfolding pack_int
pack_rejects value size signed endian h = elim (dec_lt size 1) [
  | yes none_left ↦ ground arith
  | no some_left ↦ elim (dec_lt 4 size) [
    | yes too_wide ↦ ground arith
    | no narrow ↦
        rejects signed endian value size (omega arith) (omega arith)
          (λ fits. h (omega arith, omega arith, fits))
  ]
]
