-- ===== src/Tests/Codec.antt =====
-- src/dryve_d1/protocol/codec.py at concrete values and bytes.
use dryve_d.Base.{ℕ, ◌≡◌, refl, true, List, [], ◌∷◌, length, IsBytes, arith}
use dryve_d.Base.Int.{negsuc}
use dryve_d.Base.Errors.{ok}
use dryve_d.Protocol.Codec.{Endian, to_bytes, pack_int, unpack_int}
use dryve_d.Protocol.Codec.RoundTrip.{unpack-pack}

packed_bytes : pack_int (negsuc 1) 2 true Endian.little ≡ ok (0xFE ∷ 0xFF ∷ [])
unfolding pack_int to_bytes
packed_bytes = refl

unpack-pack_example :
    (bytes : List ℕ) × (pack_int (negsuc 1) 2 true Endian.little ≡ ok bytes)
    × (length bytes ≡ 2)
    × IsBytes bytes
    × (unpack_int bytes true Endian.little ≡ ok (negsuc 1))
unpack-pack_example =
    unpack-pack (negsuc 1) 2 true Endian.little (omega arith) (omega arith) (omega arith)
