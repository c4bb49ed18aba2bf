-- ===== src/Simulator/Drive/Objects.antt =====
-- `sdo_read` and `sdo_write` of the simulated drive.
pub mod Writes
pub mod Reads
use Prim.Native.Nat.{bit_and}
use dryve_d.Base.{
  ℕ, ◌+◌, ◌-◌, ◌*◌, ◌%◌, Bool, true, false, ◌&&◌, List, [], ◌∷◌, ◌++◌, length, take, replicate, leb,
  ltb, ◌==◌, if◌then◌else◌,
}
use dryve_d.Base.Int.{ℤ, pos, pos_part, low_byte}
use dryve_d.Base.Errors.{Result, ok, err, struct_error}
use dryve_d.Protocol.Codec.{Endian, pack_int, unpack_int}
use dryve_d.Simulator.Drive.{Stored, FakeDrive, clamp_to_soft_limits}
use dryve_d.Simulator.Drive.Controlword.{apply_controlword}
use dryve_d.Simulator.Statusword.{make_statusword}

-- An exception of the `struct` module.
abbrev pub as_struct {ℓ} : {A : Type ℓ} → Result A → Result A
as_struct (ok a) = ok a
as_struct (err e) = err struct_error

-- `struct.pack` of an integer in little-endian order; a value out of range is a `struct.error`.
abbrev pub struct_pack : ℕ → Bool → ℤ → Result (List ℕ)
struct_pack size signed value = as_struct (pack_int value size signed Endian.little)

-- `struct.unpack` of one integer; a wrong number of bytes is a `struct.error`.
abbrev pub struct_unpack : ℕ → Bool → List ℕ → Result ℤ
struct_unpack size signed bytes =
    if length bytes == size
    then as_struct (unpack_int bytes signed Endian.little)
    else err struct_error

-- `self._od.get((idx, subindex), bytes([0] * length))`
abbrev pub stored : ℕ → ℕ → ℕ → Stored → List ℕ
stored idx sub count [] = replicate count 0
stored idx sub count ((i, s, raw) ∷ od) =
    if i == idx && s == sub then raw else stored idx sub count od

-- Cut or padded to the length asked for.
abbrev pub sized : ℕ → List ℕ → List ℕ
sized count raw =
    if leb count (length raw) then take count raw else raw ++ replicate (count - length raw) 0

-- The settings, and behind them the objects that are only stored.
unfoldable pub read_settings : ℕ → ℕ → ℕ → FakeDrive → Result (List ℕ)
read_settings idx sub count d =
    if idx == 0x607A
    then struct_pack 4 true d.target_position
    else if idx == 0x6081
    then struct_pack 4 true d.profile_velocity
    else if idx == 0x6083
    then struct_pack 4 true d.acceleration
    else if idx == 0x6084
    then struct_pack 4 true d.deceleration
    else if idx == 0x60FF
    then struct_pack 4 true d.target_velocity
    else if idx == 0x6098
    then struct_pack 1 false (pos (low_byte d.homing_method))
    else if idx == 0x607B
    then struct_pack 4 true d.soft_limit_min
    else if idx == 0x607D
    then struct_pack 4 true d.soft_limit_max
    else ok (sized count (stored idx sub count d.od))

-- The objects in the order of the source; the reads of the mode mask to a byte and then pack it as
-- a signed one.
unfoldable pub read_object : ℕ → ℕ → ℕ → FakeDrive → Result (List ℕ)
unfolding read_settings
read_object idx sub count d =
    if idx == 0x6041
    then struct_pack 2 false (pos (make_statusword d))
    else if idx == 0x2014
    then struct_pack 2 false (pos (d.diag_code % 65536))
    else if idx == 0x6064
    then struct_pack 4 true d.position
    else if idx == 0x606C
    then struct_pack 4 true d.velocity
    else if idx == 0x6060
    then struct_pack 1 true (pos (low_byte d.op_mode))
    else if idx == 0x6061
    then struct_pack 1 true (pos (low_byte d.op_mode_display))
    else read_settings idx sub count d

unfoldable pub sdo_read : ℕ → ℕ → ℕ → ℕ → FakeDrive → Result (List ℕ)
unfolding read_object
sdo_read index_hi index_lo sub count d = read_object (index_hi * 256 + index_lo) sub count d

-- `raw[:n].ljust(n, b"\x00")`
abbrev pub padded : ℕ → List ℕ → List ℕ
padded n raw = let cut = take n raw in cut ++ replicate (n - length cut) 0

-- The assignment of a value that is unpacked first, which may raise.
abbrev pub assign : Result ℤ → (ℤ → FakeDrive) → FakeDrive → Result (Unit {0}) × FakeDrive
assign (ok value) f d = (ok tt, f value)
assign (err e) f d = (err e, d)

-- A signed value of four bytes, padded.
abbrev pub assign_i32 : List ℕ → (ℤ → FakeDrive) → FakeDrive → Result (Unit {0}) × FakeDrive
assign_i32 raw = assign (struct_unpack 4 true (padded 4 raw))

unfoldable pub write_object : ℕ → ℕ → List ℕ → FakeDrive → Result (Unit {0}) × FakeDrive
unfolding unpack_int
write_object now idx raw d =
    if idx == 0x6060
    then assign (struct_unpack 1 true (take 1 raw))
        (λ v. record d { op_mode = v; op_mode_display = v }) d
    else if idx == 0x607A
    then assign_i32 raw (λ v. record d { target_position = v }) d
    else if idx == 0x6081
    then assign_i32 raw (λ v. record d { profile_velocity = v }) d
    else if idx == 0x6083
    then assign_i32 raw (λ v. record d { acceleration = v }) d
    else if idx == 0x6084
    then assign_i32 raw (λ v. record d { deceleration = v }) d
    else if idx == 0x60FF
    then assign_i32 raw (λ v. record d { target_velocity = v }) d
    else if idx == 0x6098
    then assign (struct_unpack 1 false (take 1 raw)) (λ v. record d { homing_method = v }) d
    else if idx == 0x607B
    then assign_i32 raw (λ v. clamp_to_soft_limits (record d { soft_limit_min = v })) d
    else if idx == 0x607D
    then assign_i32 raw (λ v. clamp_to_soft_limits (record d { soft_limit_max = v })) d
    else if idx == 0x6040
    then assign (struct_unpack 2 false (padded 2 raw)) (λ v. apply_controlword now (pos_part v) d) d
    else (ok tt, d)

-- Every write is stored raw, and then given to its object. `now` is the clock at the write.
unfoldable pub sdo_write : ℕ → ℕ → ℕ → ℕ → List ℕ → FakeDrive → Result (Unit {0}) × FakeDrive
unfolding write_object
sdo_write now index_hi index_lo sub raw d =
    let idx = index_hi * 256 + index_lo in
    write_object now idx raw (record d { od = (idx, sub, raw) ∷ d.od })
