-- ===== src/Exchange/Kept.antt =====
-- Objects of the simulated drive that keep what is written to them: the settings of 32 bits that have
-- no other effect.
use dryve_d.Base.{ℕ, ◌≡◌, ap, subst, true, List, ◌∷◌, length, IsBytes, arith}
use dryve_d.Base.Int.{ℤ}
use dryve_d.Base.Errors.{ok}
use dryve_d.Protocol.Codec.{Endian, pack_int}
use dryve_d.Protocol.Codec.RoundTrip.{pack-unpack}
use dryve_d.Simulator.Gateway.{Strictness}
use dryve_d.Simulator.Drive.{FakeDrive}
use dryve_d.Simulator.Drive.Objects.{
  as_struct, struct_pack, struct_unpack, padded, assign, sdo_read, sdo_write, read_object,
  read_settings, write_object,
}
use dryve_d.Api.Accessor.{Link}
use dryve_d.Api.Accessor.Stored.{Keeps, Simulated, simulated_link}
use dryve_d.Exchange.Limits.{struct_unpack-padded}

pub data IsSetting : ℕ → Type 0 where
  is_target_position : IsSetting 0x607A
  is_profile_velocity : IsSetting 0x6081
  is_acceleration : IsSetting 0x6083
  is_deceleration : IsSetting 0x6084
  is_target_velocity : IsSetting 0x60FF

-- Four bytes, unpacked and packed again.
repacked :
    (bytes : List ℕ)
    → length bytes ≡ 4
    → IsBytes bytes
    → (v : ℤ) × (struct_unpack 4 true (padded 4 bytes) ≡ ok v) × (struct_pack 4 true v ≡ ok bytes)
repacked bytes len b =
    let (v, unpacked, _, packed) =
      pack-unpack bytes true Endian.little b (omega (arith, len)) (omega (arith, len)) in
    (
      v,
      struct_unpack-padded bytes v len unpacked,
      ap as_struct (subst (λ n. pack_int v n true Endian.little ≡ ok bytes) len packed),
    )

pub IsSetting-Keeps :
    (strict : Strictness) (now : ℕ) {index : ℕ} (sub : ℕ)
    → IsSetting index
    → Keeps sdo_read (sdo_write now) strict index sub 4
unfolding sdo_read sdo_write read_object read_settings write_object
IsSetting-Keeps strict now sub is_target_position bytes s len b =
    let (v, read, packed) = repacked bytes len b in
    let d : FakeDrive = record s { od = (0x607A, sub, bytes) ∷ s.od } in
    (
      record d { target_position = v },
      ap (λ r. assign r (λ x. record d { target_position = x }) d) read,
      packed,
    )
IsSetting-Keeps strict now sub is_profile_velocity bytes s len b =
    let (v, read, packed) = repacked bytes len b in
    let d : FakeDrive = record s { od = (0x6081, sub, bytes) ∷ s.od } in
    (
      record d { profile_velocity = v },
      ap (λ r. assign r (λ x. record d { profile_velocity = x }) d) read,
      packed,
    )
IsSetting-Keeps strict now sub is_acceleration bytes s len b =
    let (v, read, packed) = repacked bytes len b in
    let d : FakeDrive = record s { od = (0x6083, sub, bytes) ∷ s.od } in
    (
      record d { acceleration = v },
      ap (λ r. assign r (λ x. record d { acceleration = x }) d) read,
      packed,
    )
IsSetting-Keeps strict now sub is_deceleration bytes s len b =
    let (v, read, packed) = repacked bytes len b in
    let d : FakeDrive = record s { od = (0x6084, sub, bytes) ∷ s.od } in
    (
      record d { deceleration = v },
      ap (λ r. assign r (λ x. record d { deceleration = x }) d) read,
      packed,
    )
IsSetting-Keeps strict now sub is_target_velocity bytes s len b =
    let (v, read, packed) = repacked bytes len b in
    let d : FakeDrive = record s { od = (0x60FF, sub, bytes) ∷ s.od } in
    (
      record d { target_velocity = v },
      ap (λ r. assign r (λ x. record d { target_velocity = x }) d) read,
      packed,
    )

-- The session with the simulated drive, at a time of its clock.
abbrev pub simulated_drive : Strictness → ℕ → Link (Simulated FakeDrive)
simulated_drive strict time = simulated_link sdo_read (sdo_write time) strict
