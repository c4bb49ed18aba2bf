-- ===== src/Exchange/Limits.antt =====
-- The driver's `set_position_limits` and `get_position_limits` with the simulated drive, which keeps
-- one number under 0x607B whatever the subindex.
use dryve_d.Base.{ℕ, ◌≡◌, refl, ap, ◌∙◌, true, false, some, List, [], ◌∷◌, ◌++◌, length, arith}
use dryve_d.Base.Int.{ℤ, ◌≤ℤ◌, leb_ℤ}
use dryve_d.Base.Errors.{Result, ok, value_error, runtime_error}
use dryve_d.Protocol.Codec.{Endian, unpack_int}
use dryve_d.Protocol.Codec.RoundTrip.{Fits, unpack-pack}
use dryve_d.Simulator.Drive.{FakeDrive, clamp_to_soft_limits}
use dryve_d.Simulator.Drive.Objects.{
  as_struct, struct_unpack, padded, assign, sdo_read, sdo_write, read_object, write_object,
  read_settings,
}
use dryve_d.Io.{World, Sent, raise_if, write_i32, read_i32}
use dryve_d.Exchange.Plant.{Simulation, simulation, unpacked, read_value, written, write_value}
use dryve_d.Exchange.Words.{bind-ok}
use dryve_d.Api.Status.{set_position_limits, get_position_limits}

-- A limit that was written.
abbrev pub limit : ℤ → ℕ → Sent
limit v sub = record { index = 0x607B; value = v; subindex = sub }

pub struct_unpack-padded :
    (bytes : List ℕ) (v : ℤ)
    → length bytes ≡ 4
    → unpack_int bytes true Endian.little ≡ ok v
    → struct_unpack 4 true (padded 4 bytes) ≡ ok v
struct_unpack-padded [] v len back = absurd (omega arith)
struct_unpack-padded (a ∷ []) v len back = absurd (omega arith)
struct_unpack-padded (a ∷ b ∷ []) v len back = absurd (omega arith)
struct_unpack-padded (a ∷ b ∷ c ∷ []) v len back = absurd (omega arith)
struct_unpack-padded (a ∷ b ∷ c ∷ d ∷ []) v len back = ap as_struct back
struct_unpack-padded (a ∷ b ∷ c ∷ d ∷ e ∷ rest) v len back = absurd (omega arith)

-- A write under any subindex sets the lower limit.
abbrev Lowered : ℤ → Simulation → Simulation → Type 0
Lowered v s u = (u.0.soft_limit_min ≡ v) × (u.0.soft_limit_max ≡ s.0.soft_limit_max)

write-Lowered :
    (v : ℤ) (sub : ℕ) (s : Simulation)
    → Fits v 4 true
    → (u : Simulation) × (write_value 4 true 0x607B v sub s ≡ (ok tt, u)) × Lowered v s u
unfolding sdo_write write_object
write-Lowered v sub s fits =
    let (bytes, packed, len, _, back) =
      unpack-pack v 4 true Endian.little (omega arith) (omega arith) fits in
    let d : FakeDrive = record s.0 { od = (0x607B, sub, bytes) ∷ s.0.od } in
    (
      (clamp_to_soft_limits (record d { soft_limit_min = v }), s.1),
      ap (λ r. written r 0x607B sub s) packed
          ∙ ap
              (λ r.
                let (x, y) =
                  assign r (λ x. clamp_to_soft_limits (record d { soft_limit_min = x })) d in
                (x, (y, s.1)))
              (struct_unpack-padded bytes v len back),
      (refl, refl),
    )

read-lower :
    (sub : ℕ) (s : Simulation)
    → Fits s.0.soft_limit_min 4 true
    → read_value 4 true 0x607B sub s ≡ (ok s.0.soft_limit_min, s)
unfolding sdo_read read_object read_settings
read-lower sub s fits =
    let (bytes, packed, _, _, back) =
      unpack-pack s.0.soft_limit_min 4 true Endian.little (omega arith) (omega arith) fits in
    ap (λ r. (unpacked true (as_struct r), s)) packed ∙ ap (λ r. (r, s)) back

-- The world after a write of the object.
write-limit :
    (v : ℤ) (sub : ℕ) (w : World Simulation)
    → Fits v 4 true
    → (u : World Simulation) × (write_i32 simulation 0x607B v sub w ≡ some (ok tt, u))
      × Lowered v w.plant u.plant
      × (u.sent ≡ w.sent ++ (limit v sub ∷ []))
write-limit v sub w fits =
    let (s, done, lowered) = write-Lowered v sub w.plant fits in
    (
      record { plant = s; sent = w.sent ++ (limit v sub ∷ []) },
      ap
          (λ (r : Result (Unit {0}) × Simulation).
            some (r.0, record { plant = r.1; sent = w.sent ++ (limit v sub ∷ []) }))
          done,
      lowered,
      refl,
    )

read-limit :
    (sub : ℕ) (w : World Simulation)
    → Fits w.plant.0.soft_limit_min 4 true
    → read_i32 simulation 0x607B sub w ≡ some (ok w.plant.0.soft_limit_min, w)
read-limit sub w fits =
    ap (λ (r : Result ℤ × Simulation). some (r.0, record w { plant = r.1 }))
      (read-lower sub w.plant fits)

-- With the simulated drive `set_position_limits` returns for every two limits of 32 bits in order,
-- after the two writes of them under the subindices 1 and 2. The lower limit of the drive is then
-- the upper limit that was asked for, the upper limit of the drive is what it was, and
-- `get_position_limits` returns the upper limit that was asked for, twice.
pub get_position_limits-set_position_limits :
    (low high : ℤ) (w : World Simulation)
    → Fits low 4 true
    → Fits high 4 true
    → ¬ (high ≤ℤ low)
    → (v : World Simulation) × (set_position_limits simulation true low high w ≡ some (ok tt, v))
      × (v.sent ≡ (w.sent ++ (limit low 1 ∷ [])) ++ (limit high 2 ∷ []))
      × (v.plant.0.soft_limit_min ≡ high)
      × (v.plant.0.soft_limit_max ≡ w.plant.0.soft_limit_max)
      × (get_position_limits simulation true v ≡ some (ok (high, high), v))
unfolding set_position_limits get_position_limits raise_if
get_position_limits-set_position_limits low high w l h order =
    let (u, first, (low_is, upper), sent) = write-limit low 1 w l in
    let (v, second, (high_is, same), all) = write-limit high 2 u h in
    let in_order : leb_ℤ high low ≡ false = ground arith in
    let kept : Fits v.plant.0.soft_limit_min 4 true = rw (high_is) h in
    (
      v,
      bind-ok (raise_if false runtime_error) _ w w tt refl
          ∙ bind-ok (raise_if (leb_ℤ high low) value_error) _ w w tt (rw (in_order) refl)
          ∙ bind-ok (write_i32 simulation 0x607B low 1) _ w u tt first
          ∙ second,
      all ∙ ap (λ s. s ++ (limit high 2 ∷ [])) sent,
      high_is,
      same ∙ upper,
      bind-ok (raise_if false runtime_error) _ v v tt refl
          ∙ bind-ok (read_i32 simulation 0x607B 1) _ v v _ (read-limit 1 v kept)
          ∙ bind-ok (read_i32 simulation 0x607B 2) _ v v _ (read-limit 2 v kept)
          ∙ rw (high_is) refl,
    )
