-- ===== src/Simulator/Drive/Objects/Writes.antt =====
-- A rule for `sdo_write`: what holds of the drive after it, from the ten assignments that it may make.
use dryve_d.Base.{
  ℕ, zero, suc, ◌+◌, ◌*◌, ◌≤◌, ◌≡◌, refl, Bool, true, false, List, [], ◌∷◌, ◌++◌, length, take,
  replicate, IsBytes, ◌==◌, ==_iff, arith, if◌then◌else◌, sym, ◌∙◌, subst, Bool-cases, inl, inr,
}
use dryve_d.Base.Int.{ℤ, pos_part}
use dryve_d.Base.Errors.{Result, ok, err, ok-injective}
use dryve_d.Protocol.Codec.{Endian}
use dryve_d.Protocol.Codec.RoundTrip.{Fits, pack-unpack}
use dryve_d.Simulator.Drive.{Stored, FakeDrive, clamp_to_soft_limits}
use dryve_d.Simulator.Drive.Controlword.{apply_controlword}
use dryve_d.Simulator.Drive.Objects.{
  struct_unpack, padded, assign, assign_i32, write_object, sdo_write,
}

take-IsBytes : (n : ℕ) (raw : List ℕ) → IsBytes raw → IsBytes (take n raw)
take-IsBytes zero raw b = tt
take-IsBytes (suc n) [] b = tt
take-IsBytes (suc n) (x ∷ raw) b = (b.0, take-IsBytes n raw b.1)

padding-IsBytes : (n : ℕ) (raw : List ℕ) → IsBytes raw → IsBytes (raw ++ replicate n 0)
padding-IsBytes zero [] b = tt
padding-IsBytes (suc n) [] b = (omega arith, padding-IsBytes n [] b)
padding-IsBytes n (x ∷ raw) b = (b.0, padding-IsBytes n raw b.1)

unpacked-Fits :
    (size : ℕ) (signed : Bool) (bytes : List ℕ) (v : ℤ)
    → 1 ≤ size
    → size ≤ 4
    → IsBytes bytes
    → struct_unpack size signed bytes ≡ ok v
    → Fits v size signed
unpacked-Fits size signed bytes v lo hi b e = elim (Bool-cases (length bytes == size)) [
  | inl t ↦
      let len : length bytes ≡ size = (==_iff _ _).0 t in
      let (value, unpacked, fits, _) =
        pack-unpack bytes signed Endian.little b (omega (arith, len)) (omega (arith, len)) in
      let found : struct_unpack size signed bytes ≡ ok value = rw (t, unpacked) refl in
      subst (λ w. Fits w size signed) (ok-injective (sym found ∙ e))
        (subst (λ n. Fits value n signed) len fits)
  | inr f ↦ absurd (mismatch f e)
]
  where
    mismatch : (length bytes == size) ≡ false → struct_unpack size signed bytes ≡ ok v → ⊥
    mismatch f e = cc

module _ (P : FakeDrive → Type 0) where
  -- What the assignments must keep, for values of the object's width.
  pub record Accepts (now : ℕ) (d : FakeDrive) : Type 0 where
    pub mode : (v : ℤ) → Fits v 1 true → P (record d { op_mode = v; op_mode_display = v })
    pub target_position : (v : ℤ) → Fits v 4 true → P (record d { target_position = v })
    pub profile_velocity : (v : ℤ) → Fits v 4 true → P (record d { profile_velocity = v })
    pub acceleration : (v : ℤ) → Fits v 4 true → P (record d { acceleration = v })
    pub deceleration : (v : ℤ) → Fits v 4 true → P (record d { deceleration = v })
    pub target_velocity : (v : ℤ) → Fits v 4 true → P (record d { target_velocity = v })
    pub homing_method : (v : ℤ) → Fits v 1 false → P (record d { homing_method = v })
    pub soft_limit_min :
        (v : ℤ) → Fits v 4 true → P (clamp_to_soft_limits (record d { soft_limit_min = v }))
    pub soft_limit_max :
        (v : ℤ) → Fits v 4 true → P (clamp_to_soft_limits (record d { soft_limit_max = v }))
    pub controlword : (cw : ℕ) → P (apply_controlword now cw d)

  record Kept (r : Result (Unit {0}) × FakeDrive) : Type 0 where
    kept : P r.1

  either :
      (b : Bool) (x y : Result (Unit {0}) × FakeDrive) → Kept x → Kept y → Kept (if b then x else y)
  either true x y h k = h
  either false x y h k = k

  -- A value that cannot be unpacked leaves the drive as it was.
  assigned :
      (size : ℕ) (signed : Bool) (bytes : List ℕ) (f : ℤ → FakeDrive) (d : FakeDrive)
      → 1 ≤ size
      → size ≤ 4
      → IsBytes bytes
      → P d
      → ((v : ℤ) → Fits v size signed → P (f v))
      → Kept (assign (struct_unpack size signed bytes) f d)
  assigned size signed bytes f d lo hi b h k = from _ refl
    where
      from : (r : Result ℤ) → struct_unpack size signed bytes ≡ r → Kept (assign r f d)
      from (ok v) e = record { kept = k v (unpacked-Fits size signed bytes v lo hi b e) }
      from (err x) e = record { kept = h }

  write_object-lem :
      (now idx : ℕ) (raw : List ℕ) (d : FakeDrive)
      → IsBytes raw
      → P d
      → Accepts now d
      → Kept (write_object now idx raw d)
  unfolding write_object
  write_object-lem now idx raw d b h a =
      let cut : IsBytes (take 1 raw) = take-IsBytes 1 raw b in
      let word : (n : ℕ) → IsBytes (padded n raw) =
        λ n. padding-IsBytes _ (take n raw) (take-IsBytes n raw b) in
      let wide : (f : ℤ → FakeDrive)
          → ((v : ℤ) → Fits v 4 true → P (f v))
          → Kept (assign_i32 raw f d) =
        λ f. assigned 4 true _ f d (omega arith) (omega arith) (word 4) h in
      either (idx == 0x6060) _ _ (assigned 1 true _ _ d (omega arith) (omega arith) cut h a.mode) (
        either (idx == 0x607A) _ _ (wide _ a.target_position) (
          either (idx == 0x6081) _ _ (wide _ a.profile_velocity) (
            either (idx == 0x6083) _ _ (wide _ a.acceleration) (
              either (idx == 0x6084) _ _ (wide _ a.deceleration) (
                either (idx == 0x60FF) _ _ (wide _ a.target_velocity) (
                  either (idx == 0x6098) _ _
                    (assigned 1 false _ _ d (omega arith) (omega arith) cut h a.homing_method)
                    (either (idx == 0x607B) _ _ (wide _ a.soft_limit_min) (
                      either (idx == 0x607D) _ _ (wide _ a.soft_limit_max) (
                        either (idx == 0x6040) _ _
                          (assigned 2 false _ _ d (omega arith) (omega arith) (word 2) h
                            (λ v f. a.controlword (pos_part v)))
                          (record { kept = h }))))))))))

  pub sdo_write-lem :
      (now hi lo sub : ℕ) (raw : List ℕ) (d : FakeDrive)
      → IsBytes raw
      → ((od : Stored) → P (record d { od = od }))
      → ((od : Stored) → Accepts now (record d { od = od }))
      → P (sdo_write now hi lo sub raw d).1
  unfolding sdo_write
  sdo_write-lem now hi lo sub raw d b h a =
      let od : Stored = (hi * 256 + lo, sub, raw) ∷ d.od in
      (write_object-lem now (hi * 256 + lo) raw (record d { od = od }) b (h od) (a od)).kept
