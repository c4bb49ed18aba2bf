-- ===== src/Simulator/Drive/Objects/Reads.antt =====
-- Which reads of the simulated drive raise.
use dryve_d.Base.{
  ℕ, ◌-◌, ◌||◌, ◌+◌, ◌*◌, ◌%◌, ◌≤◌, ◌<◌, ◌≡◌, refl, sym, Bool, true, false, List, ◌==◌, ==_iff, ◌⊎◌,
  inl, inr, arith, if◌then◌else◌, subst,
}
use dryve_d.Base.Int.{ℤ, pos, negsuc, low_byte, ◌≤ℤ◌}
use dryve_d.Base.Errors.{Result, ok, err, struct_error}
use dryve_d.Protocol.Codec.{Endian}
use dryve_d.Protocol.Codec.RoundTrip.{Fits, unpack-pack, pack_rejects}
use dryve_d.Simulator.Drive.{FakeDrive}
use dryve_d.Simulator.Drive.Objects.{as_struct, struct_pack, read_settings, read_object, sdo_read}
use dryve_d.Simulator.Drive.Ranges.{IsI32, InRange}
use dryve_d.Simulator.Drive.Reachable.{Reachable, Reachable-IsSound}
use dryve_d.Simulator.Drive.Engine.{Engine}
use dryve_d.Simulator.Statusword.{make_statusword}

-- The two objects that hold the mode.
abbrev pub IsMode : ℕ → Type 0
IsMode idx = (idx ≡ 0x6060) ⊎ (idx ≡ 0x6061)

-- A read of the mode raises exactly if the mode is negative, and no other read raises.
pub data ReadEnd (idx : ℕ) (d : FakeDrive) : Result (List ℕ) → Type 0 where
  answered : {bytes : List ℕ} → ¬ (IsMode idx × (d.op_mode ≤ℤ negsuc 0)) → ReadEnd idx d (ok bytes)
  raised : IsMode idx → d.op_mode ≤ℤ negsuc 0 → ReadEnd idx d (err struct_error)

statusword-Fits : (d : FakeDrive) → Fits (pos (make_statusword d)) 2 false
unfolding make_statusword
statusword-Fits d = omega arith

low_byte-lt : (m : ℤ) → low_byte m < 256
low_byte-lt (pos n) = omega arith
low_byte-lt (negsuc n) = omega arith

module _ (idx : ℕ) (d : FakeDrive) where
  first :
      (b : Bool) (x y : Result (List ℕ))
      → (b ≡ true → ReadEnd idx d x)
      → (b ≡ false → ReadEnd idx d y)
      → ReadEnd idx d (if b then x else y)
  first true x y h k = h refl
  first false x y h k = k refl

  packs :
      (size : ℕ) (signed : Bool) (v : ℤ)
      → 1 ≤ size
      → size ≤ 4
      → Fits v size signed
      → ¬ (IsMode idx × (d.op_mode ≤ℤ negsuc 0))
      → ReadEnd idx d (struct_pack size signed v)
  packs size signed v lo hi fits n =
      let (bytes, packed, _, _, _) = unpack-pack v size signed Endian.little lo hi fits in
      subst (λ r. ReadEnd idx d (as_struct r)) (sym packed) (answered {bytes = bytes} n)

  modes :
      (m : ℤ)
      → m ≡ d.op_mode
      → IsMode idx
      → Fits m 1 true
      → ReadEnd idx d (struct_pack 1 true (pos (low_byte m)))
  modes (pos n) e i f =
      packs 1 true (pos (n % 256)) (omega arith) (omega arith) (omega arith)
        (λ p. not_negative (subst (λ v. v ≤ℤ negsuc 0) (sym e) p.1))
    where
      not_negative : ¬ (pos n ≤ℤ negsuc 0)
      not_negative h = omega arith
  modes (negsuc n) e i f =
      subst (λ r. ReadEnd idx d (as_struct r))
        (sym (pack_rejects (pos (255 - n % 256)) 1 true Endian.little (λ p. too_large p.2)))
        (raised i (subst (λ v. v ≤ℤ negsuc 0) e (omega arith)))
    where
      too_large : ¬ Fits (pos (255 - n % 256)) 1 true
      too_large h = omega (arith, f)

  -- An object that is not one of the modes.
  plain :
      (k : ℕ)
      → (k == 0x6060 || k == 0x6061) ≡ false
      → (idx == k) ≡ true
      → ¬ (IsMode idx × (d.op_mode ≤ℤ negsuc 0))
  plain k n t (inl e, _) = absurd (ground arith)
  plain k n t (inr e, _) = absurd (ground arith)

  wide :
      (k : ℕ) (v : ℤ)
      → (k == 0x6060 || k == 0x6061) ≡ false
      → IsI32 v
      → (idx == k) ≡ true
      → ReadEnd idx d (struct_pack 4 true v)
  wide k v n f t = packs 4 true v (omega arith) (omega arith) f (plain k n t)

  -- A test that failed at both modes.
  neither :
      (idx == 0x6060) ≡ false → (idx == 0x6061) ≡ false → ¬ (IsMode idx × (d.op_mode ≤ℤ negsuc 0))
  neither f g (inl e, _) = absurd (ground arith)
  neither f g (inr e, _) = absurd (ground arith)

  rest_ReadEnd :
      (sub count : ℕ)
      → InRange d
      → ¬ (IsMode idx × (d.op_mode ≤ℤ negsuc 0))
      → ReadEnd idx d (read_settings idx sub count d)
  unfolding read_settings
  rest_ReadEnd sub count (_, _, h2, h3, h4, h5, h6, h7, h8, _, _, _) n =
      first (idx == 0x607A) _ _ (wide 0x607A _ refl h2) (λ _.
        first (idx == 0x6081) _ _ (wide 0x6081 _ refl h3) (λ _.
          first (idx == 0x6083) _ _ (wide 0x6083 _ refl h4) (λ _.
            first (idx == 0x6084) _ _ (wide 0x6084 _ refl h5) (λ _.
              first (idx == 0x60FF) _ _ (wide 0x60FF _ refl h6) (λ _.
                first (idx == 0x6098) _ _
                  (λ _.
                    packs 1 false _ (omega arith) (omega arith)
                      (omega (arith, low_byte-lt d.homing_method)) n)
                  (λ _.
                    first (idx == 0x607B) _ _ (wide 0x607B _ refl h7) (λ _.
                      first (idx == 0x607D) _ _ (wide 0x607D _ refl h8) (λ _. answered n))))))))

  read_object-ReadEnd :
      (sub count : ℕ)
      → InRange d
      → d.op_mode_display ≡ d.op_mode
      → ReadEnd idx d (read_object idx sub count d)
  unfolding read_object
  read_object-ReadEnd sub count h shown =
      first (idx == 0x6041) _ _
        (λ t. packs 2 false _ (omega arith) (omega arith) (statusword-Fits d) (plain 0x6041 refl t))
        (λ _.
          first (idx == 0x2014) _ _
            (λ t. packs 2 false _ (omega arith) (omega arith) (omega arith) (plain 0x2014 refl t))
            (λ _. first (idx == 0x6064) _ _ (wide 0x6064 _ refl h.0) (λ _.
              first (idx == 0x606C) _ _ (wide 0x606C _ refl h.1) (λ f.
                first (idx == 0x6060) _ _ (λ t. modes d.op_mode refl (inl ((==_iff _ _).0 t)) h.9)
                  (λ g.
                    first (idx == 0x6061) _ _
                      (λ t.
                        modes d.op_mode_display shown (inr ((==_iff _ _).0 t))
                          (subst (λ v. Fits v 1 true) (sym shown) h.9))
                      (λ k. rest_ReadEnd sub count h (neither g k)))))))

-- Of the simulated drive, however it was used before, a read of any object returns bytes, except
-- that a read of the mode or of the mode display raises while the mode is negative.
pub Reachable-ReadEnd :
    {e : Engine}
    → Reachable e
    → (hi lo sub count : ℕ) → ReadEnd (hi * 256 + lo) e.drive (sdo_read hi lo sub count e.drive)
unfolding sdo_read
Reachable-ReadEnd {e = e} r hi lo sub count =
    let (orderly, ranges) = Reachable-IsSound r in
    read_object-ReadEnd (hi * 256 + lo) e.drive sub count ranges orderly.2
