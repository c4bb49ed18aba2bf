-- ===== src/Api/Boundary/Inside.antt =====
-- What `_check_jog_boundary` lets through.
use dryve_d.Base.{◌≡◌, refl, false, ◌&&◌}
use dryve_d.Base.Int.{ℤ, pos, ltb_ℤ, leb_ℤ}
use dryve_d.Base.Errors.{Error, Result, ok, err, runtime_error}
use dryve_d.Io.{Plant, World}
use dryve_d.Io.Rules.{Ends, ends}
use dryve_d.Io.Steps.{reading-Ends, raising-Ends}
use dryve_d.Api.Limits.{Limits, resolve_position_limits}
use dryve_d.Api.Boundary.{check_jog_boundary}

-- Of the position that was read: a jog with that velocity does not lead out of the limits.
pub record IsInside (limits : Limits) (velocity position : ℤ) : Type 0 where
  pub not_at_max :
      ltb_ℤ (pos 0) velocity && leb_ℤ (resolve_position_limits limits).1 position ≡ false
  pub not_at_min :
      ltb_ℤ velocity (pos 0) && leb_ℤ position (resolve_position_limits limits).0 ≡ false

pub data Inside {S : Type 0} (p : Plant S) (limits : Limits) (velocity : ℤ) (w : World S)
    : Result ℤ → World S → Type 0 where
  inside :
      {v : World S} (position : ℤ)
      → (p.read_i32 0x6064 0 w.plant).0 ≡ ok position
      → IsInside limits velocity position
      → v.sent ≡ w.sent
      → Inside p limits velocity w (ok position) v
  refused : {e : Error} {v : World S} → v.sent ≡ w.sent → Inside p limits velocity w (err e) v

-- The check of a jog ends whatever the drive answers and sends nothing. It returns only a position
-- that was read, at which the jog does not lead out of the limits.
pub check_jog_boundary-Inside :
    {S : Type 0} (p : Plant S) (limits : Limits) (velocity : ℤ) (w : World S)
    → Ends (Inside p limits velocity w) (check_jog_boundary p limits velocity w)
unfolding check_jog_boundary
check_jog_boundary-Inside p limits velocity w =
    reading-Ends p _ _ w
      (λ position r.
        raising-Ends _ runtime_error _ _
          (λ a.
            raising-Ends _ runtime_error _ _
              (λ b. ends (inside position r (record { not_at_max = a; not_at_min = b }) refl))
              (λ _. refused refl))
          (λ _. refused refl))
      (λ e _. refused refl)
