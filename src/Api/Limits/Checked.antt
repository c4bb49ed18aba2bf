-- ===== src/Api/Limits/Checked.antt =====
-- What the checks of a command let through.
use dryve_d.Base.{◌≡◌, ◌↔◌, refl, ap, subst, ◌∙◌, Bool, true, false, not, Option, none, some, arith}
use dryve_d.Base.Int.{ℤ, pos, abs, ltb_ℤ, leb_ℤ, eqb_ℤ, eq_of_parts, ◌≤ℤ◌}
use dryve_d.Base.Errors.{Result, ok, err, guard, ◌>>◌, value_error}
use dryve_d.Api.Limits.{
  Limits, resolve_position_limits, check_max, validate_velocity, validate_motion_params,
  validate_position_limits,
}

-- Not above a limit, if there is one.
abbrev pub Below : Option ℤ → ℤ → Type 0
Below none value = Unit
Below (some limit) value = value ≤ℤ limit

-- A move that the limits allow.
pub record IsAllowed (limits : Limits) (target velocity accel decel timeout : ℤ) : Type 0 where
  pub timeout_positive : pos 1 ≤ℤ timeout
  pub velocity_not_zero : ¬ (velocity ≡ pos 0)
  pub velocity_below : Below limits.max_abs_velocity (pos (abs velocity))
  pub accel_positive : pos 1 ≤ℤ accel
  pub accel_below : Below limits.max_abs_accel accel
  pub decel_positive : pos 1 ≤ℤ decel
  pub decel_below : Below limits.max_abs_decel decel
  pub not_before : (resolve_position_limits limits).0 ≤ℤ target
  pub not_beyond : target ≤ℤ (resolve_position_limits limits).1

pub check_max-ok :
    (limit : Option ℤ) (value : ℤ) → (check_max limit value ≡ ok tt) ↔ Below limit value
unfolding check_max
check_max-ok none value = (λ _. tt, λ _. refl)
check_max-ok (some limit) value = (λ h. ground arith, λ h. ground arith)

pub guard-ok : (b : Bool) → guard b value_error ≡ ok tt → b ≡ true
guard-ok true h = refl
guard-ok false h = absurd (cc)

pub seq-ok : (m n : Result (Unit {0})) → m >> n ≡ ok tt → (m ≡ ok tt) × (n ≡ ok tt)
seq-ok (ok a) n h = (refl, h)
seq-ok (err e) n h = absurd (cc)

leb-ok : (a b : ℤ) → (guard (leb_ℤ a b) value_error ≡ ok tt) ↔ (a ≤ℤ b)
leb-ok a b = (λ h. ground (arith, guard-ok (leb_ℤ a b) h), λ h. ground arith)

positive-ok : (a : ℤ) → (guard (ltb_ℤ (pos 0) a) value_error ≡ ok tt) ↔ (pos 1 ≤ℤ a)
positive-ok a = (λ h. ground (arith, guard-ok (ltb_ℤ (pos 0) a) h), λ h. ground arith)

ok-seq : (m n : Result (Unit {0})) → m ≡ ok tt → n ≡ ok tt → m >> n ≡ ok tt
ok-seq m n h k = ap (λ r. r >> n) h ∙ k

refused_zero : ¬ (guard (not (eqb_ℤ (pos 0) (pos 0))) value_error ≡ ok tt)
refused_zero h = cc

pub nonzero-ok : (a : ℤ) → (guard (not (eqb_ℤ a (pos 0))) value_error ≡ ok tt) ↔ (¬ (a ≡ pos 0))
nonzero-ok a = (
  λ h z. refused_zero (subst (λ b. guard (not (eqb_ℤ b (pos 0))) value_error ≡ ok tt) z h),
  λ h. decided (eqb_ℤ a (pos 0)) (λ q. h (eq_of_parts a (pos 0) (ground (arith, q)))),
)
  where
    decided : (b : Bool) → ¬ (b ≡ true) → guard (not b) value_error ≡ ok tt
    decided true h = absurd (h refl)
    decided false h = refl

-- The checks of a move let through exactly the moves that the limits allow: the timeout, the
-- acceleration and the deceleration positive, the velocity not 0, each of them below its limit where
-- there is one, and the target between the position limits.
pub validate-IsAllowed-decides :
    (limits : Limits) (target velocity accel decel timeout : ℤ)
    → (validate_motion_params limits velocity accel decel timeout
          >> validate_position_limits limits target
        ≡ ok tt)
      ↔ IsAllowed limits target velocity accel decel timeout
unfolding validate_motion_params validate_velocity validate_position_limits
validate-IsAllowed-decides limits target velocity accel decel timeout = (
  λ h.
      let (params, position) = seq-ok _ _ h in
      let (a, r₁) = seq-ok _ _ params in
      let (b, r₂) = seq-ok _ _ r₁ in
      let (c, r₃) = seq-ok _ _ r₂ in
      let (d, r₄) = seq-ok _ _ r₃ in
      let (e, f) = seq-ok _ _ r₄ in
      let (v, m) = seq-ok _ _ b in
      let (lower, upper) = seq-ok _ _ position in
      record {
        timeout_positive = (positive-ok timeout).0 a;
        velocity_not_zero = (nonzero-ok velocity).0 v;
        velocity_below = (check_max-ok limits.max_abs_velocity (pos (abs velocity))).0 m;
        accel_positive = (positive-ok accel).0 c;
        accel_below = (check_max-ok limits.max_abs_accel accel).0 d;
        decel_positive = (positive-ok decel).0 e;
        decel_below = (check_max-ok limits.max_abs_decel decel).0 f;
        not_before = (leb-ok _ target).0 lower;
        not_beyond = (leb-ok target _).0 upper;
      },
  λ x.
      ok-seq _ _
        (ok-seq _ _ ((positive-ok timeout).1 x.timeout_positive) (
          ok-seq _ _
            (ok-seq _ _ ((nonzero-ok velocity).1 x.velocity_not_zero)
              ((check_max-ok limits.max_abs_velocity (pos (abs velocity))).1 x.velocity_below))
            (ok-seq _ _ ((positive-ok accel).1 x.accel_positive) (
              ok-seq _ _ ((check_max-ok limits.max_abs_accel accel).1 x.accel_below) (
                ok-seq _ _ ((positive-ok decel).1 x.decel_positive)
                  ((check_max-ok limits.max_abs_decel decel).1 x.decel_below))))))
        (ok-seq _ _ ((leb-ok _ target).1 x.not_before) ((leb-ok target _).1 x.not_beyond)),
)
