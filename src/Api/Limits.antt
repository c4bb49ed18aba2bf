-- ===== src/Api/Limits.antt =====
-- The checks of a command in src/dryve_d1/api/motion_commands.py, with the position limits of
-- status_queries.py.
pub mod Checked
use dryve_d.Base.{ℕ, Bool, true, false, not, Option, none, some, if◌then◌else◌}
use dryve_d.Base.Int.{ℤ, pos, abs, ltb_ℤ, leb_ℤ, eqb_ℤ}
use dryve_d.Base.Errors.{Result, ok, err, guard, ◌>>◌, value_error}
use dryve_d.Motion.{or_default}

-- The limits of the configuration that the checks use.
pub record Limits : Type 0 where
  pub min_position_limit : Option ℤ
  pub max_position_limit : Option ℤ
  pub max_abs_velocity : Option ℤ
  pub max_abs_accel : Option ℤ
  pub max_abs_decel : Option ℤ

-- `_resolve_position_limits`
abbrev pub resolve_position_limits : Limits → ℤ × ℤ
resolve_position_limits limits = (
  or_default limits.min_position_limit (pos 0),
  or_default limits.max_position_limit (pos 120000),
)

-- `if limit is not None and value > limit: raise ValueError(...)`
unfoldable pub check_max : Option ℤ → ℤ → Result (Unit {0})
check_max none value = ok tt
check_max (some limit) value = guard (leb_ℤ value limit) value_error

-- `_validate_velocity`
unfoldable pub validate_velocity : Limits → ℤ → Result (Unit {0})
validate_velocity limits velocity =
    guard (not (eqb_ℤ velocity (pos 0))) value_error
    >> check_max limits.max_abs_velocity (pos (abs velocity))

-- `_validate_motion_params`
unfoldable pub validate_motion_params : Limits → ℤ → ℤ → ℤ → ℤ → Result (Unit {0})
validate_motion_params limits velocity accel decel timeout =
    guard (ltb_ℤ (pos 0) timeout) value_error
    >> (validate_velocity limits velocity
        >> (guard (ltb_ℤ (pos 0) accel) value_error
            >> (check_max limits.max_abs_accel accel
                >> (guard (ltb_ℤ (pos 0) decel) value_error
                    >> check_max limits.max_abs_decel decel))))

-- `_validate_position_limits`
unfoldable pub validate_position_limits : Limits → ℤ → Result (Unit {0})
validate_position_limits limits target =
    let (min_pos, max_pos) = resolve_position_limits limits in
    guard (leb_ℤ min_pos target) value_error >> guard (leb_ℤ target max_pos) value_error
