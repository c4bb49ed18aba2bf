-- ===== src/Api/Boundary.antt =====
-- `_check_jog_boundary` of src/dryve_d1/api/motion_commands.py.
pub mod Inside
use dryve_d.Base.{Bool, ◌&&◌}
use dryve_d.Base.Int.{ℤ, pos, ltb_ℤ, leb_ℤ}
use dryve_d.Base.Errors.{runtime_error}
use dryve_d.Io.{Plant, Action, pure, ◌>>=◌, ◌>>◌, raise_if, read_i32}
use dryve_d.Od.Indices.{OdIndex, index_of}
use dryve_d.Api.Limits.{Limits, resolve_position_limits}

unfoldable pub check_jog_boundary : {S : Type 0} → Plant S → Limits → ℤ → Action S ℤ
check_jog_boundary p limits velocity =
    read_i32 p (index_of OdIndex.position_actual_value) 0 >>= λ current_position.
    raise_if (ltb_ℤ (pos 0) velocity && leb_ℤ (resolve_position_limits limits).1 current_position)
      runtime_error
    >> (raise_if
          (ltb_ℤ velocity (pos 0) && leb_ℤ current_position (resolve_position_limits limits).0)
          runtime_error
        >> pure current_position)
