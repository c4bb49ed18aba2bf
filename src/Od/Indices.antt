-- ===== src/Od/Indices.antt =====
-- src/dryve_d1/od/indices.py: the objects that the driver reads and writes.
use dryve_d.Base.{ℕ}

-- `ODIndex`
pub data OdIndex : Type 0 where
  controlword statusword modes_of_operation modes_of_operation_display : OdIndex
  position_actual_value position_window velocity_actual_value : OdIndex
  target_position target_velocity : OdIndex
  profile_velocity profile_acceleration profile_deceleration quick_stop_deceleration : OdIndex
  homing_method homing_speeds homing_acceleration : OdIndex
  error_code manufacturer_status_register following_error_actual_value : OdIndex
  position_range_limit homing_status : OdIndex

-- `int(ODIndex.X)`
abbrev pub index_of : OdIndex → ℕ
index_of OdIndex.controlword = 0x6040
index_of OdIndex.statusword = 0x6041
index_of OdIndex.modes_of_operation = 0x6060
index_of OdIndex.modes_of_operation_display = 0x6061
index_of OdIndex.position_actual_value = 0x6064
index_of OdIndex.position_window = 0x6067
index_of OdIndex.velocity_actual_value = 0x606C
index_of OdIndex.target_position = 0x607A
index_of OdIndex.target_velocity = 0x60FF
index_of OdIndex.profile_velocity = 0x6081
index_of OdIndex.profile_acceleration = 0x6083
index_of OdIndex.profile_deceleration = 0x6084
index_of OdIndex.quick_stop_deceleration = 0x6085
index_of OdIndex.homing_method = 0x6098
index_of OdIndex.homing_speeds = 0x6099
index_of OdIndex.homing_acceleration = 0x609A
index_of OdIndex.error_code = 0x603F
index_of OdIndex.manufacturer_status_register = 0x1002
index_of OdIndex.following_error_actual_value = 0x60F4
index_of OdIndex.position_range_limit = 0x607B
index_of OdIndex.homing_status = 0x2014
