-- ===== src/Simulator/Drive.antt =====
-- `FakeDriveState` of packages/cia402-dryve-d1/src/cia402_dryve_d1/simulator.py: the simulated
-- drive's fields and the helpers that every change of them shares. Times are in microseconds.
pub mod Arrival
pub mod Commanded
pub mod Controlword
pub mod Engine
pub mod Objects
pub mod Orderly
pub mod Ranges
pub mod Reachable
use dryve_d.Base.{
  ℕ, ◌+◌, ◌*◌, ◌/◌, Bool, true, false, List, [], ◌∷◌, leb, ◌==◌, if◌then◌else◌, min, max,
}
use dryve_d.Base.Int.{ℤ, pos, negsuc, sub_ℕ, abs, ltb_ℤ}

-- `DS402State`
pub data Ds402State : Type 0 where
  switch_on_disabled ready_to_switch_on switched_on operation_enabled : Ds402State
  fault quick_stop_active : Ds402State

-- The value of the `IntEnum`.
abbrev pub rank : Ds402State → ℕ
rank Ds402State.switch_on_disabled = 0
rank Ds402State.ready_to_switch_on = 1
rank Ds402State.switched_on = 2
rank Ds402State.operation_enabled = 3
rank Ds402State.fault = 4
rank Ds402State.quick_stop_active = 5

abbrev pub is_operation_enabled : Ds402State → Bool
is_operation_enabled state = rank state == 3

-- `_od`, for the key (index, subindex), the newest first.
abbrev pub Stored : Type 0
Stored = List (ℕ × ℕ × List ℕ)

pub record FakeDrive : Type 0 where
  pub state : Ds402State
  pub fault : Bool
  pub warning : Bool
  pub op_mode : ℤ
  pub op_mode_display : ℤ
  pub position : ℤ
  pub velocity : ℤ
  pub target_position : ℤ
  pub profile_velocity : ℤ
  pub acceleration : ℤ
  pub deceleration : ℤ
  pub target_velocity : ℤ
  pub is_moving : Bool
  pub target_reached : Bool
  pub homed : Bool
  pub homing_error : Bool
  pub homing_method : ℤ
  pub diag_code : ℕ
  pub soft_limit_min : ℤ
  pub soft_limit_max : ℤ
  pub emergency_active : Bool
  pub last_controlword : ℕ
  pub pv_active : Bool
  pub pp_active : Bool
  pub homing_active : Bool
  pub pp_goal : ℤ
  pub pp_relative : Bool
  pub pp_start_pos : ℤ
  pub pp_started_at : ℕ
  pub homing_started_at : ℕ
  pub homing_duration : ℕ
  pub od : Stored

-- `__init__`
abbrev pub new_drive : FakeDrive
new_drive = record {
  state = Ds402State.switch_on_disabled;
  fault = false;
  warning = false;
  op_mode = pos 0;
  op_mode_display = pos 0;
  position = pos 0;
  velocity = pos 0;
  target_position = pos 0;
  profile_velocity = pos 5000;
  acceleration = pos 2500;
  deceleration = pos 2500;
  target_velocity = pos 0;
  is_moving = false;
  target_reached = true;
  homed = false;
  homing_error = false;
  homing_method = pos 0;
  diag_code = 1;
  soft_limit_min = pos 0;
  soft_limit_max = pos 120000;
  emergency_active = false;
  last_controlword = 0;
  pv_active = false;
  pp_active = false;
  homing_active = false;
  pp_goal = pos 0;
  pp_relative = false;
  pp_start_pos = pos 0;
  pp_started_at = 0;
  homing_started_at = 0;
  homing_duration = 800000;
  od = [];
}

-- `_set_state`
abbrev pub set_state : Ds402State → FakeDrive → FakeDrive
set_state new_state d = record d {
  state = new_state;
  fault = if rank new_state == 4 then true else d.fault;
}

-- `_stop_all_motion_locked`
abbrev pub stop_all_motion : FakeDrive → FakeDrive
stop_all_motion d = record d {
  pv_active = false;
  pp_active = false;
  homing_active = false;
  target_velocity = pos 0;
  velocity = pos 0;
  is_moving = false;
}

-- `_clamp_to_soft_limits_locked`, of a position: the two tests in turn.
abbrev pub clamp_position : ℤ → ℤ → ℤ → ℤ
clamp_position low high x =
    let raised = if ltb_ℤ x low then low else x in if ltb_ℤ high raised then high else raised

abbrev pub clamp_to_soft_limits : FakeDrive → FakeDrive
clamp_to_soft_limits d = record d {
  position = clamp_position d.soft_limit_min d.soft_limit_max d.position;
}

-- `max(1, min(abs(int(self.profile_velocity) or 5000), 20000))`
abbrev pub speed : FakeDrive → ℕ
speed d = max 1 (min (if abs d.profile_velocity == 0 then 5000 else abs d.profile_velocity) 20000)

-- The HTTP handler of /emergency.
abbrev pub toggle_emergency : FakeDrive → FakeDrive
toggle_emergency d =
    if d.emergency_active
    then record d { emergency_active = false }
    else stop_all_motion (record d { emergency_active = true })
