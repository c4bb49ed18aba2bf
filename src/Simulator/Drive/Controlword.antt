-- ===== src/Simulator/Drive/Controlword.antt =====
-- `_decode_controlword` and `_apply_controlword` of the simulated drive, and the three functions
-- that start a motion.
use Prim.Native.Nat.{bit_and}
use dryve_d.Base.{
  ℕ, ◌+◌, ◌-◌, ◌*◌, ◌/◌, Bool, true, false, not, ◌&&◌, ◌||◌, leb, ◌==◌, if◌then◌else◌, min, max,
}
use dryve_d.Base.Int.{ℤ, pos, abs, ltb_ℤ, eqb_ℤ, ◌+ℤ◌}
use dryve_d.Simulator.Drive.{
  Ds402State, rank, is_operation_enabled, FakeDrive, set_state, stop_all_motion, speed,
}

-- The tuple that `_decode_controlword` returns.
pub record Commands : Type 0 where
  pub shutdown : Bool
  pub switch_on : Bool
  pub enable_op : Bool
  pub fault_reset : Bool
  pub halt : Bool
  pub new_setpoint : Bool
  pub quick_stop : Bool
  pub relative : Bool

-- `bool(cw & flag)`
abbrev pub has : ℕ → ℕ → Bool
has cw flag = not (bit_and cw flag == 0)

abbrev pub decode_controlword : ℕ → Commands
decode_controlword cw =
    let nibble = bit_and cw 0x000F in
    record {
      shutdown = (nibble == 0x0006 || nibble == 0x000E) || bit_and cw 0x0006 == 0x0006;
      switch_on = (nibble == 0x0007 || nibble == 0x000F) || bit_and cw 0x0007 == 0x0007;
      enable_op = nibble == 0x000F;
      fault_reset = has cw 0x80;
      halt = has cw 0x100;
      new_setpoint = has cw 0x10;
      quick_stop = bit_and cw 0x0007 == 0x0003 || nibble == 0x0002;
      relative = has cw 0x40;
    }

-- `_start_profile_velocity_locked`
abbrev pub start_profile_velocity : FakeDrive → FakeDrive
start_profile_velocity d =
    if eqb_ℤ d.target_velocity (pos 0)
    then record d { pv_active = false; velocity = pos 0; is_moving = false; target_reached = true }
    else record d {
      pp_active = false;
      homing_active = false;
      pv_active = true;
      target_reached = false;
    }

abbrev pub min_ℤ : ℤ → ℤ → ℤ
min_ℤ a b = if ltb_ℤ b a then b else a

abbrev pub max_ℤ : ℤ → ℤ → ℤ
max_ℤ a b = if ltb_ℤ a b then b else a

-- `_start_profile_position_locked`
abbrev pub start_profile_position : ℕ → Bool → FakeDrive → FakeDrive
start_profile_position now relative d =
    let end = if relative then d.position +ℤ d.target_position else d.target_position in
    record d {
      pv_active = false;
      homing_active = false;
      pp_active = true;
      pp_goal = max_ℤ d.soft_limit_min (min_ℤ d.soft_limit_max end);
      pp_relative = relative;
      pp_start_pos = d.position;
      pp_started_at = now;
      is_moving = true;
      target_reached = false;
    }

-- `max(0.3, min(dist / v, 1.5))` seconds. A time of whole microseconds has passed `dist / v` seconds
-- exactly when it has passed the quotient rounded up.
abbrev pub homing_time : ℕ → ℕ → ℕ
homing_time dist v = max 300000 (min ((dist * 1000000 + v - 1) / v) 1500000)

-- `_start_homing_locked`
abbrev pub start_homing : ℕ → FakeDrive → FakeDrive
start_homing now d = record d {
  pv_active = false;
  pp_active = false;
  homing_active = true;
  homed = false;
  homing_error = false;
  diag_code = 0x23;
  is_moving = true;
  target_reached = false;
  homing_started_at = now;
  homing_duration = homing_time (abs d.position) (speed d);
}

-- The three transitions, in turn.
abbrev pub transitions : Commands → FakeDrive → FakeDrive
transitions c d =
    let shut = if c.shutdown then set_state Ds402State.ready_to_switch_on d else d in
    let switched =
      if c.switch_on && leb 1 (rank shut.state)
      then set_state Ds402State.switched_on shut
      else shut in
    if c.enable_op && leb 2 (rank switched.state)
    then set_state Ds402State.operation_enabled switched
    else switched

-- The start of a motion, on a rising edge of bit 4.
abbrev pub start_motion : ℕ → Bool → Commands → FakeDrive → FakeDrive
start_motion now rising_edge c d =
    if rising_edge && (is_operation_enabled d.state && eqb_ℤ d.op_mode_display d.op_mode)
    then if eqb_ℤ d.op_mode (pos 6)
      then start_homing now d
      else if eqb_ℤ d.op_mode (pos 1)
      then start_profile_position now c.relative d
      else if eqb_ℤ d.op_mode (pos 3)
      then start_profile_velocity d
      else d
    else d

-- `_apply_controlword`, behind the decoding, on the drive that remembers the word.
unfoldable pub obey : ℕ → Commands → Bool → FakeDrive → FakeDrive
obey now c rising_edge d =
    if c.fault_reset
    then record (stop_all_motion (
        set_state Ds402State.switch_on_disabled
          (record d { fault = false; homing_error = false; diag_code = 1 }))) {
            target_reached = true;
          }
    else if d.emergency_active
    then stop_all_motion d
    else if c.halt
    then record (stop_all_motion d) { target_reached = true }
    else if c.quick_stop && (rank d.state == 3 || rank d.state == 5)
    then set_state Ds402State.ready_to_switch_on
        (record (stop_all_motion d) { target_reached = true })
    else if d.fault
    then set_state Ds402State.fault d
    else start_motion now rising_edge c (transitions c d)

unfoldable pub apply_controlword : ℕ → ℕ → FakeDrive → FakeDrive
unfolding obey
apply_controlword now cw d =
    let c = decode_controlword cw in
    obey now c (c.new_setpoint && not (has d.last_controlword 0x10))
      (record d { last_controlword = cw })
