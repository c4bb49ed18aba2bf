-- ===== src/Simulator/Drive/Engine.antt =====
-- The motion engine of the simulated drive: one round of the loop that `_start_engine` runs.
use dryve_d.Base.{
  ℕ, zero, suc, ◌+◌, ◌-◌, ◌*◌, ◌/◌, Bool, true, false, not, ◌&&◌, ◌||◌, leb, if◌then◌else◌, min,
}
use dryve_d.Base.Int.{ℤ, pos, negsuc, ltb_ℤ, eqb_ℤ, ◌+ℤ◌}
use dryve_d.Simulator.Drive.{is_operation_enabled, FakeDrive, clamp_to_soft_limits, speed}

abbrev pub negate : ℕ → ℤ
negate zero = pos 0
negate (suc n) = negsuc n

-- `a * n`
abbrev pub times : ℤ → ℕ → ℤ
times (pos a) n = pos (a * n)
times (negsuc a) n = negate ((a + 1) * n)

-- `int(a * dt)`, cut towards zero, for `dt` microseconds.
abbrev pub travel : ℤ → ℕ → ℤ
travel (pos a) dt = pos (a * dt / 1000000)
travel (negsuc a) dt = negate ((a + 1) * dt / 1000000)

-- The hard stop of the first two branches.
abbrev pub stand_still : FakeDrive → FakeDrive
stand_still d = record d {
  pv_active = false;
  pp_active = false;
  homing_active = false;
  target_velocity = pos 0;
  velocity = pos 0;
  is_moving = false;
  target_reached = true;
}

-- The ramp of the homing towards zero.
abbrev pub homing_direction : ℤ → ℤ
homing_direction x = if ltb_ℤ (pos 0) x then negsuc 0 else if ltb_ℤ x (pos 0) then pos 1 else pos 0

abbrev pub homing_position : ℤ → ℤ → ℤ → ℤ
homing_position direction x step =
    if ltb_ℤ direction (pos 0) && ltb_ℤ (x +ℤ step) (pos 0)
    then pos 0
    else if ltb_ℤ (pos 0) direction && ltb_ℤ (pos 0) (x +ℤ step)
    then pos 0
    else x +ℤ step

unfoldable pub homing_round : ℕ → ℕ → FakeDrive → FakeDrive
homing_round now dt d =
    if leb d.homing_duration (now - d.homing_started_at) && leb d.homing_started_at now
    then clamp_to_soft_limits (record d {
      position = pos 0;
      velocity = pos 0;
      is_moving = false;
      target_reached = true;
      homed = true;
      homing_error = false;
      diag_code = 1;
      homing_active = false;
    })
    else (let direction = homing_direction d.position in
        let v = times direction (speed d) in
        clamp_to_soft_limits (record d {
          position = homing_position direction d.position (travel v dt);
          velocity = v;
          is_moving = not (eqb_ℤ v (pos 0));
          target_reached = false;
        }))

-- The step in a direction, at least one unit.
abbrev pub step_size : ℤ → ℕ → ℕ → ℤ
step_size direction v dt =
    let whole = travel (times direction v) dt in if eqb_ℤ whole (pos 0) then direction else whole

-- The position after a step, and never past the goal.
abbrev pub not_past : ℤ → ℤ → ℤ → ℤ
not_past direction goal nxt =
    if ltb_ℤ (pos 0) direction && ltb_ℤ goal nxt
    then goal
    else if ltb_ℤ direction (pos 0) && ltb_ℤ nxt goal
    then goal
    else nxt

abbrev pub next_position : ℤ → ℤ → ℕ → ℕ → ℤ
next_position cur goal v dt =
    let direction = if ltb_ℤ cur goal then pos 1 else negsuc 0 in
    not_past direction goal (cur +ℤ step_size direction v dt)

-- The drive at the next position, which may be the goal.
abbrev pub after_step : FakeDrive → ℤ → ℤ → Bool → FakeDrive
after_step d nxt v reached = clamp_to_soft_limits (record d {
  position = nxt;
  velocity = if reached then pos 0 else v;
  is_moving = not reached;
  target_reached = reached;
  pp_active = if reached then false else d.pp_active;
})

unfoldable pub position_round : ℕ → FakeDrive → FakeDrive
position_round dt d =
    if eqb_ℤ d.position d.pp_goal
    then record d { velocity = pos 0; is_moving = false; target_reached = true; pp_active = false }
    else (let nxt = next_position d.position d.pp_goal (speed d) dt in
        let direction = if ltb_ℤ d.position d.pp_goal then pos 1 else negsuc 0 in
        after_step d nxt (times direction (speed d)) (eqb_ℤ nxt d.pp_goal))

unfoldable pub velocity_round : ℕ → FakeDrive → FakeDrive
velocity_round dt d =
    let tv = d.target_velocity in
    let stopped = eqb_ℤ tv (pos 0) in
    let moved = record d { velocity = tv; is_moving = not stopped; target_reached = stopped } in
    if stopped
    then moved
    else clamp_to_soft_limits (record moved { position = d.position +ℤ travel tv dt })

-- A round at the time `now`, `dt` after the last one.
unfoldable pub move : ℕ → ℕ → FakeDrive → FakeDrive
unfolding homing_round position_round velocity_round
move now dt d =
    if d.emergency_active || not (is_operation_enabled d.state)
    then stand_still d
    else if d.homing_active && eqb_ℤ d.op_mode (pos 6)
    then homing_round now dt d
    else if d.pp_active && eqb_ℤ d.op_mode (pos 1)
    then position_round dt d
    else if d.pv_active && eqb_ℤ d.op_mode (pos 3)
    then velocity_round dt d
    else record d { velocity = pos 0; is_moving = false; target_reached = true }

-- The drive and `last`, the time of the round before. A clock that went back counts as no time, and
-- a late round as a tenth of a second.
pub record Engine : Type 0 where
  pub drive : FakeDrive
  pub last : ℕ

unfoldable pub engine_round : ℕ → Engine → Engine
unfolding move
engine_round now e = record { drive = move now (min (now - e.last) 100000) e.drive; last = now }
