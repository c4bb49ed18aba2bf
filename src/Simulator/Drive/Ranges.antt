-- ===== src/Simulator/Drive/Ranges.antt =====
-- What holds of the simulated drive between any two of its operations: the sizes of its numbers.
use dryve_d.Base.{
  ℕ, ◌-◌, leb, ◌≤◌, Bool, true, false, not, ◌&&◌, ◌||◌, List, IsBytes, arith, ◌==◌, if◌then◌else◌,
}
use dryve_d.Base.Int.{ℤ, pos, negsuc, ltb_ℤ, ◌≤ℤ◌, ◌+ℤ◌, eqb_ℤ}
use dryve_d.Protocol.Codec.RoundTrip.{Fits}
use dryve_d.Simulator.Drive.{
  Ds402State, rank, is_operation_enabled, FakeDrive, set_state, clamp_position,
  clamp_to_soft_limits, speed, toggle_emergency,
}
use dryve_d.Simulator.Drive.Controlword.{
  Commands, has, decode_controlword, obey, apply_controlword, transitions, start_motion,
}
use dryve_d.Simulator.Drive.Engine.{
  times, travel, homing_direction, homing_position, next_position, homing_round, position_round,
  velocity_round, move,
}
use dryve_d.Simulator.Drive.Objects.{sdo_write}
use dryve_d.Simulator.Drive.Objects.Writes.{sdo_write-lem}

-- A value that `struct.pack("<i", …)` takes.
abbrev pub IsI32 : ℤ → Type 0
IsI32 x = (negsuc 2147483647 ≤ℤ x) × (x ≤ℤ pos 2147483647)

-- Every number that is packed, and the position within the soft limits where these are in order.
abbrev pub InRange : FakeDrive → Type 0
InRange d =
    IsI32 d.position
    × IsI32 d.velocity
    × IsI32 d.target_position
    × IsI32 d.profile_velocity
    × IsI32 d.acceleration
    × IsI32 d.deceleration
    × IsI32 d.target_velocity
    × IsI32 d.soft_limit_min
    × IsI32 d.soft_limit_max
    × Fits d.op_mode 1 true
    × Fits d.homing_method 1 false
    × (d.soft_limit_min ≤ℤ d.soft_limit_max
        → (d.soft_limit_min ≤ℤ d.position) × (d.position ≤ℤ d.soft_limit_max))

clamp-IsI32 : (low high x : ℤ) → IsI32 low → IsI32 high → IsI32 (clamp_position low high x)
clamp-IsI32 low high x l h = ground arith

clamp-within :
    (low high x : ℤ)
    → low ≤ℤ high
    → (low ≤ℤ clamp_position low high x) × (clamp_position low high x ≤ℤ high)
clamp-within low high x o = ground arith

speed-le : (d : FakeDrive) → speed d ≤ 20000
speed-le d = omega arith

-- After a change of the position and the velocity that ends in a clamp.
clamped-InRange :
    (d : FakeDrive) (x v : ℤ)
    → InRange d
    → IsI32 v
    → InRange (clamp_to_soft_limits (record d { position = x; velocity = v }))
clamped-InRange d x v (_, _, h2, h3, h4, h5, h6, low, high, h9, h10, _) i = (
  clamp-IsI32 d.soft_limit_min d.soft_limit_max x low high,
  i,
  h2,
  h3,
  h4,
  h5,
  h6,
  low,
  high,
  h9,
  h10,
  clamp-within d.soft_limit_min d.soft_limit_max x,
)

-- After new soft limits, and the clamp.
limited-InRange :
    (d : FakeDrive) (low high : ℤ)
    → InRange d
    → IsI32 low
    → IsI32 high
    → InRange (clamp_to_soft_limits (record d { soft_limit_min = low; soft_limit_max = high }))
limited-InRange d low high (_, h1, h2, h3, h4, h5, h6, _, _, h9, h10, _) l u = (
  clamp-IsI32 low high d.position l u,
  h1,
  h2,
  h3,
  h4,
  h5,
  h6,
  l,
  u,
  h9,
  h10,
  clamp-within low high d.position,
)

-- After a new velocity and target velocity.
moving-InRange :
    (d : FakeDrive) (v target : ℤ)
    → InRange d
    → IsI32 v
    → IsI32 target
    → InRange (record d { velocity = v; target_velocity = target })
moving-InRange d v target (h0, _, h2, h3, h4, h5, _, low, high, h9, h10, h11) i j =
    (h0, i, h2, h3, h4, h5, j, low, high, h9, h10, h11)

zero-IsI32 : IsI32 (pos 0)
zero-IsI32 = omega arith

halted-InRange :
    (d : FakeDrive) → InRange d → InRange (record d { velocity = pos 0; target_velocity = pos 0 })
halted-InRange d h = moving-InRange d (pos 0) (pos 0) h zero-IsI32 zero-IsI32

if-InRange : (b : Bool) (x y : FakeDrive) → InRange x → InRange y → InRange (if b then x else y)
if-InRange true x y h k = h
if-InRange false x y h k = k

start_motion-InRange :
    (now : ℕ) (r : Bool) (c : Commands) (d : FakeDrive)
    → InRange d
    → InRange (start_motion now r c d)
start_motion-InRange now r c d h =
    if-InRange (r && (is_operation_enabled d.state && eqb_ℤ d.op_mode_display d.op_mode)) _ d
      (if-InRange (eqb_ℤ d.op_mode (pos 6)) _ _ h (
        if-InRange (eqb_ℤ d.op_mode (pos 1)) _ _ h (
          if-InRange (eqb_ℤ d.op_mode (pos 3)) _ d
            (if-InRange (eqb_ℤ d.target_velocity (pos 0)) _ _
              (moving-InRange d (pos 0) d.target_velocity h zero-IsI32 h.6) h)
            h)))
      h

enter-InRange :
    (b : Bool) (st : Ds402State) (d : FakeDrive)
    → InRange d
    → InRange (if b then set_state st d else d)
enter-InRange true st d h = h
enter-InRange false st d h = h

transitions-InRange : (c : Commands) (d : FakeDrive) → InRange d → InRange (transitions c d)
transitions-InRange c d h =
    let shut = if c.shutdown then set_state Ds402State.ready_to_switch_on d else d in
    let switch = c.switch_on && leb 1 (rank shut.state) in
    let switched = if switch then set_state Ds402State.switched_on shut else shut in
    enter-InRange (c.enable_op && leb 2 (rank switched.state)) Ds402State.operation_enabled switched
      (enter-InRange switch Ds402State.switched_on shut
        (enter-InRange c.shutdown Ds402State.ready_to_switch_on d h))

obey-InRange :
    (now : ℕ) (c : Commands) (r : Bool) (d : FakeDrive) → InRange d → InRange (obey now c r d)
unfolding obey
obey-InRange now c r d h =
    let halted = halted-InRange d h in
    if-InRange c.fault_reset _ _ halted (
      if-InRange d.emergency_active _ _ halted (
        if-InRange c.halt _ _ halted (
          if-InRange (c.quick_stop && (rank d.state == 3 || rank d.state == 5)) _ _ halted (
            if-InRange d.fault _ _ h
              (start_motion-InRange now r c (transitions c d) (transitions-InRange c d h))))))

apply_controlword-InRange :
    (now cw : ℕ) (d : FakeDrive) → InRange d → InRange (apply_controlword now cw d)
unfolding apply_controlword
apply_controlword-InRange now cw d h =
    let c : Commands = decode_controlword cw in
    obey-InRange now c (c.new_setpoint && not (has d.last_controlword 0x10))
      (record d { last_controlword = cw }) h

pub sdo_write-InRange :
    (now hi lo sub : ℕ) (raw : List ℕ) (d : FakeDrive)
    → IsBytes raw
    → InRange d
    → InRange (sdo_write now hi lo sub raw d).1
sdo_write-InRange now hi lo sub raw d b h =
    let (h0, h1, h2, h3, h4, h5, h6, low, high, h9, h10, h11) = h in
    sdo_write-lem InRange now hi lo sub raw d b (λ od. h)
      (λ od. record {
        mode = λ v f. (h0, h1, h2, h3, h4, h5, h6, low, high, f, h10, h11);
        target_position = λ v f. (h0, h1, f, h3, h4, h5, h6, low, high, h9, h10, h11);
        profile_velocity = λ v f. (h0, h1, h2, f, h4, h5, h6, low, high, h9, h10, h11);
        acceleration = λ v f. (h0, h1, h2, h3, f, h5, h6, low, high, h9, h10, h11);
        deceleration = λ v f. (h0, h1, h2, h3, h4, f, h6, low, high, h9, h10, h11);
        target_velocity = λ v f. (h0, h1, h2, h3, h4, h5, f, low, high, h9, h10, h11);
        homing_method = λ v f. (h0, h1, h2, h3, h4, h5, h6, low, high, h9, f, h11);
        soft_limit_min = λ v f. limited-InRange d v d.soft_limit_max h f high;
        soft_limit_max = λ v f. limited-InRange d d.soft_limit_min v h low f;
        controlword = λ cw. apply_controlword-InRange now cw (record d { od = od }) h;
      })

-- The speeds that the engine sets on its own.
unit_speed-IsI32 :
    (d : FakeDrive) (up : Bool) → IsI32 (times (if up then pos 1 else negsuc 0) (speed d))
unit_speed-IsI32 d true = omega (arith, speed-le d)
unit_speed-IsI32 d false = ground (arith, speed-le d)

homing_speed-IsI32 : (d : FakeDrive) → IsI32 (times (homing_direction d.position) (speed d))
homing_speed-IsI32 d = ground (arith, speed-le d)

zero_if-IsI32 : (b : Bool) (x : ℤ) → IsI32 x → IsI32 (if b then pos 0 else x)
zero_if-IsI32 true x h = zero-IsI32
zero_if-IsI32 false x h = h

-- The branches of a round, whatever their other fields.
record Branch (d : FakeDrive) : Type 0 where
  range : InRange d

branches : (b : Bool) (x y : FakeDrive) → Branch x → Branch y → Branch (if b then x else y)
branches true x y h k = h
branches false x y h k = k

homing_round-Branch : (now dt : ℕ) (d : FakeDrive) → InRange d → Branch (homing_round now dt d)
unfolding homing_round
homing_round-Branch now dt d h =
    let v = times (homing_direction d.position) (speed d) in
    let x = homing_position (homing_direction d.position) d.position (travel v dt) in
    branches (leb d.homing_duration (now - d.homing_started_at) && leb d.homing_started_at now) _ _
      (record { range = clamped-InRange d (pos 0) (pos 0) h zero-IsI32 })
      (record { range = clamped-InRange d x v h (homing_speed-IsI32 d) })

position_round-Branch : (dt : ℕ) (d : FakeDrive) → InRange d → Branch (position_round dt d)
unfolding position_round
position_round-Branch dt d h =
    let nxt = next_position d.position d.pp_goal (speed d) dt in
    let up = ltb_ℤ d.position d.pp_goal in
    let v = times (if up then pos 1 else negsuc 0) (speed d) in
    let reached = eqb_ℤ nxt d.pp_goal in
    branches (eqb_ℤ d.position d.pp_goal) _ _
      (record { range = moving-InRange d (pos 0) d.target_velocity h zero-IsI32 h.6 })
      (record {
        range =
            clamped-InRange d nxt (if reached then pos 0 else v) h
              (zero_if-IsI32 reached v (unit_speed-IsI32 d up));
      })

velocity_round-Branch : (dt : ℕ) (d : FakeDrive) → InRange d → Branch (velocity_round dt d)
unfolding velocity_round
velocity_round-Branch dt d h =
    let tv = d.target_velocity in
    branches (eqb_ℤ tv (pos 0)) _ _ (record { range = moving-InRange d tv tv h h.6 h.6 })
      (record { range = clamped-InRange d (d.position +ℤ travel tv dt) tv h h.6 })

move-Branch : (now dt : ℕ) (d : FakeDrive) → InRange d → Branch (move now dt d)
unfolding move
move-Branch now dt d h =
    branches (d.emergency_active || not (is_operation_enabled d.state)) _ _
      (record { range = halted-InRange d h })
      (branches (d.homing_active && eqb_ℤ d.op_mode (pos 6)) _ _ (homing_round-Branch now dt d h) (
        branches (d.pp_active && eqb_ℤ d.op_mode (pos 1)) _ _ (position_round-Branch dt d h) (
          branches (d.pv_active && eqb_ℤ d.op_mode (pos 3)) _ _ (velocity_round-Branch dt d h)
            (record { range = moving-InRange d (pos 0) d.target_velocity h zero-IsI32 h.6 }))))

pub move-InRange : (now dt : ℕ) (d : FakeDrive) → InRange d → InRange (move now dt d)
move-InRange now dt d h = (move-Branch now dt d h).range

pub toggle_emergency-InRange : (d : FakeDrive) → InRange d → InRange (toggle_emergency d)
toggle_emergency-InRange d h = if-InRange d.emergency_active _ _ h (halted-InRange d h)
