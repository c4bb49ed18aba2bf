-- ===== src/Simulator/Drive/Orderly.antt =====
-- What holds of the simulated drive between any two of its operations: its state and its motions.
use dryve_d.Base.{ℕ, ◌<◌, ◌≡◌, refl, Bool, false, not, ◌&&◌, ◌||◌, List, IsBytes, arith}
use dryve_d.Simulator.Drive.{Ds402State, rank, FakeDrive, set_state, toggle_emergency}
use dryve_d.Simulator.Drive.Controlword.{
  Commands, has, decode_controlword, obey, apply_controlword, transitions, start_motion,
}
use dryve_d.Simulator.Drive.Engine.{homing_round, position_round, velocity_round, move}
use dryve_d.Simulator.Drive.Objects.{sdo_write}
use dryve_d.Simulator.Drive.Objects.Writes.{sdo_write-lem}

-- At most one motion is active.
abbrev pub Exclusive : FakeDrive → Type 0
Exclusive d =
    ((d.pv_active && (d.pp_active || d.homing_active)) ≡ false)
    × ((d.pp_active && d.homing_active) ≡ false)

-- No fault, one of the four ordinary states, the mode shown is the mode asked for.
abbrev pub IsOrderly : FakeDrive → Type 0
IsOrderly d = (d.fault ≡ false) × (rank d.state < 4) × (d.op_mode_display ≡ d.op_mode) × Exclusive d

set_state-IsOrderly :
    (st : Ds402State) (d : FakeDrive) → rank st < 4 → IsOrderly d → IsOrderly (set_state st d)
set_state-IsOrderly st d s h = ground arith

transitions-IsOrderly : (c : Commands) (d : FakeDrive) → IsOrderly d → IsOrderly (transitions c d)
transitions-IsOrderly c d h = ground arith

start_motion-IsOrderly :
    (now : ℕ) (r : Bool) (c : Commands) (d : FakeDrive)
    → IsOrderly d
    → IsOrderly (start_motion now r c d)
start_motion-IsOrderly now r c d h = ground arith

obey-IsOrderly :
    (now : ℕ) (c : Commands) (r : Bool) (d : FakeDrive) → IsOrderly d → IsOrderly (obey now c r d)
unfolding obey
obey-IsOrderly now c r d h =
    ground (arith, start_motion-IsOrderly now r c (transitions c d) (transitions-IsOrderly c d h))

apply_controlword-IsOrderly :
    (now cw : ℕ) (d : FakeDrive) → IsOrderly d → IsOrderly (apply_controlword now cw d)
unfolding apply_controlword
apply_controlword-IsOrderly now cw d h =
    let c : Commands = decode_controlword cw in
    obey-IsOrderly now c (c.new_setpoint && not (has d.last_controlword 0x10))
      (record d { last_controlword = cw }) h

pub sdo_write-IsOrderly :
    (now hi lo sub : ℕ) (raw : List ℕ) (d : FakeDrive)
    → IsBytes raw
    → IsOrderly d
    → IsOrderly (sdo_write now hi lo sub raw d).1
sdo_write-IsOrderly now hi lo sub raw d b h =
    sdo_write-lem IsOrderly now hi lo sub raw d b (λ od. h)
      (λ od. record {
        mode = λ v f. (h.0, h.1, refl, h.3);
        target_position = λ v f. h;
        profile_velocity = λ v f. h;
        acceleration = λ v f. h;
        deceleration = λ v f. h;
        target_velocity = λ v f. h;
        homing_method = λ v f. h;
        soft_limit_min = λ v f. h;
        soft_limit_max = λ v f. h;
        controlword = λ cw. apply_controlword-IsOrderly now cw (record d { od = od }) h;
      })

pub move-IsOrderly : (now dt : ℕ) (d : FakeDrive) → IsOrderly d → IsOrderly (move now dt d)
unfolding move homing_round position_round velocity_round
move-IsOrderly now dt d h = ground arith

pub toggle_emergency-IsOrderly : (d : FakeDrive) → IsOrderly d → IsOrderly (toggle_emergency d)
toggle_emergency-IsOrderly d h = ground arith
