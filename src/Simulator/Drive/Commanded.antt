-- ===== src/Simulator/Drive/Commanded.antt =====
-- What the controlwords of the driver make the simulated drive do.
use dryve_d.Base.{ℕ, ◌<◌, ◌≡◌, refl, sym, subst, true, false, List, [], ◌∷◌, length, arith}
use dryve_d.Base.Int.{ℤ, pos, ◌≤ℤ◌}
use dryve_d.Simulator.Drive.{Ds402State, FakeDrive, is_operation_enabled}
use dryve_d.Simulator.Drive.Arrival.{distance, ArrivedAt, rounds, rounds-arrive}
use dryve_d.Simulator.Drive.Controlword.{
  has, obey, apply_controlword, min_ℤ, max_ℤ, start_profile_position,
}

-- The words, one after the other.
abbrev obeys : ℕ → List ℕ → FakeDrive → FakeDrive
obeys now [] d = d
obeys now (cw ∷ words) d = obeys now words (apply_controlword now cw d)

-- Fault reset, shutdown, switch on and enable operation take the simulated drive from every state, a
-- fault included, to `Operation enabled` without a fault and without a motion, unless the emergency
-- button is pressed.
obeys-Enabled :
    (now : ℕ) (d : FakeDrive)
    → d.emergency_active ≡ false
    → let after = obeys now (0x80 ∷ 0x06 ∷ 0x07 ∷ 0x0F ∷ []) d in
      (after.state ≡ Ds402State.operation_enabled)
      × (after.fault ≡ false)
      × (after.pv_active ≡ false)
      × (after.pp_active ≡ false)
      × (after.homing_active ≡ false)
      × (after.position ≡ d.position)
unfolding apply_controlword obey
obeys-Enabled now d h = ground arith

-- A drive that takes an absolute set-point: enabled, in the profile position mode, bit 4 not set.
abbrev pub TakesSetPoint : FakeDrive → Type 0
TakesSetPoint d =
    (d.emergency_active ≡ false)
    × (d.fault ≡ false)
    × (is_operation_enabled d.state ≡ true)
    × (d.op_mode ≡ pos 1)
    × (d.op_mode_display ≡ pos 1)
    × (has d.last_controlword 0x10 ≡ false)
    × (d.soft_limit_min ≤ℤ d.soft_limit_max)
    × (d.soft_limit_min ≤ℤ d.position)
    × (d.position ≤ℤ d.soft_limit_max)

abbrev pub goal_of : FakeDrive → ℤ
goal_of d = max_ℤ d.soft_limit_min (min_ℤ d.soft_limit_max d.target_position)

set_point-started :
    (now : ℕ) (d : FakeDrive)
    → TakesSetPoint d
    → apply_controlword now 0x1F d
      ≡ start_profile_position now false
          (record d { state = Ds402State.operation_enabled; last_controlword = 0x1F })
unfolding apply_controlword obey
set_point-started now d (calm, no_fault, enabled, mode, shown, low, _, _, _) =
    rw (calm, no_fault, mode, shown, low) refl

goal-inside :
    (low high x : ℤ)
    → low ≤ℤ high
    → (low ≤ℤ max_ℤ low (min_ℤ high x)) × (max_ℤ low (min_ℤ high x) ≤ℤ high)
goal-inside low high x o = ground arith

-- An absolute set-point (the word 0x1F) starts a move of the simulated drive, and the move ends:
-- after more rounds of the engine than the distance has units, at whatever times they come, the
-- drive stands at the target position, or at the soft limit that the target lies beyond, and
-- reports that it has reached its target.
pub set_point-ArrivedAt :
    (now last : ℕ) (times : List ℕ) (d : FakeDrive)
    → TakesSetPoint d
    → distance (goal_of d) d.position < length times
    → ArrivedAt
        (goal_of d)
        (rounds times (record { drive = apply_controlword now 0x1F d; last = last })).drive
set_point-ArrivedAt now last times d t h =
    let (calm, _, _, mode, _, _, o, pl, ph) = t in
    let (gl, gh) = goal-inside d.soft_limit_min d.soft_limit_max d.target_position o in
    let started = set_point-started now d t in
    subst (λ x. ArrivedAt (goal_of d) (rounds times (record { drive = x; last = last })).drive)
      (sym started)
      (rounds-arrive times (record { drive = _; last = last })
        (calm, refl, mode, refl, refl, refl, gl, gh, pl, ph) h)
