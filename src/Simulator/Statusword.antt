-- ===== src/Simulator/Statusword.antt =====
-- The statusword of the simulated drive: `make_statusword` of `FakeDriveState` in the simulator.
pub mod Accepted
pub mod Inferred
use Prim.Native.Nat.{bit_or}
use dryve_d.Base.{ℕ, ◌%◌, Bool, true, false, not, ◌&&◌, if◌then◌else◌}
use dryve_d.Base.Int.{pos, eqb_ℤ}
use dryve_d.Simulator.Drive.{Ds402State, FakeDrive}

-- The bits of the state: ready 0, switched on 1, operation enabled 2, fault 3, voltage enabled 4,
-- quick stop 5, switch on disabled 6.
abbrev pub state_bits : Ds402State → ℕ
state_bits Ds402State.switch_on_disabled = 0x40
state_bits Ds402State.ready_to_switch_on = bit_or (bit_or 0x01 0x20) 0x10
state_bits Ds402State.switched_on = bit_or (bit_or (bit_or 0x01 0x02) 0x20) 0x10
state_bits Ds402State.operation_enabled = bit_or (bit_or (bit_or (bit_or 0x01 0x02) 0x04) 0x20) 0x10
state_bits Ds402State.fault = bit_or 0x08 0x40
state_bits Ds402State.quick_stop_active = bit_or (bit_or 0x01 0x02) 0x10

-- `if condition: sw |= flag`
abbrev pub set_if : Bool → ℕ → ℕ → ℕ
set_if condition flag sw = if condition then bit_or sw flag else sw

-- The word, from the state and the conditions of the flags.
abbrev pub word_of : Ds402State → Bool → Bool → Bool → Bool → Bool → ℕ
word_of state faulty warned reached attained failed =
    set_if failed 0x2000 (
      set_if attained 0x1000 (
        set_if reached 0x0400
          (bit_or (set_if warned 0x80 (set_if faulty 0x08 (state_bits state))) 0x0200)))
    % 65536

unfoldable pub make_statusword : FakeDrive → ℕ
make_statusword d =
    let homing = eqb_ℤ d.op_mode (pos 6) in
    word_of d.state d.fault d.warning (d.target_reached && not d.is_moving) (homing && d.homed)
      (homing && d.homing_error)
