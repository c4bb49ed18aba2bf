-- ===== src/Tests/Simulated.antt =====
-- Runs of the simulated drive, and the theorems about it at concrete inputs.
use dryve_d.Base.{some, ◌*◌, ◌+◌, ◌≡◌, refl, true, [], ◌∷◌, arith}
use dryve_d.Io.{World}
use dryve_d.Cia402.StateMachine.{Config, run_to_operation_enabled}
use dryve_d.Exchange.Enabled.{run-Enabled}
use dryve_d.Exchange.Plant.{Simulation, simulation}
use dryve_d.Exchange.Words.{command, In}
use dryve_d.Exchange.Limits.{limit, get_position_limits-set_position_limits}
use dryve_d.Api.Status.{set_position_limits, get_position_limits}
use dryve_d.Base.Int.{pos}
use dryve_d.Base.Errors.{ok, err, struct_error}
use dryve_d.Protocol.Codec.{pack_int, unpack_int, from_bytes}
use dryve_d.Simulator.Drive.{Ds402State, FakeDrive, new_drive}
use dryve_d.Simulator.Drive.Arrival.{ArrivedAt, rounds}
use dryve_d.Simulator.Drive.Commanded.{set_point-ArrivedAt}
use dryve_d.Simulator.Drive.Controlword.{apply_controlword}
use dryve_d.Simulator.Drive.Objects.{sdo_read, sdo_write}
use dryve_d.Simulator.Drive.Objects.Reads.{ReadEnd, Reachable-ReadEnd}
use dryve_d.Simulator.Drive.Reachable.{IsSound, Reachable, started, next, wrote, Reachable-IsSound}

-- A drive that was enabled in the profile position mode, with its target three units away.
abbrev ready : FakeDrive
ready = record new_drive {
  state = Ds402State.operation_enabled;
  op_mode = pos 1;
  op_mode_display = pos 1;
  target_position = pos 3;
}

set_point-ArrivedAt_example :
    ArrivedAt
      (pos 3)
      (rounds
        (20 ∷ 20 ∷ 40 ∷ 60 ∷ [])
        (record { drive = apply_controlword 7 0x1F ready; last = 0 })).drive
set_point-ArrivedAt_example =
    set_point-ArrivedAt 7 0 (20 ∷ 20 ∷ 40 ∷ 60 ∷ []) ready
      (refl, refl, refl, refl, refl, refl, omega arith, omega arith, omega arith) (omega arith)

-- A client writes the mode -1, and the engine turns.
abbrev wrote_mode : FakeDrive
wrote_mode = (sdo_write 9 0x60 0x60 0 (0xFF ∷ []) new_drive).1

wrote_mode-Reachable : Reachable (record { drive = wrote_mode; last = 3 })
wrote_mode-Reachable =
    next (started 3)
      (wrote (record { drive = new_drive; last = 3 }) 9 0x60 0x60 0 (0xFF ∷ []) (omega arith, tt))

Reachable-IsSound_example : IsSound (record { drive = wrote_mode; last = 3 })
Reachable-IsSound_example = Reachable-IsSound wrote_mode-Reachable

Reachable-ReadEnd_example :
    ReadEnd (0x60 * 256 + 0x60) wrote_mode (sdo_read 0x60 0x60 0 1 wrote_mode)
Reachable-ReadEnd_example = Reachable-ReadEnd wrote_mode-Reachable 0x60 0x60 0 1

-- The read of the mode that was written raises.
mode_lost : sdo_read 0x60 0x60 0 1 wrote_mode ≡ err struct_error
unfolding sdo_read sdo_write pack_int unpack_int from_bytes
mode_lost = refl

-- The driver's way to `Operation enabled`, from the start of the drive.
abbrev polled : Config
polled = record {
  poll_interval = 50000;
  step_timeout = 5000000;
  fault_reset_timeout = 10000000;
  require_remote = true;
}

abbrev fresh : World Simulation
fresh = record { plant = (new_drive, 0); sent = [] }

run-Enabled_example :
    (v : World Simulation) × (run_to_operation_enabled simulation polled 1 fresh ≡ some (ok tt, v))
    × In Ds402State.operation_enabled v
    × (v.sent ≡ command 0x06 ∷ command 0x07 ∷ command 0x0F ∷ [])
run-Enabled_example = run-Enabled polled 0 fresh (omega arith) (refl, refl)

get_position_limits-set_position_limits_example :
    (v : World Simulation) × (set_position_limits simulation true (pos 0) (pos 120000) fresh
      ≡ some (ok tt, v))
    × (v.sent ≡ limit (pos 0) 1 ∷ limit (pos 120000) 2 ∷ [])
    × (v.plant.0.soft_limit_min ≡ pos 120000)
    × (v.plant.0.soft_limit_max ≡ fresh.plant.0.soft_limit_max)
    × (get_position_limits simulation true v ≡ some (ok (pos 120000, pos 120000), v))
get_position_limits-set_position_limits_example =
    get_position_limits-set_position_limits (pos 0) (pos 120000) fresh (omega arith) (omega arith)
      (λ h. absurd (omega (arith, h)))
