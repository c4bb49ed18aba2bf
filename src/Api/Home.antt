-- ===== src/Api/Home.antt =====
-- `home` and the preconditions of motion in src/dryve_d1/api/motion_commands.py.
pub mod Outcomes
use dryve_d.Base.{ℕ, Bool, not, Option, none, some, [], ◌∷◌, if◌then◌else◌}
use dryve_d.Base.Int.{pos}
use dryve_d.Base.Errors.{runtime_error, precondition_failed}
use dryve_d.Io.{
  Plant, World, Action, pure, raise, ◌>>=◌, ◌>>◌, raise_if, when, read_u16, write_u16, sleep,
}
use dryve_d.Od.Indices.{OdIndex, index_of}
use dryve_d.Od.Controlword.{CwBit, cw_set_bits, cw_enable_operation, cw_disable_voltage}
use dryve_d.Od.Statusword.{Flags}
use dryve_d.Cia402.StateMachine as Sm
use dryve_d.Motion.{write_controlword}
use dryve_d.Motion.Homing as Homing
use dryve_d.Api.Stop.{Surroundings, get_status, get_status_live}

module _ {S : Type 0} (p : Plant S) (around : Surroundings S) (cfg : Sm.Config)
    (has_components : Bool) where
  unfoldable pub enable_operation : ℕ → Action S (Unit {0})
  enable_operation rounds =
      raise_if (not has_components) runtime_error >> Sm.run_to_operation_enabled p cfg rounds

  -- The keepalive is held off first, by the parameter.
  unfoldable pub disable_voltage : (S → S) → Action S (Unit {0})
  disable_voltage suppress_keepalive w =
      (write_u16 p (index_of OdIndex.controlword) (pos cw_disable_voltage) 0 >> sleep p 300000)
        (record w { plant = suppress_keepalive w.plant })

  -- `fault_reset`, with its argument `recover`.
  unfoldable pub fault_reset : ℕ → Bool → Action S (Unit {0})
  fault_reset rounds recover =
      raise_if (not has_components) runtime_error
      >> (get_status p around >>= λ status_before.
          Sm.fault_reset p cfg rounds
          >> when recover (
              when status_before.fault (
                Sm.run_to_operation_enabled p cfg rounds
                >> write_controlword p (cw_set_bits cw_enable_operation (CwBit.halt ∷ [])))))

  -- `_check_drive_ready`
  unfoldable pub check_drive_ready : ℕ → Action S Flags
  check_drive_ready rounds = get_status_live p around >>= λ status.
      raise_if status.fault runtime_error
      >> (if not status.operation_enabled
          then (enable_operation rounds >> get_status_live p around)
          else pure status)

  -- `_require_remote`
  unfoldable pub require_remote : Flags → Action S (Unit {0})
  require_remote status =
      if not status.remote
      then (read_u16 p (index_of OdIndex.statusword) 0 >> raise precondition_failed)
      else pure tt

  -- `self._abort_event.clear()` is the parameter.
  unfoldable pub home :
      Bool → (S → S) → (S → Bool) → Homing.Config → ℕ → Option ℕ → Action S Homing.HomingResult
  home is_connected clear_abort aborted homing_cfg rounds timeout =
      raise_if (not is_connected) runtime_error
      >> (check_drive_ready rounds >>= λ status.
          require_remote status
          >> (raise_if (not has_components) runtime_error >> (λ w.
              Homing.run p aborted homing_cfg rounds timeout
                (record w { plant = clear_abort w.plant }))))
