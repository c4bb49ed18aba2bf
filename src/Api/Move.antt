-- ===== src/Api/Move.antt =====
-- `move_to_position` of src/dryve_d1/api/motion_commands.py, with `is_homed` of status_queries.py. The
-- state has the jog controller beside the drive.
pub mod Quiet
pub mod Refused
use Prim.Native.Nat.{bit_and}
use dryve_d.Base.{
  ℕ, ◌%◌, Bool, true, false, not, ◌||◌, ◌==◌, Option, none, some, [], ◌∷◌, if◌then◌else◌,
}
use dryve_d.Base.Int.{ℤ, pos, pos_part, eqb_ℤ}
use dryve_d.Base.Errors.{
  Error, Result, ok, err, timeout_error, connection_error, os_error, runtime_error,
}
use dryve_d.Base.Errors as Errors
use dryve_d.Io.{
  Plant, World, Action, pure, raise, ◌>>=◌, ◌>>◌, raise_if, when, read_u16, read_i8, read_i32,
  write_u8, sleep, attempt, finally,
}
use dryve_d.Od.Indices.{OdIndex, index_of}
use dryve_d.Od.Controlword.{CwBit, cw_clear_bits, cw_enable_operation}
use dryve_d.Od.Statusword.{Flags}
use dryve_d.Cia402.StateMachine as Sm
use dryve_d.Motion.{write_controlword}
use dryve_d.Motion.Jog as Jog
use dryve_d.Motion.Jog.{Controller, on_drive, controller, update, release}
use dryve_d.Motion.ProfilePosition as Pp
use dryve_d.Api.Stop.{Surroundings, get_status_live}
use dryve_d.Api.Home.{enable_operation, require_remote}
use dryve_d.Api.Limits.{Limits, validate_motion_params, validate_position_limits}

-- `except (TimeoutError, ConnectionError, OSError): raise`
abbrev pub is_transport_error : Error → Bool
is_transport_error timeout_error = true
is_transport_error connection_error = true
is_transport_error os_error = true
is_transport_error _ = false

-- The configuration of the drive, its helpers, and whether these are there.
pub record Setup : Type 0 where
  pub state_machine : Sm.Config
  pub profile_position : Pp.Config
  pub jog : Jog.Config
  pub limits : Limits
  pub drive_window : Option ℕ
  pub motion_precheck_delay : ℕ
  pub mode_settle_delay : ℕ
  pub has_components : Bool

-- What the command does to the idle timer, and the new abort token with the abort event cleared.
pub record Timers (S : Type 0) : Type 0 where
  pub cancel_idle_shutdown : S → S
  pub schedule_idle_shutdown : S → S
  pub clear_abort : S → S

-- The arguments of the command.
pub record MoveCommand : Type 0 where
  pub target_position : ℤ
  pub velocity : ℤ
  pub accel : ℤ
  pub decel : ℤ
  pub timeout : ℤ
  pub require_homing : Bool

-- A change of the drive's surroundings.
abbrev pub changing : {S : Type 0} → (S → S) → Action (Controller S) (Unit {0})
changing f = update (λ c. record c { drive = f c.drive })

module _ {S : Type 0} (p : Plant S) (around : Surroundings S) (aborted : S → Bool) (setup : Setup)
    (timers : Timers S) where
  -- The `try` of `_prepare_motion_context`.
  unfoldable pub release_jog : Action (Controller S) (Unit {0})
  release_jog =
      raise_if (not setup.has_components) runtime_error
      >> (controller >>= λ c.
          if not c.state.active
          then pure tt
          else (release p aborted setup.jog >> on_drive (sleep p setup.motion_precheck_delay)))

  -- `_prepare_motion_context`
  unfoldable pub prepare_motion_context : Bool → Action (Controller S) Flags
  prepare_motion_context is_connected =
      raise_if (not is_connected) runtime_error
      >> (changing timers.cancel_idle_shutdown
          >> (on_drive (get_status_live p around) >>= λ status. attempt release_jog >> pure status))

  abbrev pub is_wrong_mode : Result ℤ → Bool
  is_wrong_mode (ok current_mode) = not (eqb_ℤ current_mode (pos 1))
  is_wrong_mode (err e) = true

  -- `_ensure_mode_pp`
  unfoldable pub ensure_mode_pp : ℕ → Flags → Action S Flags
  ensure_mode_pp rounds status =
      attempt (read_i8 p (index_of OdIndex.modes_of_operation_display) 0) >>= λ current.
      if not status.operation_enabled || is_wrong_mode current
      then (write_u8 p (index_of OdIndex.modes_of_operation) (pos 1) 0
          >> (sleep p setup.mode_settle_delay
              >> (when (not status.operation_enabled)
                    (enable_operation p around setup.state_machine setup.has_components rounds)
                  >> get_status_live p around)))
      else pure status

  -- The two checks of the arguments, as an exception.
  abbrev pub checked : MoveCommand → Result (Unit {0})
  checked m =
      Errors.◌>>◌ (validate_motion_params setup.limits m.velocity m.accel m.decel m.timeout)
        (validate_position_limits setup.limits m.target_position)

  unfoldable pub clear_halt : Action S (Unit {0})
  clear_halt =
      write_controlword p (cw_clear_bits cw_enable_operation (CwBit.halt ∷ []) % 65536)
      >> sleep p setup.mode_settle_delay

  -- What follows the read of `is_homed`.
  abbrev pub homed_or_raise : Result ℕ → Action S Bool
  homed_or_raise (ok homing_status) = pure (not (bit_and homing_status 0x01 == 0))
  homed_or_raise (err e) = if is_transport_error e then raise e else pure false

  unfoldable pub is_homed : Action S Bool
  is_homed = attempt (read_u16 p (index_of OdIndex.homing_status) 0) >>= homed_or_raise

  -- The command behind the checks. The position that is read first, and that the drive is homed,
  -- are only logged.
  unfoldable pub start_move : ℕ → MoveCommand → Action (Controller S) (Unit {0})
  start_move rounds m =
      on_drive clear_halt
      >> (raise_if (not setup.has_components) runtime_error
          >> (on_drive (attempt (read_i32 p (index_of OdIndex.position_actual_value) 0))
              >> (changing timers.clear_abort
                  >> (when m.require_homing (on_drive is_homed >> pure tt)
                      >> finally
                          (on_drive (
                            Pp.move_to_position p aborted setup.profile_position setup.drive_window
                              rounds m.target_position m.velocity m.accel m.decel
                              (some (pos_part m.timeout))))
                          (changing timers.schedule_idle_shutdown)))))

  unfoldable pub move_to_position : ℕ → Bool → MoveCommand → Action (Controller S) (Unit {0})
  move_to_position rounds is_connected m = prepare_motion_context is_connected >>= λ before.
      on_drive (ensure_mode_pp rounds before) >>= λ status.
      on_drive (require_remote p around setup.state_machine setup.has_components status)
      >> (Sm.lift (checked m) >> start_move rounds m)
