-- ===== src/Api/Stop.antt =====
-- The stop of src/dryve_d1/api/motion_commands.py, with the status that it reads from
-- status_queries.py.
pub mod Halted
use dryve_d.Base.{
  ℕ, ◌%◌, Bool, true, false, not, ◌&&◌, ◌||◌, Option, none, some, [], ◌∷◌, if◌then◌else◌,
}
use dryve_d.Base.Int.{ℤ, pos, eqb_ℤ}
use dryve_d.Base.Errors.{Result, ok, err, runtime_error}
use dryve_d.Io.{Plant, World, Action, pure, ◌>>=◌, ◌>>◌, raise_if, read_u16, read_i8, attempt}
use dryve_d.Od.Indices.{OdIndex, index_of}
use dryve_d.Od.Controlword.{CwBit, cw_set_bits, cw_enable_operation}
use dryve_d.Od.Statusword.{Flags, decode_statusword}
use dryve_d.Cia402.StateMachine as Sm
use dryve_d.Motion.{write_controlword}
use dryve_d.Motion.ProfilePosition as Pp
use dryve_d.Motion.ProfileVelocity as Pv

-- Which of `_sm`, `_pp` and `_pv` are there: none of them before the connection.
pub record Components : Type 0 where
  pub state_machine : Bool
  pub profile_position : Bool
  pub profile_velocity : Bool

-- The mode of `_execute_stop`.
pub data StopMode : Type 0 where
  quick normal : StopMode

-- The flags in the latest snapshot of the telemetry, if there are any, and the rotation of the abort
-- token with the abort event set.
pub record Surroundings (S : Type 0) : Type 0 where
  pub decoded_status : S → Option Flags
  pub set_abort : S → S

module _ {S : Type 0} (p : Plant S) (around : Surroundings S) where
  unfoldable pub get_status_live : Action S Flags
  get_status_live = read_u16 p (index_of OdIndex.statusword) 0 >>= λ sw. pure (decode_statusword sw)

  abbrev pub cached_or_live : Option Flags → Action S Flags
  cached_or_live none = get_status_live
  cached_or_live (some flags) = pure flags

  unfoldable pub get_status : Action S Flags
  get_status w = cached_or_live (around.decoded_status w.plant) w

  -- A write of the halt bit with the hold bits, and whether it succeeded.
  unfoldable pub try_halt : Action S Bool
  try_halt =
      attempt (write_controlword p (cw_set_bits cw_enable_operation (CwBit.halt ∷ []))) >>= λ r.
      pure (elim r [ ok _ ↦ true | err _ ↦ false ])

  unfoldable pub halt_motor : Action S Bool
  halt_motor = try_halt >>= λ written. if written then pure true else try_halt

  module _ (cfg : Sm.Config) (pp_cfg : Pp.Config) (drive_window : Option ℕ) (aborted : S → Bool)
      (components : Components) where
    -- The stop that fits the mode that the drive is in.
    unfoldable pub stop_in_mode : ℕ → ℤ → Action S (Unit {0})
    stop_in_mode rounds mode =
        if eqb_ℤ mode (pos 1) && components.profile_position
        then Pp.stop p aborted pp_cfg drive_window
        else if eqb_ℤ mode (pos 3) && components.profile_velocity
        then Pv.stop p
        else Sm.quick_stop p cfg rounds

    -- The inner `try` of `_execute_stop`.
    unfoldable pub stop_enabled : StopMode → ℕ → Action S (Unit {0})
    stop_enabled mode rounds = get_status >>= λ status.
        if not (status.operation_enabled || status.quick_stop)
        then pure tt
        else (raise_if (not components.state_machine) runtime_error
            >> elim mode as (λ _. Action S (Unit {0})) [
              | quick ↦ Sm.quick_stop p cfg rounds
              | normal ↦
                  read_i8 p (index_of OdIndex.modes_of_operation_display) 0 >>= λ mode_display.
                  stop_in_mode rounds mode_display
            ])

    unfoldable pub execute_stop : StopMode → ℕ → Action S (Unit {0})
    execute_stop mode rounds w =
        (halt_motor >> (attempt (stop_enabled mode rounds) >> pure tt))
          (record w { plant = around.set_abort w.plant })
