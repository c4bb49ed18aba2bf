-- ===== src/Api/JogStart.antt =====
-- `jog_start` and `is_jog_warm` of src/dryve_d1/api/motion_commands.py. The time to live is given in
-- milliseconds.
pub mod Paths
pub mod Started
use dryve_d.Base.{ℕ, ◌*◌, Bool, true, false, not, ◌&&◌, ◌||◌, Option, none, some, if◌then◌else◌}
use dryve_d.Base.Int.{ℤ, pos, pos_part, leb_ℤ, eqb_ℤ}
use dryve_d.Base.Errors.{Result, ok, err, guard, value_error, runtime_error}
use dryve_d.Io.{Plant, World, Action, pure, ◌>>=◌, ◌>>◌, raise_if, read_i8, sleep, attempt}
use dryve_d.Od.Indices.{OdIndex, index_of}
use dryve_d.Cia402.StateMachine as Sm
use dryve_d.Motion.Jog.{Controller, on_drive, controller, press, invalidate_mode}
use dryve_d.Motion.ProfileVelocity as Pv
use dryve_d.Api.Boundary.{check_jog_boundary}
use dryve_d.Api.Home.{check_drive_ready, require_remote}
use dryve_d.Api.Limits.{validate_velocity}
use dryve_d.Api.Move.{Setup, Timers, changing, clear_halt}
use dryve_d.Api.Stop.{Surroundings, get_status}

-- The check of the time to live, and the time in microseconds.
unfoldable pub validate_ttl : Option ℤ → Result (Unit {0})
validate_ttl none = ok tt
validate_ttl (some ttl) = guard (leb_ℤ (pos 50) ttl && leb_ℤ ttl (pos 5000)) value_error

abbrev pub ttl_time : Option ℤ → Option ℕ
ttl_time none = none
ttl_time (some ttl) = some (pos_part ttl * 1000)

-- The answer of a `try` whose exceptions mean no.
abbrev pub or_false : Result Bool → Bool
or_false (ok b) = b
or_false (err e) = false

module _ {S : Type 0} (p : Plant S) (around : Surroundings S) (aborted : S → Bool) (setup : Setup)
    (timers : Timers S) where
  unfoldable pub is_jog_warm : Action S Bool
  is_jog_warm =
      attempt (
        get_status p around >>= λ status.
        if not status.operation_enabled || status.fault
        then pure false
        else (read_i8 p (index_of OdIndex.modes_of_operation_display) 0 >>= λ mode.
            pure (eqb_ℤ mode (pos 3))))
      >>= λ r. pure (or_false r)

  -- The full initialization.
  unfoldable pub cold_start : ℕ → ℤ → Option ℕ → Action (Controller S) (Unit {0})
  cold_start rounds velocity ttl =
      invalidate_mode p aborted setup.jog
      >> (raise_if (not setup.has_components) runtime_error
          >> (on_drive (check_drive_ready p around setup.state_machine setup.has_components rounds)
              >>= λ status.
                  on_drive (clear_halt p around aborted setup timers)
                  >> (on_drive
                        (require_remote p around setup.state_machine setup.has_components status)
                      >> (on_drive (Pv.stop_velocity_zero p >> sleep p setup.mode_settle_delay)
                          >> press p aborted setup.jog velocity ttl))))

  -- The three paths, behind the checks.
  unfoldable pub start_checked : ℕ → ℤ → Option ℕ → Action (Controller S) (Unit {0})
  start_checked rounds velocity ttl = controller >>= λ c.
      if c.state.active
      then press p aborted setup.jog velocity ttl
      else (on_drive is_jog_warm >>= λ warm.
          if warm then press p aborted setup.jog velocity ttl else cold_start rounds velocity ttl)

  unfoldable pub jog_start : ℕ → ℤ → Option ℤ → Action (Controller S) (Unit {0})
  jog_start rounds velocity ttl =
      changing timers.cancel_idle_shutdown
      >> (changing timers.clear_abort
          >> (raise_if (not setup.has_components) runtime_error
              >> (Sm.lift (validate_velocity setup.limits velocity)
                  >> (Sm.lift (validate_ttl ttl)
                      >> (on_drive (check_jog_boundary p setup.limits velocity) >>= λ position.
                          start_checked rounds velocity (ttl_time ttl))))))
