-- ===== src/Api/JogCommands.antt =====
-- `jog_update` and `jog_stop` of src/dryve_d1/api/motion_commands.py. The limit of the time to live
-- is in microseconds.
pub mod Updated
use dryve_d.Base.{ℕ, Bool, true, false, not, Option, none, some, if◌then◌else◌}
use dryve_d.Base.Int.{ℤ}
use dryve_d.Base.Errors.{
  Error, Result, ok, err, runtime_error, state_machine_error, state_machine_timeout,
  invalid_boot_state, precondition_failed, fault_reset_error,
}
use dryve_d.Io.{Plant, World, Action, pure, raise, ◌>>=◌, ◌>>◌, raise_if, attempt}
use dryve_d.Motion.Jog.{Config, Controller, on_drive, controller, update, keepalive, release}
use dryve_d.Api.Limits.{Limits}
use dryve_d.Api.Boundary.{check_jog_boundary}

-- `except RuntimeError`: the exceptions of src/dryve_d1/cia402 are kinds of it.
abbrev pub is_runtime_error : Error → Bool
is_runtime_error runtime_error = true
is_runtime_error state_machine_error = true
is_runtime_error state_machine_timeout = true
is_runtime_error invalid_boot_state = true
is_runtime_error precondition_failed = true
is_runtime_error fault_reset_error = true
is_runtime_error _ = false

module _ {S : Type 0} (p : Plant S) (aborted : S → Bool) (cfg : Config) (limits : Limits)
    (has_jog : Bool) (schedule_idle_shutdown : S → S) where
  -- What `jog_stop` does while a jog is on.
  unfoldable pub stop_and_schedule : Action (Controller S) (Unit {0})
  stop_and_schedule =
      release p aborted cfg >> update (λ c. record c { drive = schedule_idle_shutdown c.drive })

  unfoldable pub jog_stop : Action (Controller S) (Unit {0})
  jog_stop =
      raise_if (not has_jog) runtime_error
      >> (controller >>= λ c. if not c.state.active then pure tt else stop_and_schedule)

  -- What `jog_update` does after the check of the boundary.
  unfoldable pub after_check : ℤ → Option ℕ → Result ℤ → Action (Controller S) (Unit {0})
  after_check velocity ttl (ok position) = keepalive p aborted cfg (some velocity) ttl
  after_check velocity ttl (err e) = if is_runtime_error e then jog_stop else raise e

  -- What it does while a jog is on.
  unfoldable pub update_active : ℤ → Option ℕ → Action (Controller S) (Unit {0})
  update_active velocity ttl =
      attempt (on_drive (check_jog_boundary p limits velocity)) >>= after_check velocity ttl

  unfoldable pub jog_update : ℤ → Option ℕ → Action (Controller S) (Unit {0})
  jog_update velocity ttl =
      raise_if (not has_jog) runtime_error
      >> (controller >>= λ c. if not c.state.active then pure tt else update_active velocity ttl)
