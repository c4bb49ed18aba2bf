-- ===== src/Motion/ProfileVelocity.antt =====
-- src/dryve_d1/motion/profile_velocity.py: `ProfileVelocity`, with times in microseconds.
pub mod Setpoints
use dryve_d.Base.{
  ℕ, ◌+◌, max, Bool, true, false, not, Option, none, some, List, [], ◌∷◌, leb, if◌then◌else◌,
}
use dryve_d.Base.Int.{ℤ, pos, eqb_ℤ}
use dryve_d.Base.Errors.{timeout_error}
use dryve_d.Io.{
  Plant, World, Action, pure, raise, ◌>>=◌, ◌>>◌, read_u16, read_i8, write_u8, write_u32, write_i32,
  sleep, now, repeat,
}
use dryve_d.Od.Indices.{OdIndex, index_of}
use dryve_d.Od.Controlword.{
  CwBit, cw_set_bits, cw_clear_bits, cw_enable_operation, cw_pulse_new_set_point,
}
use dryve_d.Od.Statusword.{Flags, decode_statusword}
use dryve_d.Motion.{pulse_start, mode_shown_round, or_else, if_given, write_controlword}

-- `ProfileVelocityConfig`
pub record Config : Type 0 where
  pub acceleration : Option ℤ
  pub deceleration : Option ℤ
  pub quick_stop_decel : Option ℤ
  pub verify_mode : Bool
  pub poll_interval : ℕ
  pub mode_set_timeout : ℕ
  pub mode_settle : ℕ

abbrev pub mode_profile_velocity : ℤ
mode_profile_velocity = pos 3

module _ {S : Type 0} (p : Plant S) (cfg : Config) where
  unfoldable pub ensure_mode : ℕ → Action S (Unit {0})
  ensure_mode rounds =
      write_u8 p (index_of OdIndex.modes_of_operation) mode_profile_velocity 0
      >> (if not cfg.verify_mode
          then sleep p (max 10000 cfg.mode_settle)
          else (sleep p cfg.poll_interval
              >> (now p >>= λ start. repeat rounds (
                  mode_shown_round p cfg.poll_interval mode_profile_velocity
                    (start + cfg.mode_set_timeout)))))

  unfoldable pub configure : Option ℤ → Option ℤ → Option ℤ → Action S (Unit {0})
  configure acceleration deceleration quick_stop_decel =
      if_given (or_else acceleration cfg.acceleration)
        (λ acc. write_u32 p (index_of OdIndex.profile_acceleration) acc 0)
      >> (if_given (or_else deceleration cfg.deceleration)
            (λ dec. write_u32 p (index_of OdIndex.profile_deceleration) dec 0)
          >> if_given (or_else quick_stop_decel cfg.quick_stop_decel)
              (λ qsd. write_u32 p (index_of OdIndex.quick_stop_deceleration) qsd 0))

module _ {S : Type 0} (p : Plant S) where
  unfoldable pub set_target_velocity : ℤ → Action S (Unit {0})
  set_target_velocity velocity = write_i32 p (index_of OdIndex.target_velocity) velocity 0

  unfoldable pub latch_new_setpoint : Action S (Unit {0})
  latch_new_setpoint = pulse_start p

  unfoldable pub stop_velocity_zero : Action S (Unit {0})
  stop_velocity_zero = set_target_velocity (pos 0)

  unfoldable pub stop : Action S (Unit {0})
  stop = set_target_velocity (pos 0)

  -- Skipped while the abort event is set.
  unfoldable pub halt : (S → Bool) → Bool → Action S (Unit {0})
  halt aborted enabled w =
      (if aborted w.plant
          then pure tt
          else write_controlword p (
              if enabled
              then cw_set_bits cw_enable_operation (CwBit.halt ∷ [])
              else cw_clear_bits cw_enable_operation (CwBit.halt ∷ [])))
        w

  unfoldable pub is_target_reached_flag : Action S Bool
  is_target_reached_flag = read_u16 p (index_of OdIndex.statusword) 0 >>= λ sw.
      pure (decode_statusword sw).target_reached
