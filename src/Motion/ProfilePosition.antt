-- ===== src/Motion/ProfilePosition.antt =====
-- src/dryve_d1/motion/profile_position.py: `ProfilePosition`, with times in microseconds. Each wait
-- loop is given a number of rounds.
pub mod Waiting
pub mod Moves
pub mod Reached
use dryve_d.Base.{
  ℕ, zero, suc, ◌+◌, ◌%◌, ◌≤◌, max, Bool, true, false, not, ◌&&◌, ◌||◌, Option, none, some, List,
  [], ◌∷◌, ltb, leb, ◌==◌, if◌then◌else◌,
}
use dryve_d.Base.Int.{ℤ, pos, negsuc, ◌-ℤ◌, abs, ltb_ℤ, leb_ℤ, eqb_ℤ}
use dryve_d.Base.Errors.{
  Error, Result, ok, err, value_error, timeout_error, runtime_error, motion_aborted,
}
use dryve_d.Io.{
  Plant, Action, pure, raise, ◌>>=◌, ◌>>◌, when, raise_if, read_u16, read_i8, read_i32, write_u8,
  write_u16, write_u32, write_i32, sleep, now, attempt, finally, repeat,
}
use dryve_d.Od.Indices.{OdIndex, index_of}
use dryve_d.Od.Controlword.{
  CwBit, cw_set_bits, cw_clear_bits, cw_enable_operation, cw_pulse_new_set_point,
}
use dryve_d.Od.Statusword.{SwBit, position}
use dryve_d.Cia402.Bits.{bit_is_set}
use dryve_d.Motion.{write_controlword, or_else, or_default, if_given, raise_if_aborted}

-- `ProfilePositionConfig`
pub record Config : Type 0 where
  pub profile_velocity : Option ℤ
  pub acceleration : Option ℤ
  pub deceleration : Option ℤ
  pub poll_interval : ℕ
  pub move_timeout : ℕ
  pub system_cycle_delay : ℕ
  pub setpoint_ack_timeout : ℕ
  pub position_reached_window : ℤ
  pub verify_mode : Bool
  pub mode_set_timeout : ℕ
  pub mode_settle : ℕ

-- `__post_init__`
unfoldable pub checked_config : Config → Result Config
checked_config cfg = if ltb cfg.system_cycle_delay 1000 then err value_error else ok cfg

abbrev pub mode_profile_position : ℤ
mode_profile_position = pos 1

-- `set_drive_position_window`: what `_drive_position_window` is afterwards.
unfoldable pub set_drive_position_window : Option ℤ → Option ℕ
set_drive_position_window none = none
set_drive_position_window (some (pos zero)) = none
set_drive_position_window (some (pos (suc n))) = some (suc n)
set_drive_position_window (some (negsuc n)) = none

-- `_reached_window`
unfoldable pub reached_window : Config → Option ℕ → ℤ
reached_window cfg none = cfg.position_reached_window
reached_window cfg (some w) =
    if w == 0
    then cfg.position_reached_window
    else if ltb_ℤ cfg.position_reached_window (pos w)
    then pos w
    else cfg.position_reached_window

-- The controlword of a move before its start bit.
abbrev pub base_word : Bool → Bool → ℕ
base_word relative immediate =
    let with_5 =
      if immediate
      then cw_set_bits cw_enable_operation (CwBit.change_set_immediately ∷ [])
      else cw_clear_bits cw_enable_operation (CwBit.change_set_immediately ∷ []) in
    if relative
    then cw_set_bits with_5 (CwBit.abs_rel ∷ [])
    else cw_clear_bits with_5 (CwBit.abs_rel ∷ [])

module _ {S : Type 0} (p : Plant S) (aborted : S → Bool) (cfg : Config)
    (drive_window : Option ℕ) where
  -- What a round of the loop of `ensure_mode` does with the mode display.
  unfoldable pub mode_verdict : ℕ → Result ℤ → Action S (Option (Unit {0}))
  mode_verdict deadline (err e) = if cfg.verify_mode then raise e else pure (some tt)
  mode_verdict deadline (ok mode_disp) =
      if eqb_ℤ mode_disp mode_profile_position
      then pure (some tt)
      else now p >>= λ time.
          if leb deadline time
          then (if cfg.verify_mode then raise timeout_error else pure (some tt))
          else (sleep p cfg.poll_interval >> pure none)

  -- One round of the loop of `ensure_mode`.
  unfoldable pub mode_round : ℕ → Action S (Option (Unit {0}))
  mode_round deadline =
      attempt (read_i8 p (index_of OdIndex.modes_of_operation_display) 0) >>= mode_verdict deadline

  unfoldable pub ensure_mode : ℕ → Action S (Unit {0})
  ensure_mode rounds =
      write_u8 p (index_of OdIndex.modes_of_operation) mode_profile_position 0
      >> (sleep p (max 10000 cfg.mode_settle)
          >> (now p >>= λ start. repeat rounds (mode_round (start + cfg.mode_set_timeout))))

  unfoldable pub configure : Option ℤ → Option ℤ → Option ℤ → Action S (Unit {0})
  configure profile_velocity acceleration deceleration =
      if_given (or_else profile_velocity cfg.profile_velocity)
        (λ pv. write_u32 p (index_of OdIndex.profile_velocity) pv 0)
      >> (if_given (or_else acceleration cfg.acceleration)
            (λ acc. write_u32 p (index_of OdIndex.profile_acceleration) acc 0)
          >> if_given (or_else deceleration cfg.deceleration)
              (λ dec. write_u32 p (index_of OdIndex.profile_deceleration) dec 0))

  -- One round of the loop of `_wait_setpoint_ack`.
  unfoldable pub ack_round : ℕ → Action S (Option (Unit {0}))
  ack_round deadline = read_u16 p (index_of OdIndex.statusword) 0 >>= λ sw.
      if bit_is_set sw (position SwBit.op_mode_specific)
        || not (bit_is_set sw (position SwBit.target_reached))
      then pure (some tt)
      else (raise_if (bit_is_set sw (position SwBit.fault)) runtime_error
          >> (now p >>= λ time.
              if leb deadline time
              then (read_i32 p (index_of OdIndex.target_position) 0
                  >> (read_i32 p (index_of OdIndex.position_actual_value) 0 >> raise timeout_error))
              else (sleep p cfg.poll_interval >> pure none)))

  unfoldable pub wait_setpoint_ack : ℕ → ℕ → Action S (Unit {0})
  wait_setpoint_ack rounds timeout = now p >>= λ start. repeat rounds (ack_round (start + timeout))

  -- The test of completion, for a statusword that was read.
  unfoldable pub is_complete : Option ℤ → ℕ → Action S Bool
  is_complete target sw =
      if bit_is_set sw (position SwBit.target_reached)
      then elim target [
        | none ↦ pure true
        | some t ↦
            if leb_ℤ (reached_window cfg drive_window) (pos 0)
            then pure true
            else (read_i32 p (index_of OdIndex.position_actual_value) 0 >>= λ actual.
                pure (leb_ℤ (pos (abs (actual -ℤ t))) (reached_window cfg drive_window)))
      ]
      else pure false

  -- One round of the loop of `wait_target_reached`.
  unfoldable pub reached_round : Option ℤ → ℕ → Action S (Option (Unit {0}))
  reached_round target deadline =
      raise_if_aborted aborted motion_aborted
      >> (now p >>= λ loop_time. read_u16 p (index_of OdIndex.statusword) 0 >>= λ sw.
          is_complete target sw >>= λ complete.
          if complete
          then pure (some tt)
          else (raise_if (bit_is_set sw (position SwBit.fault)) runtime_error
              >> (if leb deadline loop_time
                  then (read_i32 p (index_of OdIndex.target_position) 0
                      >> (read_i32 p (index_of OdIndex.position_actual_value) 0
                          >> (attempt (read_i8 p (index_of OdIndex.modes_of_operation_display) 0)
                              >> raise timeout_error)))
                  else (sleep p cfg.poll_interval >> pure none))))

  unfoldable pub wait_target_reached : ℕ → Option ℤ → Option ℕ → Action S (Unit {0})
  wait_target_reached rounds target timeout = now p >>= λ start.
      repeat rounds (reached_round target (start + or_default timeout cfg.move_timeout))

  -- The start: bit 4 is held until the drive acknowledges, and released at every end of the wait.
  unfoldable pub handshake : ℕ → ℕ → Action S (Unit {0})
  handshake rounds base =
      write_controlword p (cw_pulse_new_set_point base).0
      >> finally (wait_setpoint_ack rounds cfg.setpoint_ack_timeout)
          (write_controlword p (cw_pulse_new_set_point base).1)

  unfoldable pub move_to : ℕ → ℤ → Bool → Bool → Option ℕ → Action S (Unit {0})
  move_to rounds target relative immediate timeout =
      raise_if (not relative && ltb_ℤ target (pos 0)) value_error
      >> (ensure_mode rounds
          >> (configure none none none
              >> (write_i32 p (index_of OdIndex.target_position) target 0
                  >> (read_u16 p (index_of OdIndex.statusword) 0
                      >> (sleep p cfg.system_cycle_delay
                          >> (handshake rounds (base_word relative immediate)
                              >> wait_target_reached rounds (some target) timeout))))))

  unfoldable pub halt : Bool → Action S (Unit {0})
  halt enabled = write_controlword p (
      if enabled
      then cw_set_bits cw_enable_operation (CwBit.halt ∷ [])
      else cw_clear_bits cw_enable_operation (CwBit.halt ∷ []))

  unfoldable pub stop : Action S (Unit {0})
  stop = halt true

-- `move_to_position`: a move with the profile given. The configuration that the helper keeps is put
-- back at every end of the move.
unfoldable pub move_to_position :
    {S : Type 0}
    → Plant S
    → (S → Bool)
    → Config
    → Option ℕ
    → ℕ
    → ℤ
    → ℤ
    → ℤ
    → ℤ
    → Option ℕ
    → Action S (Unit {0})
move_to_position p aborted cfg drive_window rounds target velocity accel decel timeout =
    move_to p aborted
      (record cfg {
        profile_velocity = some velocity;
        acceleration = some accel;
        deceleration = some decel;
      })
      drive_window rounds target false true timeout
