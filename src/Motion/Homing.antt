-- ===== src/Motion/Homing.antt =====
-- src/dryve_d1/motion/homing.py: `Homing`, with times in microseconds.
pub mod Homed
use dryve_d.Base.{
  ℕ, ◌+◌, ◌%◌, Bool, true, false, not, ◌||◌, Option, none, some, ltb, leb, if◌then◌else◌,
}
use dryve_d.Base.Int.{ℤ, pos, low_byte}
use dryve_d.Base.Errors.{Error, Result, ok, err, value_error, timeout_error, motion_aborted}
use dryve_d.Io.{
  Plant, Action, pure, raise, ◌>>=◌, ◌>>◌, when, read_u16, read_i8, write_u8, write_u16, write_u32,
  sleep, now, repeat,
}
use dryve_d.Od.Indices.{OdIndex, index_of}
use dryve_d.Od.Controlword.{cw_enable_operation, cw_pulse_new_set_point}
use dryve_d.Od.Statusword.{SwBit, position}
use dryve_d.Cia402.Bits.{bit_is_set}
use dryve_d.Motion.{pulse_start, mode_shown_round, or_else, or_default, if_given, raise_if_aborted}

-- `HomingConfig`
pub record Config : Type 0 where
  pub method : ℤ
  pub skip_method_write : Bool
  pub speed_search : Option ℤ
  pub speed_switch : Option ℤ
  pub acceleration : Option ℤ
  pub poll_interval : ℕ
  pub timeout : ℕ
  pub system_cycle_delay : ℕ
  pub verify_mode : Bool
  pub mode_set_timeout : ℕ

-- `__post_init__`
unfoldable pub checked_config : Config → Result Config
checked_config cfg = if ltb cfg.system_cycle_delay 1000 then err value_error else ok cfg

-- `HomingResult`
pub record HomingResult : Type 0 where
  pub attained : Bool
  pub error : Bool
  pub statusword : ℕ

abbrev pub mode_homing : ℤ
mode_homing = pos 6

module _ {S : Type 0} (p : Plant S) (aborted : S → Bool) (cfg : Config) where
  unfoldable pub ensure_mode : ℕ → Action S (Unit {0})
  ensure_mode rounds =
      write_u8 p (index_of OdIndex.modes_of_operation) mode_homing 0
      >> (if not cfg.verify_mode
          then pure tt
          else (now p >>= λ start.
              repeat rounds
                (mode_shown_round p cfg.poll_interval mode_homing (start + cfg.mode_set_timeout))))

  unfoldable pub configure : Option ℤ → Option ℤ → Option ℤ → Option ℤ → Action S (Unit {0})
  configure method speed_search speed_switch acceleration =
      when (not cfg.skip_method_write) (
        write_u8 p (index_of OdIndex.homing_method) (pos (low_byte (or_default method cfg.method)))
          0)
      >> (if_given (or_else speed_search cfg.speed_search)
            (λ s1. write_u32 p (index_of OdIndex.homing_speeds) s1 1)
          >> (if_given (or_else speed_switch cfg.speed_switch)
                (λ s2. write_u32 p (index_of OdIndex.homing_speeds) s2 2)
              >> if_given (or_else acceleration cfg.acceleration)
                  (λ acc. write_u32 p (index_of OdIndex.homing_acceleration) acc 0)))

  -- Bit 4 is set and released at once.
  unfoldable pub start : Action S (Unit {0})
  start =
      read_u16 p (index_of OdIndex.statusword) 0
      >> (sleep p cfg.system_cycle_delay >> pulse_start p)

  -- One round of the loop of `wait_done`.
  unfoldable pub done_round : ℕ → Action S (Option HomingResult)
  done_round deadline =
      raise_if_aborted aborted motion_aborted
      >> (read_u16 p (index_of OdIndex.statusword) 0 >>= λ sw.
          if bit_is_set sw 12 || bit_is_set sw 13
          then pure (
              some (record {
                attained = bit_is_set sw 12;
                error = bit_is_set sw 13;
                statusword = sw % 65536;
              }))
          else (now p >>= λ time.
              if leb deadline time
              then raise timeout_error
              else (sleep p cfg.poll_interval >> pure none)))

  unfoldable pub wait_done : ℕ → Option ℕ → Action S HomingResult
  wait_done rounds timeout = now p >>= λ start_time.
      repeat rounds (done_round (start_time + or_default timeout cfg.timeout))

  unfoldable pub run : ℕ → Option ℕ → Action S HomingResult
  run rounds timeout =
      ensure_mode rounds >> (configure none none none none >> (start >> wait_done rounds timeout))
