-- ===== src/Tests/Api.antt =====
-- The accessor against the simulated gateway, and the stop.
use dryve_d.Base.{ℕ, ◌+◌, ◌≡◌, refl, true, false, none, some, [], ◌∷◌, ltb, arith, if◌then◌else◌}
use dryve_d.Base.Int.{ℤ, pos}
use dryve_d.Base.Errors.{ok, err, os_error}
use dryve_d.Io.{Plant, IsTimely, World, ◌>>=◌, raise_if, attempt}
use dryve_d.Io.Rules.{Ends}
use dryve_d.Od.Controlword.{cw_set_bits}
use dryve_d.Od.Statusword.{decode_statusword}
use dryve_d.Cia402.Bits.{bit_is_set}
use dryve_d.Cia402.StateMachine as Sm
use dryve_d.Cia402.StateMachine.Commands.{command}
use dryve_d.Motion.ProfilePosition as Pp
use dryve_d.Motion.ProfileVelocity as Pv
use dryve_d.Protocol.Telegram.{Policy}
use dryve_d.Simulator.Gateway.{Strictness}
use dryve_d.Api.Accessor.{read_i32, write_i32}
use dryve_d.Api.Accessor.Stored.{Simulated}
use dryve_d.Simulator.Drive.{FakeDrive, new_drive}
use dryve_d.Api.Stop as Stop
use dryve_d.Api.Stop.Halted.{Halted, execute_stop-Halted}

-- The simulated drive, with the last transaction id before the wrap.
abbrev simulated : Simulated FakeDrive
simulated = record {
  ids = record { max_value = 0xFFFF; next_id = 0xFFFF };
  drive = new_drive;
  time = 0;
}

abbrev strict : Strictness
strict = record { telegram = true; object_size = true }

abbrev default_policy : Policy
default_policy = record { tid_mismatch_ok = false; unit_id_wildcard_ok = false }

-- A drive in the mode shown, in `Operation enabled`, that refuses the first write. Its state is the
-- number of writes so far and the time.
abbrev refusing_once : ℤ → Plant (ℕ × ℕ)
refusing_once mode = record {
  read_u16 = λ index sub s. (ok 0x0637, (s.0, s.1 + 1000));
  read_i8 = λ index sub s. (ok mode, (s.0, s.1 + 1000));
  read_i32 = λ index sub s. (ok (pos 0), (s.0, s.1 + 1000));
  write_u8 = λ index value sub s. (ok tt, (s.0 + 1, s.1));
  write_u16 = λ index value sub s. (if ltb 0 s.0 then ok tt else err os_error, (s.0 + 1, s.1));
  write_u32 = λ index value sub s. (ok tt, (s.0 + 1, s.1));
  write_i32 = λ index value sub s. (ok tt, (s.0 + 1, s.1));
  sleep = λ d s. (s.0, s.1 + d);
  clock = λ s. s.1;
}

refusing-IsTimely : (mode : ℤ) → IsTimely (refusing_once mode)
refusing-IsTimely mode = record {
  read_later = λ i sub s. omega arith;
  read_i8_later = λ i sub s. omega arith;
  read_i32_later = λ i sub s. omega arith;
  sleeps = λ d s. omega arith;
}

abbrev without_telemetry : Stop.Surroundings (ℕ × ℕ)
without_telemetry = record { decoded_status = λ s. none; set_abort = λ s. s }

abbrev machine : Sm.Config
machine = record {
  poll_interval = 50000;
  step_timeout = 5000000;
  fault_reset_timeout = 5000000;
  require_remote = true;
}

abbrev positioning : Pp.Config
positioning = record {
  profile_velocity = none;
  acceleration = none;
  deceleration = none;
  poll_interval = 50000;
  move_timeout = 30000000;
  system_cycle_delay = 10000;
  setpoint_ack_timeout = 1000000;
  position_reached_window = pos 100;
  verify_mode = false;
  mode_set_timeout = 1000000;
  mode_settle = 0;
}

abbrev connected : Stop.Components
connected = record { state_machine = true; profile_position = true; profile_velocity = true }

abbrev running : World (ℕ × ℕ)
running = record { plant = (0, 0); sent = [] }

execute_stop-Halted_example : Ends (Halted []) (
    Stop.execute_stop
      (refusing_once (pos 6))
      without_telemetry
      machine
      positioning
      none
      (λ s. false)
      connected
      Stop.normal
      41
      running)
execute_stop-Halted_example =
    execute_stop-Halted (refusing_once (pos 6)) without_telemetry (refusing-IsTimely (pos 6))
      machine 40 (omega arith) positioning none (λ s. false) connected Stop.normal running

-- In the profile velocity mode: the halt twice, and then the velocity 0.
stops :
    Stop.execute_stop
      (refusing_once (pos 3))
      without_telemetry
      machine
      positioning
      none
      (λ s. false)
      connected
      Stop.normal
      41
      running
    ≡ some (
      ok tt,
      record {
        plant = (3, 2000);
        sent =
            command 0x010F
            ∷ command 0x010F
            ∷ record { index = 0x60FF; value = pos 0; subindex = 0 }
            ∷ [];
      },
    )
unfolding Stop.execute_stop Stop.halt_motor Stop.try_halt Stop.stop_enabled Stop.get_status
    Stop.get_status_live Stop.stop_in_mode Pv.stop Pv.set_target_velocity ◌>>=◌ raise_if attempt
    cw_set_bits decode_statusword bit_is_set
stops = refl
