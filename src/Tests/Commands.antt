-- ===== src/Tests/Commands.antt =====
-- The checks of a command, an update of a jog at the end of the axis, and homing.
use dryve_d.Base.{ℕ, ◌+◌, ◌≡◌, ◌↔◌, refl, true, false, none, some, [], ◌∷◌, arith}
use dryve_d.Base.Int.{ℤ, pos, negsuc}
use dryve_d.Base.Errors.{ok, err, value_error, runtime_error, ◌>>◌}
use dryve_d.Io.{Plant, IsTimely, World, attempt, raise_if}
use dryve_d.Io as Io
use dryve_d.Io.Rules.{Ends}
use dryve_d.Motion.ProfileVelocity as Pv
use dryve_d.Motion.Jog as Jog
use dryve_d.Od.Statusword.{decode_statusword}
use dryve_d.Cia402.Bits.{bit_is_set}
use dryve_d.Cia402.StateMachine as Sm
use dryve_d.Motion.Homing as Homing
use dryve_d.Api.Stop.{Surroundings, get_status_live}
use dryve_d.Api.Home as Home
use dryve_d.Api.Home.Outcomes as Outcomes
use dryve_d.Api.Limits.{
  Limits, validate_motion_params, validate_velocity, check_max, validate_position_limits,
}
use dryve_d.Api.Limits.Checked.{IsAllowed, validate-IsAllowed-decides}
use dryve_d.Api.Boundary.{check_jog_boundary}
use dryve_d.Api.JogCommands as Commands
use dryve_d.Api.JogCommands.Updated.{Updated}

abbrev pub limits : Limits
limits = record {
  min_position_limit = none;
  max_position_limit = some (pos 100000);
  max_abs_velocity = some (pos 10000);
  max_abs_accel = some (pos 50000);
  max_abs_decel = none;
}

validate-IsAllowed-decides_example :
    (validate_motion_params limits (negsuc 9999) (pos 2500) (pos 2500) (pos 20000000)
        >> validate_position_limits limits (pos 100000)
      ≡ ok tt)
    ↔ IsAllowed limits (pos 100000) (negsuc 9999) (pos 2500) (pos 2500) (pos 20000000)
validate-IsAllowed-decides_example =
    validate-IsAllowed-decides limits (pos 100000) (negsuc 9999) (pos 2500) (pos 2500)
      (pos 20000000)

-- The largest velocity and the largest target are allowed, and one more is not.
allowed :
    validate_motion_params limits (negsuc 9999) (pos 2500) (pos 2500) (pos 20000000)
      >> validate_position_limits limits (pos 100000)
    ≡ ok tt
unfolding validate_motion_params validate_velocity check_max validate_position_limits
allowed = refl

too_far : validate_position_limits limits (pos 100001) ≡ err value_error
unfolding validate_position_limits
too_far = refl

-- A drive at a position, with the time.
abbrev pub standing : ℤ → Plant ℕ
standing position = record {
  read_u16 = λ index sub s. (ok 0x0637, s + 1000);
  read_i8 = λ index sub s. (ok (pos 3), s + 1000);
  read_i32 = λ index sub s. (ok position, s + 1000);
  write_u8 = λ index value sub s. (ok tt, s + 1000);
  write_u16 = λ index value sub s. (ok tt, s + 1000);
  write_u32 = λ index value sub s. (ok tt, s + 1000);
  write_i32 = λ index value sub s. (ok tt, s + 1000);
  sleep = λ d s. s + d;
  clock = λ s. s;
}

pub standing-IsTimely : (position : ℤ) → IsTimely (standing position)
standing-IsTimely position = record {
  read_later = λ i sub s. omega arith;
  read_i8_later = λ i sub s. omega arith;
  read_i32_later = λ i sub s. omega arith;
  sleeps = λ d s. omega arith;
}

abbrev pub jogging : Jog.Config
jogging = record {
  ttl = 1000000;
  watch_interval = 50000;
  stop_mode = Jog.StopMode.velocity_zero;
  require_operation_enabled = true;
  acceleration = none;
  deceleration = none;
  quick_stop_decel = none;
  mode_settle = 300000;
}

abbrev pub turning : World (Jog.Controller ℕ)
turning = record {
  plant = record {
    drive = 305000;
    state = record { active = true; velocity = pos 300; last_update = 305000; deadline = 1305000 };
    mode_ready = true;
    watch_task = Jog.WatchTask.running;
  };
  sent = [];
}

-- At the end of the axis the jog is stopped.
at_the_end :
    Commands.jog_update
      (standing (pos 100000))
      (λ s. false)
      jogging
      limits
      true
      (λ s. s)
      (pos 400)
      none
      turning
    ≡ some (
      ok tt,
      record {
        plant = record {
          drive = 307000;
          state = record {
            active = false;
            velocity = pos 0;
            last_update = 307000;
            deadline = 307000;
          };
          mode_ready = true;
          watch_task = Jog.WatchTask.running;
        };
        sent = record { index = 0x60FF; value = pos 0; subindex = 0 } ∷ [];
      },
    )
unfolding Commands.jog_update Commands.update_active Commands.after_check Commands.jog_stop
    Commands.stop_and_schedule check_jog_boundary Jog.stop_locked Jog.stop_active Jog.switch_off
    Jog.send_stop Jog.on_drive Pv.stop_velocity_zero Pv.set_target_velocity Io.◌>>=◌ raise_if
    attempt
at_the_end = refl

-- The defaults of `HomingConfig`, and of the state machine.
abbrev homing : Homing.Config
homing = record {
  method = pos 35;
  skip_method_write = true;
  speed_search = none;
  speed_switch = none;
  acceleration = none;
  poll_interval = 50000;
  timeout = 60000000;
  system_cycle_delay = 10000;
  verify_mode = false;
  mode_set_timeout = 1000000;
}

abbrev machine : Sm.Config
machine = record {
  poll_interval = 50000;
  step_timeout = 5000000;
  fault_reset_timeout = 5000000;
  require_remote = true;
}

abbrev pub without_telemetry : Surroundings ℕ
without_telemetry = record { decoded_status = λ s. none; set_abort = λ s. s }

abbrev idle : World ℕ
idle = record { plant = 0; sent = [] }

home-HomeEnds_example : Ends (Outcomes.HomeEnds (standing (pos 0)) idle) (
    Home.home
      (standing (pos 0))
      without_telemetry
      machine
      true
      true
      (λ s. s)
      (λ s. false)
      homing
      1201
      none
      idle)
home-HomeEnds_example =
    Outcomes.home-HomeEnds (standing (pos 0)) (standing-IsTimely (pos 0)) without_telemetry machine
      1200 (record { step = omega arith; reset = omega arith }) (λ s. false) homing none
      (record { mode = omega arith; done = omega arith }) (λ s. s) idle

-- A drive with a fault: nothing is sent.
abbrev faulty : Plant ℕ
faulty = record (standing (pos 0)) { read_u16 = λ index sub s. (ok 0x0218, s + 1000) }

refuses :
    Home.home faulty without_telemetry machine true true (λ s. s) (λ s. false) homing 1201 none idle
    ≡ some (err runtime_error, record { plant = 1000; sent = [] })
unfolding Home.home Home.check_drive_ready get_status_live Io.◌>>=◌ raise_if decode_statusword
    bit_is_set
refuses = refl
