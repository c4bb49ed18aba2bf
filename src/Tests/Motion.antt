-- ===== src/Tests/Motion.antt =====
-- The motion helpers against a drive that carries out what it is told at once.
use dryve_d.Base.{ℕ, ◌+◌, ◌≡◌, refl, Bool, true, false, none, some, [], ◌∷◌, ◌++◌, arith}
use dryve_d.Base.Int.{ℤ, pos, negsuc, ◌-ℤ◌}
use dryve_d.Base.Errors.{ok, err, os_error}
use dryve_d.Io.{Plant, IsTimely, World, ◌>>=◌, raise_if, when, attempt, finally, repeat}
use dryve_d.Io.Rules.{Ends}
use dryve_d.Io.Log.{Sends}
use dryve_d.Od.Controlword.{cw_pulse_new_set_point, cw_set_bits, cw_clear_bits}
use dryve_d.Od.Statusword.{decode_statusword}
use dryve_d.Cia402.Bits.{bit_is_set}
use dryve_d.Cia402.StateMachine.Commands.{command}
use dryve_d.Motion.{if_given, raise_if_aborted, pulse_start}
use dryve_d.Motion.ProfilePosition as Pp
use dryve_d.Motion.ProfilePosition.Moves as Moves
use dryve_d.Motion.ProfilePosition.Reached.{Confirmed}
use dryve_d.Motion.Homing as Homing
use dryve_d.Motion.Homing.Homed as Homed
use dryve_d.Motion.ProfileVelocity as Pv
use dryve_d.Motion.Jog as Jog
use dryve_d.Motion.Jog.Rules.{Outcome}
use dryve_d.Motion.Jog.Pressed as Pressed
use dryve_d.Motion.Jog.Stopping as Stopping
use dryve_d.Motion.Jog.Watchdog as Watchdog
use dryve_d.Motion.Jog.Supervised.{Supervised}
use dryve_d.Motion.Jog.Supervision as Supervision
use dryve_d.Motion.Jog.Aborted as Aborted

-- A drive in `Operation enabled` with bits 10 and 12 set, the position it was last sent to, and the
-- time.
abbrev axis : Plant (ℤ × ℕ)
axis = record {
  read_u16 = λ index sub s. (ok 0x1637, (s.0, s.1 + 1000));
  read_i8 = λ index sub s. (ok (pos 1), (s.0, s.1 + 1000));
  read_i32 = λ index sub s. (ok s.0, (s.0, s.1 + 1000));
  write_u8 = λ index value sub s. (ok tt, (s.0, s.1 + 1000));
  write_u16 = λ index value sub s. (ok tt, (s.0, s.1 + 1000));
  write_u32 = λ index value sub s. (ok tt, (s.0, s.1 + 1000));
  write_i32 = λ index value sub s. (ok tt, (value, s.1 + 1000));
  sleep = λ d s. (s.0, s.1 + d);
  clock = λ s. s.1;
}

axis-IsTimely : IsTimely axis
axis-IsTimely = record {
  read_later = λ i sub s. omega arith;
  read_i8_later = λ i sub s. omega arith;
  read_i32_later = λ i sub s. omega arith;
  sleeps = λ d s. omega arith;
}

abbrev never : ℤ × ℕ → Bool
never s = false

abbrev at_home : World (ℤ × ℕ)
at_home = record { plant = (pos 0, 0); sent = [] }

-- The defaults of `ProfilePositionConfig`, with a velocity.
abbrev positioning : Pp.Config
positioning = record {
  profile_velocity = some (pos 500);
  acceleration = none;
  deceleration = none;
  poll_interval = 50000;
  move_timeout = 30000000;
  system_cycle_delay = 10000;
  setpoint_ack_timeout = 1000000;
  position_reached_window = pos 100;
  verify_mode = false;
  mode_set_timeout = 1000000;
  mode_settle = 0;
}

positioning-rounds : Moves.EnoughRounds positioning 600
positioning-rounds = record { mode = omega arith; ack = omega arith }

handshake-Released_example :
    Ends
      (Moves.Released axis 0x2F at_home)
      (Pp.handshake axis never positioning none 601 0x2F at_home)
handshake-Released_example =
    Moves.handshake-Released axis axis-IsTimely never positioning none 600 positioning-rounds 0x2F
      at_home

move_to-Sends_example :
    Ends
      (Sends
        (Moves.move_log positioning (pos 7000) false true)
        (λ _ v. Confirmed axis (Pp.reached_window positioning none) (some (pos 7000)) v.plant)
        [])
      (Pp.move_to axis never positioning none 601 (pos 7000) false true none at_home)
move_to-Sends_example =
    Moves.move_to-Sends axis axis-IsTimely never positioning none 600 positioning-rounds (pos 7000)
      false true none (omega arith) at_home

-- The whole move, and what it sends.
abbrev moved : World (ℤ × ℕ)
moved = record {
  plant = (pos 7000, 30000);
  sent =
      record { index = 0x6060; value = pos 1; subindex = 0 }
      ∷ record { index = 0x6081; value = pos 500; subindex = 0 }
      ∷ record { index = 0x607A; value = pos 7000; subindex = 0 }
      ∷ command 0x3F
      ∷ command 0x2F
      ∷ [];
}

moves :
    Pp.move_to axis never positioning none 2 (pos 7000) false true none at_home
    ≡ some (ok tt, moved)
unfolding Pp.move_to Pp.ensure_mode Pp.mode_round Pp.mode_verdict Pp.configure Pp.handshake
    Pp.wait_setpoint_ack Pp.ack_round Pp.wait_target_reached Pp.reached_round Pp.is_complete
    Pp.reached_window if_given raise_if_aborted ◌>>=◌ raise_if attempt finally repeat bit_is_set
    cw_pulse_new_set_point cw_set_bits cw_clear_bits ◌-ℤ◌
moves = refl

-- The defaults of `HomingConfig`, with a search speed.
abbrev homing : Homing.Config
homing = record {
  method = pos 35;
  skip_method_write = true;
  speed_search = some (pos 100);
  speed_switch = none;
  acceleration = none;
  poll_interval = 50000;
  timeout = 60000000;
  system_cycle_delay = 10000;
  verify_mode = false;
  mode_set_timeout = 1000000;
}

homing-rounds : Homed.EnoughRounds homing none 1200
homing-rounds = record { mode = omega arith; done = omega arith }

run-Homed_example :
    Ends
      (Sends (Homed.homing_log homing) (λ result v. Homed.Homed axis result v.plant) [])
      (Homing.run axis never homing 1201 none at_home)
run-Homed_example = Homed.run-Homed axis axis-IsTimely never homing none 1200 homing-rounds at_home

-- The defaults of `JogConfig`.
abbrev jogging : Jog.Config
jogging = record {
  ttl = 1000000;
  watch_interval = 50000;
  stop_mode = Jog.StopMode.velocity_zero;
  require_operation_enabled = true;
  acceleration = none;
  deceleration = none;
  quick_stop_decel = none;
  mode_settle = 300000;
}

abbrev idle : World (Jog.Controller (ℤ × ℕ))
idle = record { plant = Jog.initial (pos 0, 0); sent = [] }

-- A jog with velocity -300 that was pressed at once.
abbrev turning : World (Jog.Controller (ℤ × ℕ))
turning = record {
  plant = record {
    drive = (negsuc 299, 305000);
    state = record {
      active = true;
      velocity = negsuc 299;
      last_update = 305000;
      deadline = 1305000;
    };
    mode_ready = true;
    watch_task = Jog.WatchTask.running;
  };
  sent =
      record { index = 0x6060; value = pos 3; subindex = 0 }
      ∷ record { index = 0x60FF; value = negsuc 299; subindex = 0 }
      ∷ command 0x1F
      ∷ command 0x0F
      ∷ [];
}

presses : Jog.press axis never jogging (negsuc 299) none idle ≡ some (ok tt, turning)
unfolding Jog.press Jog.prepare Jog.on_drive Jog.ensure_ready_for_motion Jog.refresh Pv.ensure_mode
    Pv.configure Pv.set_target_velocity Pv.latch_new_setpoint pulse_start if_given ◌>>=◌ raise_if
    when bit_is_set decode_statusword cw_pulse_new_set_point cw_set_bits cw_clear_bits
presses = refl

press-Pressed_example :
    Ends
      (Outcome idle.plant
        (Pressed.press_log jogging false (negsuc 299))
        (λ _ v. Pressed.Pressed axis jogging (pos 0, 0) (negsuc 299) 1000000 v.plant)
        [])
      (Jog.press axis never jogging (negsuc 299) none idle)
press-Pressed_example =
    Pressed.press-Pressed axis axis-IsTimely never jogging (negsuc 299) none idle

stop_locked-Stopped_example :
    Ends
      (Outcome turning.plant
        (Stopping.stop_log jogging.stop_mode)
        (λ _ v. Stopping.Stopped turning.plant v.plant)
        turning.sent)
      (Jog.stop_locked axis never jogging turning)
stop_locked-Stopped_example = Stopping.stop_locked-Stopped axis axis-IsTimely never jogging turning

axis-TakesStop : Watchdog.TakesStop axis
axis-TakesStop = record { velocity = λ s. refl; control = λ word s. refl }

watchdog_loop-Off_example :
    Ends
      (λ r v.
        (r ≡ ok tt)
        × ((v.plant.state.active ≡ false)
            × (v.sent ≡ turning.sent ++ Stopping.stop_log jogging.stop_mode)))
      (Jog.watchdog_loop axis never jogging 22 turning)
watchdog_loop-Off_example =
    Watchdog.watchdog_loop-Off axis axis-TakesStop never jogging axis-IsTimely 20 turning refl
      (omega arith)

-- The controller after a press.
pressed-Reachable : Supervision.Reachable axis never jogging turning.plant
pressed-Reachable =
    Supervision.stepped (Supervision.created (pos 0, 0))
      (Supervision.called [] turning.sent (ok tt) _ (Supervision.presses (negsuc 299) none) presses)

Reachable-Supervised_example : Supervised turning.plant
Reachable-Supervised_example =
    Supervision.Reachable-Supervised axis axis-IsTimely never jogging turning.plant
      pressed-Reachable

-- A drive that takes a target velocity and refuses the controlwords.
abbrev refusing : Plant (ℤ × ℕ)
refusing = record axis { write_u16 = λ index value sub s. (err os_error, (s.0, s.1 + 1000)) }

refusing-IsTimely : IsTimely refusing
refusing-IsTimely = record {
  read_later = λ i sub s. omega arith;
  read_i8_later = λ i sub s. omega arith;
  read_i32_later = λ i sub s. omega arith;
  sleeps = λ d s. omega arith;
}

-- The velocity was sent, and the controller takes the jog for off.
abbrev half_pressed : World (Jog.Controller (ℤ × ℕ))
half_pressed = record {
  plant = record (Jog.initial (negsuc 299, 304000)) { mode_ready = true };
  sent =
      record { index = 0x6060; value = pos 3; subindex = 0 }
      ∷ record { index = 0x60FF; value = negsuc 299; subindex = 0 }
      ∷ command 0x1F
      ∷ [];
}

fails : Jog.press refusing never jogging (negsuc 299) none idle ≡ some (err os_error, half_pressed)
unfolding Jog.press Jog.prepare Jog.on_drive Jog.ensure_ready_for_motion Jog.refresh Pv.ensure_mode
    Pv.configure Pv.set_target_velocity Pv.latch_new_setpoint pulse_start if_given ◌>>=◌ raise_if
    when bit_is_set decode_statusword cw_pulse_new_set_point cw_set_bits cw_clear_bits
fails = refl

-- A drive that refuses the velocities, behind an abort event that is set.
abbrev deaf : Plant (ℤ × ℕ)
deaf = record axis { write_i32 = λ index value sub s. (err os_error, (s.0, s.1 + 1000)) }

deaf-IsTimely : IsTimely deaf
deaf-IsTimely = record {
  read_later = λ i sub s. omega arith;
  read_i8_later = λ i sub s. omega arith;
  read_i32_later = λ i sub s. omega arith;
  sleeps = λ d s. omega arith;
}

abbrev always : ℤ × ℕ → Bool
always s = true

abbrev still_turning : World (Jog.Controller (ℤ × ℕ))
still_turning = record {
  plant = record turning.plant { drive = (negsuc 299, 306000) };
  sent = turning.sent ++ (record { index = 0x60FF; value = pos 0; subindex = 0 } ∷ []);
}

stop_fails : Jog.stop_locked deaf always jogging turning ≡ some (err os_error, still_turning)
unfolding Jog.stop_locked Jog.stop_active Jog.send_stop Jog.on_drive Pv.stop_velocity_zero
    Pv.set_target_velocity ◌>>=◌
stop_fails = refl

aborted_step-unwatched_example :
    Ends
      (λ _ u. (u.plant.state.active ≡ true) × (u.plant.watch_task ≡ Jog.WatchTask.finished))
      (Jog.watchdog_step deaf always jogging turning)
aborted_step-unwatched_example =
    Aborted.aborted_step-unwatched deaf deaf-IsTimely always jogging turning still_turning os_error
      refl refl stop_fails
