-- ===== src/Tests/Moved.antt =====
-- A move, the start of a jog and the idle timer of the drive's API at concrete inputs.
use dryve_d.Base.{◌≡◌, refl, ℕ, true, false, none, some, [], arith}
use dryve_d.Base.Int.{pos}
use dryve_d.Io.Rules.{Ends}
use dryve_d.Api.Move.{Setup, Timers, MoveCommand, move_to_position}
use dryve_d.Api.Move.Refused.{MoveEnd, move_to_position-MoveEnd}
use dryve_d.Api.IdleShutdown.{
  IdleTimer, cancel_idle_shutdown_timer, schedule_idle_shutdown, fire_idle_shutdown,
  idle_shutdown_action,
}
use dryve_d.Api.IdleShutdown.Disables.{ShutDown, idle_shutdown_action-ShutDown}
use dryve_d.Api.IdleShutdown.Timer as Timer
use dryve_d.Api.IdleShutdown.Timer.{Reachable-cancelled}
use dryve_d.Api.Status.{is_moving}
use dryve_d.Api.Status.Moving.{MovingEnd, is_moving-MovingEnd}
use dryve_d.Api.JogStart.{jog_start}
use dryve_d.Api.JogStart.Started.{StartEnd, jog_start-StartEnd}
use dryve_d.Tests.Commands.{
  without_telemetry, limits, standing, standing-IsTimely, jogging, turning,
}

abbrev setup : Setup
setup = record {
  state_machine = record {
    poll_interval = 50000;
    step_timeout = 5000000;
    fault_reset_timeout = 10000000;
    require_remote = true;
  };
  profile_position = record {
    profile_velocity = none;
    acceleration = none;
    deceleration = none;
    poll_interval = 50000;
    move_timeout = 30000000;
    system_cycle_delay = 10000;
    setpoint_ack_timeout = 1000000;
    position_reached_window = pos 100;
    verify_mode = false;
    mode_set_timeout = 1000000;
    mode_settle = 0;
  };
  jog = jogging;
  limits = limits;
  drive_window = none;
  motion_precheck_delay = 50000;
  mode_settle_delay = 300000;
  has_components = true;
}

-- The idle timer runs from the time of the plant's clock.
abbrev timers : Timers ℕ
timers = record {
  cancel_idle_shutdown = λ s. s;
  schedule_idle_shutdown = λ s. s;
  clear_abort = λ s. s;
}

abbrev beyond : MoveCommand
beyond = record {
  target_position = pos 100001;
  velocity = pos 400;
  accel = pos 100;
  decel = pos 100;
  timeout = pos 20000000;
  require_homing = true;
}

move_to_position-MoveEnd_example : Ends (MoveEnd setup timers beyond []) (
    move_to_position
      (standing (pos 5))
      without_telemetry
      (λ s. false)
      setup
      timers
      601
      true
      beyond
      turning)
move_to_position-MoveEnd_example =
    move_to_position-MoveEnd (standing (pos 5)) (standing-IsTimely (pos 5)) without_telemetry
      (λ s. false) setup timers 600 (record { step = omega arith; reset = omega arith })
      (record { mode = omega arith; ack = omega arith }) beyond (omega arith) true turning

jog_start-StartEnd_example :
    Ends (StartEnd (standing (pos 100000)) setup (pos 400) (some (pos 49)) turning 305000) (
      jog_start
        (standing (pos 100000))
        without_telemetry
        (λ s. false)
        setup
        timers
        201
        (pos 400)
        (some (pos 49))
        turning)
jog_start-StartEnd_example =
    jog_start-StartEnd (standing (pos 100000)) (standing-IsTimely (pos 100000)) without_telemetry
      (λ s. false) setup timers 200 (record { step = omega arith; reset = omega arith }) (pos 400)
      (some (pos 49)) turning

idle_shutdown_action-ShutDown_example : Ends (ShutDown turning) (
    idle_shutdown_action
      (standing (pos 5))
      without_telemetry
      setup.state_machine
      true
      (λ s. s)
      turning)
idle_shutdown_action-ShutDown_example =
    idle_shutdown_action-ShutDown (standing (pos 5)) (standing-IsTimely (pos 5)) without_telemetry
      setup.state_machine true (λ s. s) turning

-- The timer fired, and its action runs.
abbrev acting : IdleTimer
acting = record { handle = false; task = true; armed = false; working = true; ending = false }

acting-Reachable : Timer.Reachable acting
unfolding fire_idle_shutdown schedule_idle_shutdown cancel_idle_shutdown_timer
acting-Reachable =
    Timer.Reachable.next
      (Timer.Reachable.next Timer.Reachable.start (Timer.Step.scheduled Timer.unset))
      (Timer.Step.fired _ refl refl)

Reachable-cancelled_example :
    let c = cancel_idle_shutdown_timer acting in
    let s = schedule_idle_shutdown acting in
    (c.armed ≡ false)
    × (c.working ≡ false)
    × (s.armed ≡ true)
    × (s.working ≡ false)
    × (s.handle ≡ true)
Reachable-cancelled_example = Reachable-cancelled acting-Reachable

-- The jog is on, and its time not over.
is_moving-MovingEnd_example :
    Ends
      (MovingEnd (standing (pos 5)) true none turning)
      (is_moving (standing (pos 5)) 10 true none turning)
is_moving-MovingEnd_example =
    is_moving-MovingEnd (standing (pos 5)) (standing-IsTimely (pos 5)) 10 true none turning
