-- ===== src/Api/IdleShutdown.antt =====
-- src/dryve_d1/api/idle_shutdown.py: the two phases of the idle timer and its action. The event loop
-- is asyncio's; of it the model has whether the timer will fire and whether a task runs.
pub mod Timer
pub mod Disables
use dryve_d.Base.{ℕ, Bool, true, false, not, ◌&&◌, ◌||◌, [], ◌∷◌, if◌then◌else◌}
use dryve_d.Base.Errors.{Result}
use dryve_d.Io.{Plant, World, Action, pure, ◌>>=◌, ◌>>◌, attempt}
use dryve_d.Od.Statusword.{Cia402State}
use dryve_d.Cia402.StateMachine as Sm
use dryve_d.Motion.Jog.{Controller, on_drive, controller}
use dryve_d.Api.Stop.{Surroundings}
use dryve_d.Api.Home.{disable_voltage}

-- The two references of the driver, and the event loop: a timer that will fire, an action that
-- runs, and an action that was cancelled and has not got its `CancelledError` yet.
pub record IdleTimer : Type 0 where
  pub handle : Bool
  pub task : Bool
  pub armed : Bool
  pub working : Bool
  pub ending : Bool

-- `TimerHandle.cancel` and `Task.cancel`, of what the references name.
abbrev pub cancel_handle : IdleTimer → IdleTimer
cancel_handle i = record i { armed = false; handle = false }

abbrev pub cancel_task : IdleTimer → IdleTimer
cancel_task i = record i { working = false; ending = i.ending || i.working; task = false }

-- `_cancel_idle_shutdown_timer`
unfoldable pub cancel_idle_shutdown_timer : IdleTimer → IdleTimer
cancel_idle_shutdown_timer i =
    let first = if i.handle then cancel_handle i else i in
    if first.task then cancel_task first else first

-- `_schedule_idle_shutdown`
unfoldable pub schedule_idle_shutdown : IdleTimer → IdleTimer
unfolding cancel_idle_shutdown_timer
schedule_idle_shutdown i = record (cancel_idle_shutdown_timer i) { handle = true; armed = true }

-- `_fire_idle_shutdown`, the callback of the timer.
unfoldable pub fire_idle_shutdown : IdleTimer → IdleTimer
fire_idle_shutdown i = record i { armed = false; handle = false; task = true; working = true }

-- The `finally` of the action, at its end and at the end of one that was cancelled.
unfoldable pub end_action : IdleTimer → IdleTimer
end_action i = record i { working = false; task = false }

unfoldable pub end_cancelled : IdleTimer → IdleTimer
end_cancelled i = record i { ending = false; task = false }

module _ {S : Type 0} (p : Plant S) (around : Surroundings S) (cfg : Sm.Config)
    (has_components : Bool) (suppress_keepalive : S → S) where
  -- The `try` of `_idle_shutdown_action`; whether the jog is on is read after the state.
  unfoldable pub shut_down_if_idle : Action (Controller S) (Unit {0})
  shut_down_if_idle =
      if not has_components
      then pure tt
      else (on_drive (Sm.current_state p cfg) >>= λ current_state.
          if Sm.among (Cia402State.switch_on_disabled ∷ Cia402State.ready_to_switch_on ∷ [])
            current_state
          then pure tt
          else (controller >>= λ c.
              if c.state.active
              then pure tt
              else on_drive (disable_voltage p around cfg has_components suppress_keepalive)))

  -- `_idle_shutdown_action`, which logs every exception.
  unfoldable pub idle_shutdown_action : Action (Controller S) (Unit {0})
  idle_shutdown_action = attempt shut_down_if_idle >> pure tt
