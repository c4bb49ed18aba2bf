-- ===== src/Motion/Jog.antt =====
-- src/dryve_d1/motion/jog.py: `JogController`, with times in microseconds. The lock makes each
-- operation one step; the watchdog looks at the state between its steps.
pub mod Rules
pub mod Pressed
pub mod Stopping
pub mod Watchdog
pub mod Supervised
pub mod Supervision
pub mod Aborted
use dryve_d.Base.{ℕ, ◌+◌, max, Bool, true, false, not, ◌&&◌, Option, none, some, leb, if◌then◌else◌}
use dryve_d.Base.Int.{ℤ, pos, eqb_ℤ}
use dryve_d.Base.Errors.{Result, ok, err, runtime_error}
use dryve_d.Io.{
  Plant, World, Action, pure, ◌>>=◌, ◌>>◌, when, raise_if, read_u16, sleep, now, attempt, repeat,
}
use dryve_d.Od.Indices.{OdIndex, index_of}
use dryve_d.Od.Statusword.{decode_statusword}
use dryve_d.Motion.{or_default}
use dryve_d.Motion.ProfileVelocity as Pv

-- `StopMode`
pub data StopMode : Type 0 where
  velocity_zero halt : StopMode

-- `JogConfig`
pub record Config : Type 0 where
  pub ttl : ℕ
  pub watch_interval : ℕ
  pub stop_mode : StopMode
  pub require_operation_enabled : Bool
  pub acceleration : Option ℤ
  pub deceleration : Option ℤ
  pub quick_stop_decel : Option ℤ
  pub mode_settle : ℕ

-- `JogState`
pub record JogState : Type 0 where
  pub active : Bool
  pub velocity : ℤ
  pub last_update : ℕ
  pub deadline : ℕ

-- `_watch_task`: `None`, a task that runs, or a task that is done.
pub data WatchTask : Type 0 where
  absent running finished : WatchTask

-- The fields of `JogController` that change, beside the drive.
pub record Controller (S : Type 0) : Type 0 where
  pub drive : S
  pub state : JogState
  pub mode_ready : Bool
  pub watch_task : WatchTask

-- `JogController.__init__`: the state, and the configuration of the profile velocity mode.
abbrev pub initial : {S : Type 0} → S → Controller S
initial s = record {
  drive = s;
  state = record { active = false; velocity = pos 0; last_update = 0; deadline = 0 };
  mode_ready = false;
  watch_task = absent;
}

abbrev pub pv_config : Config → Pv.Config
pv_config cfg = record {
  acceleration = cfg.acceleration;
  deceleration = cfg.deceleration;
  quick_stop_decel = cfg.quick_stop_decel;
  verify_mode = false;
  poll_interval = 50000;
  mode_set_timeout = 3000000;
  mode_settle = cfg.mode_settle;
}

module _ {S : Type 0} where
  -- A coroutine that does not touch the controller's own fields.
  unfoldable pub on_drive : {A : Type 0} → Action S A → Action (Controller S) A
  on_drive action w = elim (action (record { plant = w.plant.drive; sent = w.sent })) [
    | none ↦ none
    | some (r, v) ↦ some (r, record { plant = record w.plant { drive = v.plant }; sent = v.sent })
  ]

  abbrev pub controller : Action (Controller S) (Controller S)
  controller w = some (ok w.plant, w)

  abbrev pub update : (Controller S → Controller S) → Action (Controller S) (Unit {0})
  update f w = some (ok tt, record w { plant = f w.plant })

  -- A new `JogState` is put in place.
  abbrev pub set_state : JogState → Action (Controller S) (Unit {0})
  set_state state = update (λ c. record c { state = state })

  -- `_ensure_watchdog`
  abbrev pub ensure_watchdog : Action (Controller S) (Unit {0})
  ensure_watchdog = update (λ c. record c { watch_task = running })

-- The velocity that a keepalive asks for, if it is a new one.
abbrev pub changed : Option ℤ → ℤ → Option ℤ
changed none current = none
changed (some velocity) current = if eqb_ℤ velocity current then none else some velocity

abbrev pub goes_on : Result (Option (Unit {0})) → Bool
goes_on (ok none) = true
goes_on (ok (some _)) = false
goes_on (err e) = false

module _ {S : Type 0} (p : Plant S) (aborted : S → Bool) (cfg : Config) where
  -- `_ensure_ready_for_motion`
  unfoldable pub ensure_ready_for_motion : Action S (Unit {0})
  ensure_ready_for_motion =
      if not cfg.require_operation_enabled
      then pure tt
      else (read_u16 p (index_of OdIndex.statusword) 0 >>= λ sw.
          raise_if (not (decode_statusword sw).operation_enabled) runtime_error
          >> raise_if (decode_statusword sw).fault runtime_error)

  -- The mode is set and configured once, before the first motion.
  unfoldable pub prepare : Bool → Action (Controller S) (Unit {0})
  prepare mode_ready = when (not mode_ready) (
      on_drive (Pv.ensure_mode p (pv_config cfg) 1 >> Pv.configure p (pv_config cfg) none none none)
      >> update (λ c. record c { mode_ready = true }))

  abbrev pub command_velocity : ℤ → Action S (Unit {0})
  command_velocity velocity = Pv.set_target_velocity p velocity >> Pv.latch_new_setpoint p

  -- The new state of a jog that goes on until its time to live is over.
  unfoldable pub refresh : ℤ → Option ℕ → Action (Controller S) (Unit {0})
  refresh velocity ttl = on_drive (now p) >>= λ time. set_state (record {
    active = true;
    velocity = velocity;
    last_update = time;
    deadline = time + or_default ttl cfg.ttl;
  })

  unfoldable pub press : ℤ → Option ℕ → Action (Controller S) (Unit {0})
  press velocity ttl =
      on_drive ensure_ready_for_motion
      >> (controller >>= λ c.
          prepare c.mode_ready
          >> (on_drive (command_velocity velocity) >> (refresh velocity ttl >> ensure_watchdog)))

  -- What `keepalive` does while a jog is on.
  unfoldable pub keep : Option ℤ → ℤ → Option ℕ → Action (Controller S) (Unit {0})
  keep none current ttl = refresh current ttl
  keep (some velocity) current ttl = on_drive (command_velocity velocity) >> refresh velocity ttl

  unfoldable pub keepalive : Option ℤ → Option ℕ → Action (Controller S) (Unit {0})
  keepalive velocity ttl = controller >>= λ c.
      if not c.state.active
      then pure tt
      else keep (changed velocity c.state.velocity) c.state.velocity ttl

  -- What `_stop_locked` sends.
  unfoldable pub send_stop : StopMode → Action S (Unit {0})
  send_stop velocity_zero = Pv.stop_velocity_zero p
  send_stop halt =
      Pv.halt p (λ _. false) true >> (Pv.stop_velocity_zero p >> Pv.halt p (λ _. false) false)

  -- The new state of a jog that was stopped.
  unfoldable pub switch_off : Action (Controller S) (Unit {0})
  switch_off = on_drive (now p) >>= λ time.
      set_state (record { active = false; velocity = pos 0; last_update = time; deadline = time })

  -- What `_stop_locked` does while a jog is on.
  unfoldable pub stop_active : Action (Controller S) (Unit {0})
  stop_active = on_drive (send_stop cfg.stop_mode) >> switch_off

  unfoldable pub stop_locked : Action (Controller S) (Unit {0})
  stop_locked = controller >>= λ c. if not c.state.active then pure tt else stop_active

  abbrev pub release : Action (Controller S) (Unit {0})
  release = stop_locked

  unfoldable pub watchdog_tick : Action (Controller S) (Unit {0})
  watchdog_tick = controller >>= λ c.
      if not c.state.active
      then pure tt
      else (on_drive (now p) >>= λ time. if leb c.state.deadline time then stop_locked else pure tt)

  abbrev pub invalidate_mode : Action (Controller S) (Unit {0})
  invalidate_mode = update (λ c. record c { mode_ready = false })

  unfoldable pub close : Action (Controller S) (Unit {0})
  close =
      stop_locked
      >> (update (λ c. record c { mode_ready = false })
          >> update (λ c. record c { watch_task = absent }))

  -- A round of `_watchdog_loop` after its sleep; `none` goes on.
  unfoldable pub watchdog_round : Action (Controller S) (Option (Unit {0}))
  watchdog_round = controller >>= λ c.
      if aborted c.drive
      then (stop_locked >> pure (some tt))
      else if not c.state.active
      then pure (some tt)
      else (attempt watchdog_tick >> pure none)

  -- What the task of `_watchdog_loop` does from one sleep to the next: it ends with the loop.
  unfoldable pub watchdog_step : Action (Controller S) (Unit {0})
  watchdog_step = attempt watchdog_round >>= λ r. controller >>= λ c.
      if goes_on r && c.state.active
      then pure tt
      else update (λ d. record d { watch_task = finished })

  -- A round of `_watchdog_loop` with the test of the loop and its sleep.
  unfoldable pub watchdog_turn : Action (Controller S) (Option (Unit {0}))
  watchdog_turn = controller >>= λ c.
      if not c.state.active
      then pure (some tt)
      else (on_drive (sleep p (max 10000 cfg.watch_interval)) >> watchdog_round)

  unfoldable pub watchdog_loop : ℕ → Action (Controller S) (Unit {0})
  watchdog_loop rounds = repeat rounds watchdog_turn
