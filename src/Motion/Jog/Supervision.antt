-- ===== src/Motion/Jog/Supervision.antt =====
-- The calls of the jog controller in any order, with the rounds of its watchdog in between.
use dryve_d.Base.{ℕ, ◌≡◌, refl, subst, Bool, true, false, Option, some, List, arith}
use dryve_d.Base.Int.{ℤ}
use dryve_d.Base.Errors.{Result, ok}
use dryve_d.Io.{Plant, IsTimely, World, Action, Sent}
use dryve_d.Io.Rules.{Ends, ends, at-Ends}
use dryve_d.Motion.Jog.{
  Config, Controller, WatchTask, initial, press, keepalive, stop_locked, watchdog_tick,
  watchdog_step, invalidate_mode, close,
}
use dryve_d.Motion.Jog.Supervised.{
  Supervised, Supervises, press-Supervised, keepalive-Supervised, stop_locked-Supervised,
  tick-Supervised, close-Supervised, step-Supervised, aborted_step-Supervised,
}

-- The public operations.
pub data Call {S : Type 0} (p : Plant S) (aborted : S → Bool) (cfg : Config)
    : Action (Controller S) (Unit {0}) → Type 0 where
  presses : (velocity : ℤ) (ttl : Option ℕ) → Call p aborted cfg (press p aborted cfg velocity ttl)
  keeps :
      (velocity : Option ℤ) (ttl : Option ℕ)
      → Call p aborted cfg (keepalive p aborted cfg velocity ttl)
  releases : Call p aborted cfg (stop_locked p aborted cfg)
  ticks : Call p aborted cfg (watchdog_tick p aborted cfg)
  invalidates : Call p aborted cfg (invalidate_mode p aborted cfg)
  closes : Call p aborted cfg (close p aborted cfg)

-- One step: a call, a round of the watchdog, or a change of the drive and its clock. Of the rounds
-- that find the abort event set, those are left out whose stop raises: the one case in which the
-- program leaves a jog that is on without a watchdog.
pub data Step {S : Type 0} (p : Plant S) (aborted : S → Bool) (cfg : Config) (c : Controller S)
    : Controller S → Type 0 where
  drive_changed : (s : S) → Step p aborted cfg c (record c { drive = s })
  called :
      {d : Controller S} (log after : List Sent) (r : Result (Unit {0}))
      → (call : Action (Controller S) (Unit {0})) → Call p aborted cfg call
      → call (record { plant = c; sent = log }) ≡ some (r, record { plant = d; sent = after })
      → Step p aborted cfg c d
  watched_round :
      {d : Controller S} (log after : List Sent) (r : Result (Unit {0}))
      → c.watch_task ≡ WatchTask.running
      → aborted c.drive ≡ false
      → watchdog_step p aborted cfg (record { plant = c; sent = log })
        ≡ some (r, record { plant = d; sent = after })
      → Step p aborted cfg c d
  aborted_round :
      {d u : Controller S} (log between after : List Sent) (r : Result (Unit {0}))
      → c.watch_task ≡ WatchTask.running
      → aborted c.drive ≡ true
      → stop_locked p aborted cfg (record { plant = c; sent = log })
        ≡ some (ok tt, record { plant = u; sent = between })
      → watchdog_step p aborted cfg (record { plant = c; sent = log })
        ≡ some (r, record { plant = d; sent = after })
      → Step p aborted cfg c d

pub data Reachable {S : Type 0} (p : Plant S) (aborted : S → Bool) (cfg : Config)
    : Controller S → Type 0 where
  created : (s : S) → Reachable p aborted cfg (initial s)
  stepped :
      {c d : Controller S}
      → Reachable p aborted cfg c
      → Step p aborted cfg c d
      → Reachable p aborted cfg d

module _ {S : Type 0} (p : Plant S) (t : IsTimely p) (aborted : S → Bool) (cfg : Config) where
  called-Supervised :
      (call : Action (Controller S) (Unit {0}))
      → Call p aborted cfg call
      → (w : World (Controller S)) → Supervised w.plant
      → Ends Supervises (call w)
  called-Supervised call (presses velocity ttl) w x =
      press-Supervised p t aborted cfg velocity ttl w x
  called-Supervised call (keeps velocity ttl) w x =
      keepalive-Supervised p t aborted cfg velocity ttl w x
  called-Supervised call releases w x = stop_locked-Supervised p t aborted cfg w x
  called-Supervised call ticks w x = tick-Supervised p t aborted cfg w x
  called-Supervised call invalidates w x =
      ends (record { watched = x.watched; still = x.still; limited = x.limited })
  called-Supervised call closes w x = close-Supervised p t aborted cfg w x

  result-Supervised :
      {A : Type 0} {o : Option (Result A × World (Controller S))} {r : Result A}
      {v : World (Controller S)}
      → Ends Supervises o
      → o ≡ some (r, v)
      → Supervised v.plant
  result-Supervised {r = r} {v = v} h q = at-Ends {r = r} {v = v} (subst (Ends Supervises) q h)

  -- In every state that the controller comes to, by calls in any order, with the drive, its clock and
  -- the abort event changing as they like, with any answers and exceptions, and with rounds of the
  -- watchdog in between, as long as no round raises at the stop that it makes after an abort: a jog
  -- that is on is watched by a task that runs, a jog that is off has velocity 0, and the deadline is
  -- not before the last update.
  pub Reachable-Supervised : (c : Controller S) → Reachable p aborted cfg c → Supervised c
  Reachable-Supervised c (created s) = record {
    watched = λ on. absurd (cc);
    still = λ _. refl;
    limited = omega arith;
  }
  Reachable-Supervised c (stepped x (drive_changed s)) =
      let y = Reachable-Supervised _ x in
      record { watched = y.watched; still = y.still; limited = y.limited }
  Reachable-Supervised c (stepped x (called log after r call k q)) =
      result-Supervised (called-Supervised call k _ (Reachable-Supervised _ x)) q
  Reachable-Supervised c (stepped x (watched_round log after r _ calm q)) =
      result-Supervised (step-Supervised p t aborted cfg _ (Reachable-Supervised _ x) calm) q
  Reachable-Supervised c (stepped x (aborted_round log between after r _ set stops q)) =
      result-Supervised
        (aborted_step-Supervised p t aborted cfg _ _ (Reachable-Supervised _ x) set stops) q
