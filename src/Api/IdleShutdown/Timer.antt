-- ===== src/Api/IdleShutdown/Timer.antt =====
-- The idle timer over time: the driver's calls and the events of the loop in any order.
use dryve_d.Base.{◌≡◌, refl, true, false, ◌&&◌, arith}
use dryve_d.Api.IdleShutdown.{
  IdleTimer, cancel_idle_shutdown_timer, schedule_idle_shutdown, fire_idle_shutdown, end_action,
  end_cancelled,
}

-- A cancelled task gets its exception in the next turn of the loop, and so before a timer that was
-- set after it fires.
pub data Step : IdleTimer → IdleTimer → Type 0 where
  cancelled : (i : IdleTimer) → Step i (cancel_idle_shutdown_timer i)
  scheduled : (i : IdleTimer) → Step i (schedule_idle_shutdown i)
  fired : (i : IdleTimer) → i.armed ≡ true → i.ending ≡ false → Step i (fire_idle_shutdown i)
  finished : (i : IdleTimer) → i.working ≡ true → Step i (end_action i)
  ended : (i : IdleTimer) → i.ending ≡ true → Step i (end_cancelled i)

-- Before the first command.
abbrev pub unset : IdleTimer
unset = record { handle = false; task = false; armed = false; working = false; ending = false }

pub data Reachable : IdleTimer → Type 0 where
  start : Reachable unset
  next : {i j : IdleTimer} → Reachable i → Step i j → Reachable j

-- The references name what is there; a timer and an action are never there together.
abbrev pub IsReferenced : IdleTimer → Type 0
IsReferenced i =
    (i.handle ≡ i.armed)
    × (i.task ≡ i.working)
    × ((i.armed && i.working) ≡ false)
    × ((i.ending && i.working) ≡ false)

Step-IsReferenced : {i j : IdleTimer} → Step i j → IsReferenced i → IsReferenced j
unfolding cancel_idle_shutdown_timer schedule_idle_shutdown fire_idle_shutdown end_action
    end_cancelled
Step-IsReferenced (cancelled i) h = ground arith
Step-IsReferenced (scheduled i) h = ground arith
Step-IsReferenced (fired i a e) h = ground arith
Step-IsReferenced (finished i w) h = ground arith
Step-IsReferenced (ended i e) h = ground arith

Reachable-IsReferenced : {i : IdleTimer} → Reachable i → IsReferenced i
Reachable-IsReferenced start = (refl, refl, refl, refl)
Reachable-IsReferenced (next r s) = Step-IsReferenced s (Reachable-IsReferenced r)

-- However the commands, the timer and its action are interleaved, a cancel reaches whichever phase
-- the shutdown is in: after it no timer will fire and no action runs that was not cancelled. A
-- schedule leaves exactly one timer and no such action.
pub Reachable-cancelled :
    {i : IdleTimer}
    → Reachable i
    → let c = cancel_idle_shutdown_timer i in
      let s = schedule_idle_shutdown i in
      (c.armed ≡ false)
      × (c.working ≡ false)
      × (s.armed ≡ true)
      × (s.working ≡ false)
      × (s.handle ≡ true)
unfolding cancel_idle_shutdown_timer schedule_idle_shutdown
Reachable-cancelled r = let h = Reachable-IsReferenced r in ground arith
