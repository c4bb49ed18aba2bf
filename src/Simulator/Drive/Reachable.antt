-- ===== src/Simulator/Drive/Reachable.antt =====
-- The simulated drive over time: writes by clients, rounds of the engine and the emergency button, in
-- any order.
use dryve_d.Base.{ℕ, refl, List, IsBytes, arith}
use dryve_d.Simulator.Drive.{new_drive, toggle_emergency}
use dryve_d.Simulator.Drive.Engine.{Engine, engine_round}
use dryve_d.Simulator.Drive.Objects.{sdo_write}
use dryve_d.Simulator.Drive.Orderly.{
  IsOrderly, sdo_write-IsOrderly, move-IsOrderly, toggle_emergency-IsOrderly,
}
use dryve_d.Simulator.Drive.Ranges.{
  InRange, sdo_write-InRange, move-InRange, toggle_emergency-InRange,
}

pub data Step : Engine → Engine → Type 0 where
  wrote :
      (e : Engine) (now hi lo sub : ℕ) (raw : List ℕ)
      → IsBytes raw
      → Step e (record e { drive = (sdo_write now hi lo sub raw e.drive).1 })
  turned : (e : Engine) (now : ℕ) → Step e (engine_round now e)
  toggled : (e : Engine) → Step e (record e { drive = toggle_emergency e.drive })

pub data Reachable : Engine → Type 0 where
  started : (now : ℕ) → Reachable (record { drive = new_drive; last = now })
  next : {e f : Engine} → Reachable e → Step e f → Reachable f

abbrev pub IsSound : Engine → Type 0
IsSound e = IsOrderly e.drive × InRange e.drive

Step-IsSound : {e f : Engine} → Step e f → IsSound e → IsSound f
unfolding engine_round
Step-IsSound (wrote e now hi lo sub raw b) (o, r) = (
  sdo_write-IsOrderly now hi lo sub raw e.drive b o,
  sdo_write-InRange now hi lo sub raw e.drive b r,
)
Step-IsSound (turned e now) (o, r) = (move-IsOrderly now _ e.drive o, move-InRange now _ e.drive r)
Step-IsSound (toggled e) (o, r) =
    (toggle_emergency-IsOrderly e.drive o, toggle_emergency-InRange e.drive r)

new-InRange : InRange new_drive
new-InRange = ground arith

-- Whatever clients write, however the engine's clock runs and whenever the emergency button is
-- pressed: the drive has no fault and is in one of its four ordinary states, it shows the mode that
-- was asked for, at most one motion is active, every number that it reports fits its object, and
-- the position is within the soft limits wherever these are in order.
pub Reachable-IsSound : {e : Engine} → Reachable e → IsSound e
Reachable-IsSound (started now) = ((refl, omega arith, refl, (refl, refl)), new-InRange)
Reachable-IsSound (next r s) = Step-IsSound s (Reachable-IsSound r)
