-- ===== src/Api/JogCommands/Updated.antt =====
-- What `jog_update` does.
use dryve_d.Base.{◌≡◌, Bool, true, false, some, ◌++◌}
use dryve_d.Base.Int.{ℤ}
use dryve_d.Base.Errors.{Error, Result, ok, err, runtime_error}
use dryve_d.Io.{Plant, IsTimely, World}
use dryve_d.Motion.Jog.{Config, Controller, release}
use dryve_d.Motion.Jog.Rules.{its_drive}
use dryve_d.Motion.Jog.Stopping.{stop_log}
use dryve_d.Api.Limits.{Limits}
use dryve_d.Api.Boundary.{check_jog_boundary}
use dryve_d.Api.Boundary.Inside.{IsInside, Inside}
use dryve_d.Api.JogCommands.{is_runtime_error}

-- The check of the boundary raised, and its exception is a RuntimeError.
abbrev pub Refused : {S : Type 0} → Plant S → Limits → ℤ → World (Controller S) → Type 0
Refused p limits velocity w =
    (e : Error) × (v : World _) × (check_jog_boundary p limits velocity (its_drive w)
      ≡ some (err e, v))
    × (is_runtime_error e ≡ true)

-- The ends of an update: no jog was on; the check of the boundary raised a RuntimeError, and the jog
-- is off, by its stop; the jog goes on with the
-- velocity, at a position where it does not lead out of the limits; or an exception, with the jog
-- as it was. The exception is one of these four: there is no jog controller, the read of the
-- position failed otherwise than by a RuntimeError, the stop itself raised, or the jog may go on and
-- what is sent for that raised.
pub data Updated {S : Type 0} (p : Plant S) (aborted : S → Bool) (cfg : Config) (limits : Limits)
    (has_jog : Bool) (velocity : ℤ) (w : World (Controller S))
    : Result (Unit {0}) → World (Controller S) → Type 0 where
  off : w.plant.state.active ≡ false → Updated p aborted cfg limits has_jog velocity w (ok tt) w
  stopped :
      {v : World (Controller S)}
      → Refused p limits velocity w
      → v.plant.state.active ≡ false
      → v.sent ≡ w.sent ++ stop_log cfg.stop_mode
      → Updated p aborted cfg limits has_jog velocity w (ok tt) v
  went_on :
      {v : World (Controller S)} (position : ℤ)
      → (p.read_i32 0x6064 0 w.plant.drive).0 ≡ ok position
      → IsInside limits velocity position
      → v.plant.state.active ≡ true
      → v.plant.state.velocity ≡ velocity
      → Updated p aborted cfg limits has_jog velocity w (ok tt) v
  no_jog : has_jog ≡ false → Updated p aborted cfg limits has_jog velocity w (err runtime_error) w
  unread :
      {e : Error} {v : World (Controller S)}
      → is_runtime_error e ≡ false
      → v.sent ≡ w.sent
      → v.plant.state ≡ w.plant.state
      → Updated p aborted cfg limits has_jog velocity w (err e) v
  not_stopped :
      {e : Error} {v : World (Controller S)} (u : World (Controller S))
      → Refused p limits velocity w
      → u.sent ≡ w.sent
      → u.plant.state ≡ w.plant.state
      → release p aborted cfg u ≡ some (err e, v)
      → v.plant.state ≡ w.plant.state
      → Updated p aborted cfg limits has_jog velocity w (err e) v
  not_kept :
      {e : Error} {v : World (Controller S)} (position : ℤ)
      → (p.read_i32 0x6064 0 w.plant.drive).0 ≡ ok position
      → IsInside limits velocity position
      → v.plant.state ≡ w.plant.state
      → Updated p aborted cfg limits has_jog velocity w (err e) v

module _ {S : Type 0} (p : Plant S) (t : IsTimely p) (aborted : S → Bool) (cfg : Config)
    (limits : Limits) (has_jog : Bool) (schedule : S → S) where
  abbrev Position : ℤ → World (Controller S) → Result ℤ → Type 0
  Position velocity w (ok x) =
      ((p.read_i32 0x6064 0 w.plant.drive).0 ≡ ok x) × IsInside limits velocity x
  Position velocity w (err e) =
      (v : World S) × (check_jog_boundary p limits velocity (its_drive w) ≡ some (err e, v))

  -- The check on the drive, as the controller sees it.
  record Seen (velocity : ℤ) (w : World (Controller S)) (r : Result ℤ) (v : World (Controller S))
      : Type 0 where
    same_state : v.plant.state ≡ w.plant.state
    same_log : v.sent ≡ w.sent
    position : Position velocity w r

  abbrev Checked : ℤ → World (Controller S) → Result (Result ℤ) → World (Controller S) → Type 0
  Checked velocity w (ok r) v = Seen velocity w r v
  Checked velocity w (err e) v = ⊥
