-- ===== src/Api/JogStart/Started.antt =====
-- Which jogs `jog_start` lets through.
use dryve_d.Base.{ℕ, suc, ◌≡◌, refl, Bool, not, ◌&&◌, Option, none, some, arith}
use dryve_d.Base.Int.{ℤ, pos, abs, ◌≤ℤ◌, leb_ℤ}
use dryve_d.Base.Errors.{Error, Result, ok, err, runtime_error}
use dryve_d.Io.{Plant, IsTimely, World, Action, ◌>>=◌}
use dryve_d.Io.Rules.{Ends, ends, weaken-Ends}
use dryve_d.Io.Steps.{raising-Ends}
use dryve_d.Cia402.StateMachine as Sm
use dryve_d.Cia402.StateMachine.Commands.{EnoughRounds}
use dryve_d.Motion.Jog.{Controller, on_drive}
use dryve_d.Motion.Jog.Rules.{driving-Ends, updating-Ends, its_drive, driven}
use dryve_d.Api.Boundary.{check_jog_boundary}
use dryve_d.Api.Boundary.Inside.{IsInside, Inside, inside, refused, check_jog_boundary-Inside}
use dryve_d.Api.Limits.{validate_velocity}
use dryve_d.Api.Limits.Checked.{Below, check_max-ok, seq-ok, nonzero-ok, guard-ok}
use dryve_d.Api.Move.{Setup, Timers}
use dryve_d.Api.Stop.{Surroundings}
use dryve_d.Api.JogStart.{validate_ttl, ttl_time, start_checked, jog_start}
use dryve_d.Api.JogStart.Paths.{start_checked-Ended}

-- A jog that may start: its velocity is allowed, its time to live is 50 to 5000 ms where it is
-- given, and it does not lead out of the limits from the position that was read.
pub record MayStart {S : Type 0} (p : Plant S) (setup : Setup) (velocity : ℤ) (ttl : Option ℤ)
    (s : S) : Type 0 where
  pub position : ℤ
  pub not_zero : ¬ (velocity ≡ pos 0)
  pub below : Below setup.limits.max_abs_velocity (pos (abs velocity))
  pub ttl_allowed : (ms : ℤ) → ttl ≡ some ms → (pos 50 ≤ℤ ms) × (ms ≤ℤ pos 5000)
  pub was_read : (p.read_i32 0x6064 0 s).0 ≡ ok position
  pub is_inside : IsInside setup.limits velocity position

-- How a start ends: with a jog that may start, or with an exception and nothing sent.
pub data StartEnd {S : Type 0} (p : Plant S) (setup : Setup) (velocity : ℤ) (ttl : Option ℤ)
    (w : World (Controller S)) (s : S) : Result (Unit {0}) → World (Controller S) → Type 0 where
  stopped_short :
      {e : Error} {v : World (Controller S)}
      → v.sent ≡ w.sent
      → StartEnd p setup velocity ttl w s (err e) v
  started :
      {r : Result (Unit {0})} {v : World (Controller S)}
      → MayStart p setup velocity ttl s
      → StartEnd p setup velocity ttl w s r v

ttl-ok :
    (ttl : Option ℤ)
    → validate_ttl ttl ≡ ok tt
    → (ms : ℤ) → ttl ≡ some ms
    → (pos 50 ≤ℤ ms) × (ms ≤ℤ pos 5000)
unfolding validate_ttl
ttl-ok none h ms e = absurd (cc)
ttl-ok (some t) h ms e = let g = guard-ok (leb_ℤ (pos 50) t && leb_ℤ t (pos 5000)) h in ground arith

module _ {S : Type 0} (p : Plant S) (t : IsTimely p) (around : Surroundings S) (aborted : S → Bool)
    (setup : Setup) (timers : Timers S) (n : ℕ) (enough : EnoughRounds setup.state_machine n) where
  -- The world of the check of the boundary.
  abbrev prepared : World (Controller S) → World (Controller S)
  prepared w = record w {
    plant = record w.plant {
      drive = timers.clear_abort (timers.cancel_idle_shutdown w.plant.drive);
    };
  }

  velocity-ok :
      (velocity : ℤ)
      → validate_velocity setup.limits velocity ≡ ok tt
      → (¬ (velocity ≡ pos 0)) × Below setup.limits.max_abs_velocity (pos (abs velocity))
  unfolding validate_velocity
  velocity-ok velocity h =
      let (a, b) = seq-ok _ _ h in
      (
        (nonzero-ok velocity).0 a,
        (check_max-ok setup.limits.max_abs_velocity (pos (abs velocity))).0 b,
      )

  bounded-StartEnd :
      (velocity : ℤ) (ttl : Option ℤ) (w : World (Controller S))
      → (¬ (velocity ≡ pos 0)) × Below setup.limits.max_abs_velocity (pos (abs velocity))
      → ((ms : ℤ) → ttl ≡ some ms → (pos 50 ≤ℤ ms) × (ms ≤ℤ pos 5000))
      → Ends (StartEnd p setup velocity ttl w w.plant.drive) (
          (on_drive (check_jog_boundary p setup.limits velocity) >>= λ position.
          start_checked p around aborted setup timers (suc n) velocity (ttl_time ttl))
            w)
  bounded-StartEnd velocity ttl w (z, b) l =
      driving-Ends _ _ w (check_jog_boundary-Inside p setup.limits velocity (its_drive w))
        (λ position v q.
          weaken-Ends
            (start_checked-Ended p t around aborted setup timers n enough velocity (ttl_time ttl)
              (driven w v))
            (λ r u x. started (may position v q)))
        (λ e v q. stopped_short (unsent e v q))
    where
      may :
          (position : ℤ) (v : World S)
          → Inside p setup.limits velocity (its_drive w) (ok position) v
          → MayStart p setup velocity ttl w.plant.drive
      may _ v (inside position r i _) = record {
        position = position;
        not_zero = z;
        below = b;
        ttl_allowed = l;
        was_read = r;
        is_inside = i;
      }

      unsent :
          (e : Error) (v : World S)
          → Inside p setup.limits velocity (its_drive w) (err e) v
          → v.sent ≡ w.sent
      unsent e v (refused q) = q

  lifted-StartEnd :
      {velocity : ℤ} {ttl : Option ℤ} {w : World (Controller S)} {s : S} (r : Result (Unit {0}))
      (f : Unit {0} → Action (Controller S) (Unit {0}))
      → (r ≡ ok tt → Ends (StartEnd p setup velocity ttl w s) (f tt w))
      → Ends (StartEnd p setup velocity ttl w s) ((Sm.lift r >>= f) w)
  unfolding ◌>>=◌
  lifted-StartEnd (ok tt) f h = h refl
  lifted-StartEnd (err e) f h = ends (stopped_short refl)

  -- Whatever the drive answers, `jog_start` ends. Unless the velocity is not 0 and within its limit,
  -- the time to live is 50 to 5000 ms where it is given, and the jog does not lead out of the
  -- position limits from the position that is read first, it raises and sends nothing: on the hot,
  -- the warm and the cold path.
  pub jog_start-StartEnd :
      (velocity : ℤ) (ttl : Option ℤ) (w : World (Controller S))
      → Ends
          (StartEnd p setup velocity ttl w
            (timers.clear_abort (timers.cancel_idle_shutdown w.plant.drive)))
          (jog_start p around aborted setup timers (suc n) velocity ttl w)
  unfolding jog_start
  jog_start-StartEnd velocity ttl w = updating-Ends _ _ w (
      updating-Ends _ _ _ (
        raising-Ends (not setup.has_components) runtime_error _ (prepared w)
          (λ _.
            weaken-Ends
              (lifted-StartEnd (validate_velocity setup.limits velocity) _ (λ v.
                lifted-StartEnd (validate_ttl ttl) _ (λ l.
                  bounded-StartEnd velocity ttl (prepared w) (velocity-ok velocity v)
                    (ttl-ok ttl l))))
              (λ r u x. same_log r u x))
          (λ _. stopped_short refl)))
    where
      same_log :
          (r : Result (Unit {0})) (u : World (Controller S))
          → StartEnd p setup velocity ttl (prepared w) (prepared w).plant.drive r u
          → StartEnd p setup velocity ttl w (prepared w).plant.drive r u
      same_log _ u (stopped_short q) = stopped_short q
      same_log r u (started m) = started m
