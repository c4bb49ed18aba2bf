-- ===== src/Motion/Jog/Pressed.antt =====
-- `press`: the state that it leaves, and what it sends.
use dryve_d.Base.{
  ℕ, ◌+◌, ◌≡◌, refl, Bool, true, false, not, Option, some, List, [], ◌++◌, if◌then◌else◌,
}
use dryve_d.Base.Int.{ℤ}
use dryve_d.Base.Errors.{Result, ok, runtime_error}
use dryve_d.Io.{Plant, IsTimely, World, Action, Sent, ◌>>=◌, when}
use dryve_d.Io.Rules.{Ends, ends, if-Ends}
use dryve_d.Io.Steps.{reading-Ends, raising-Ends}
use dryve_d.Io.Log.{Sends, returned-Sends, nothing-Sends, raise_if-Sends, whole, part}
use dryve_d.Od.Statusword.{decode_statusword}
use dryve_d.Motion.{or_default}
use dryve_d.Motion.Rules.{pulse_log}
use dryve_d.Motion.ProfileVelocity.Setpoints.{velocity_log, ready_log, commanded-Sends, ready-Sends}
use dryve_d.Motion.Jog.{
  Config, Controller, JogState, WatchTask, pv_config, on_drive, ensure_ready_for_motion, prepare,
  refresh, press,
}
use dryve_d.Motion.Jog.Rules.{
  its_drive, driven, Outcome, driving-Outcome, seq-Outcome, asking-Ends, driving-Ends,
}

-- The statusword that is read first says: operation enabled, and no fault.
pub data Enabled {S : Type 0} (p : Plant S) (s : S) : Type 0 where
  enabled :
      (sw : ℕ)
      → (p.read_u16 0x6041 0 s).0 ≡ ok sw
      → (decode_statusword sw).operation_enabled ≡ true
      → (decode_statusword sw).fault ≡ false
      → Enabled p s

-- A jog with that velocity is on, is watched, and ends when its time to live is over.
pub record Jogging {S : Type 0} (velocity : ℤ) (ttl : ℕ) (c : Controller S) : Type 0 where
  pub active : c.state.active ≡ true
  pub same_velocity : c.state.velocity ≡ velocity
  pub limited : c.state.deadline ≡ c.state.last_update + ttl
  pub watched : c.watch_task ≡ WatchTask.running
  pub mode_ready : c.mode_ready ≡ true

abbrev pub press_log : Config → Bool → ℤ → List Sent
press_log cfg mode_ready velocity =
    (if mode_ready then [] else ready_log (pv_config cfg)) ++ (velocity_log velocity ++ pulse_log)

negated : (b : Bool) → not b ≡ false → b ≡ true
negated true h = refl
negated false h = absurd (cc)

-- A press that returns: it was checked before, if that is asked for.
pub record Pressed {S : Type 0} (p : Plant S) (cfg : Config) (before : S) (velocity : ℤ) (ttl : ℕ)
    (c : Controller S) : Type 0 where
  pub checked : cfg.require_operation_enabled ≡ true → Enabled p before
  pub jogging : Jogging velocity ttl c

module _ {S : Type 0} (p : Plant S) (t : IsTimely p) (aborted : S → Bool) (cfg : Config) where
  ensure_ready-Enabled :
      (w : World S)
      → Ends
          (Sends [] (λ _ _. cfg.require_operation_enabled ≡ true → Enabled p w.plant) w.sent)
          (ensure_ready_for_motion p aborted cfg w)
  unfolding ensure_ready_for_motion
  ensure_ready-Enabled w =
      if-Ends (not cfg.require_operation_enabled) _ _
        (λ b. ends (returned-Sends refl (λ h. absurd (cc))))
        (λ b.
          reading-Ends p _ _ w
            (λ sw r.
              raising-Ends (not (decode_statusword sw).operation_enabled) runtime_error _ _
                (λ on.
                  raise_if-Sends (decode_statusword sw).fault runtime_error _
                    (λ off _. enabled sw r (negated _ on) off))
                (λ _. nothing-Sends refl))
            (λ _ _. nothing-Sends refl))

  prepare-Outcome :
      (c : Controller S) (ready : Bool) (w : World (Controller S))
      → w.plant.state ≡ c.state
      → w.plant.watch_task ≡ c.watch_task
      → (ready ≡ true → w.plant.mode_ready ≡ true)
      → Ends
          (Outcome c
            (if ready then [] else ready_log (pv_config cfg))
            (λ _ v.
              (v.plant.state ≡ c.state)
              × (v.plant.watch_task ≡ c.watch_task)
              × (v.plant.mode_ready ≡ true))
            w.sent)
          (prepare p aborted cfg ready w)
  unfolding prepare when
  prepare-Outcome c true w q r h =
      ends (record { sends = returned-Sends refl (q, r, h refl); kept = tt })
  prepare-Outcome c false w q r h =
      driving-Ends _ _ w (ready-Sends p t (pv_config cfg) 0 (λ h. absurd (cc)) (its_drive w))
        (λ a v x. ends (record { sends = whole _ refl (λ _. (q, r, refl)) x; kept = tt }))
        (λ e v x. record { sends = part _ refl x; kept = (q, r) })

  -- The state that `refresh` puts in place, at a time.
  abbrev pub refreshed : ℤ → Option ℕ → ℕ → JogState
  refreshed velocity ttl time = record {
    active = true;
    velocity = velocity;
    last_update = time;
    deadline = time + or_default ttl cfg.ttl;
  }

  pub refresh-Ends :
      {B : Type 0} {R : Result B → World (Controller S) → Type 0} (velocity : ℤ) (ttl : Option ℕ)
      (f : Unit {0} → Action (Controller S) B) (w : World (Controller S))
      → Ends R (
          f tt (record w {
            plant = record w.plant { state = refreshed velocity ttl (p.clock w.plant.drive) };
          }))
      → Ends R ((refresh p aborted cfg velocity ttl >>= f) w)
  unfolding refresh on_drive ◌>>=◌
  refresh-Ends velocity ttl f w h = h

  pub refresh_last :
      {R : Result (Unit {0}) → World (Controller S) → Type 0} (velocity : ℤ) (ttl : Option ℕ)
      (w : World (Controller S))
      → Ends R (
          some (
            ok tt,
            record w {
              plant = record w.plant { state = refreshed velocity ttl (p.clock w.plant.drive) };
            },
          ))
      → Ends R (refresh p aborted cfg velocity ttl w)
  unfolding refresh on_drive ◌>>=◌
  refresh_last velocity ttl w h = h

  -- Whatever the drive answers, a press ends. If it returns, the jog is on with that velocity,
  -- watched, and limited by its time to live; the drive was in `Operation enabled` without a fault
  -- if that is required; and the mode was set and configured unless it was ready, then the velocity
  -- was sent, and the start bit set and released. If it raises, a first part of these was sent, and
  -- the state and the watchdog are as they were.
  pub press-Pressed :
      (velocity : ℤ) (ttl : Option ℕ) (w : World (Controller S))
      → Ends
          (Outcome w.plant
            (press_log cfg w.plant.mode_ready velocity)
            (λ _ v. Pressed p cfg w.plant.drive velocity (or_default ttl cfg.ttl) v.plant)
            w.sent)
          (press p aborted cfg velocity ttl w)
  unfolding press
  press-Pressed velocity ttl w =
      driving-Outcome w.plant [] _ _ _ w refl refl (ensure_ready-Enabled (its_drive w))
        (λ _ v₁ checked. asking-Ends _ _ (
          seq-Outcome w.plant _ _ _ _ _
            (prepare-Outcome w.plant w.plant.mode_ready (driven w v₁) refl refl (λ h. h))
            (λ _ v₂ x.
              driving-Outcome w.plant (velocity_log velocity ++ pulse_log) [] _ _ v₂ x.0 x.1
                (commanded-Sends p velocity (its_drive v₂))
                (λ _ v₃ _. refresh-Ends velocity ttl _ _ (
                  ends (record {
                    sends = returned-Sends refl (record {
                      checked = checked;
                      jogging = record {
                        active = refl;
                        same_velocity = refl;
                        limited = refl;
                        watched = refl;
                        mode_ready = x.2;
                      };
                    });
                    kept = tt;
                  }))))))
