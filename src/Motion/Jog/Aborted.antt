-- ===== src/Motion/Jog/Aborted.antt =====
-- A watchdog round after the abort event.
use dryve_d.Base.{◌≡◌, refl, sym, ap, ◌∙◌, subst, Bool, true, false, ◌&&◌, Option, none, some}
use dryve_d.Base.Errors.{Error, Result, ok, err}
use dryve_d.Io.{Plant, IsTimely, World}
use dryve_d.Io.Rules.{Ends, ends, if-Ends, bind-Ends, at-Ends}
use dryve_d.Io.Steps.{attempt-Ends}
use dryve_d.Motion.Jog.{
  Config, Controller, WatchTask, goes_on, stop_locked, watchdog_round, watchdog_step,
}
use dryve_d.Motion.Jog.Rules.{asking-Ends}
use dryve_d.Motion.Jog.Stopping.{stop_locked-Stopped}

both : {b : Bool} → b ≡ true → ¬ (b ≡ false)
both q r = cc

abbrev error_of : {A : Type 0} → Result A → Option Error
error_of (ok a) = none
error_of (err e) = some e

module _ {S : Type 0} (p : Plant S) (t : IsTimely p) (aborted : S → Bool) (cfg : Config) where
  -- If the abort event is set and the stop that the watchdog then makes raises, the jog is still on
  -- and the watchdog's task is over.
  pub aborted_step-unwatched :
      (w v : World (Controller S)) (e : Error)
      → aborted w.plant.drive ≡ true
      → w.plant.state.active ≡ true
      → stop_locked p aborted cfg w ≡ some (err e, v)
      → Ends
          (λ _ u. (u.plant.state.active ≡ true) × (u.plant.watch_task ≡ WatchTask.finished))
          (watchdog_step p aborted cfg w)
  unfolding watchdog_step watchdog_round
  aborted_step-unwatched w v e set on q =
      bind-Ends {Q = Failed} _
        (attempt-Ends _ w (
          asking-Ends _ w (
            if-Ends (aborted w.plant.drive) _ _
              (λ _.
                bind-Ends {Q = λ r u. (error_of r ≡ some e) × (u ≡ v)} _
                  (subst (Ends _) (sym q) (ends (refl, refl))) (λ a u y. absurd (returned y.0))
                  (λ d u y. y))
              (λ b. absurd (both set b)))))
        (λ r u y. asking-Ends _ u (
          if-Ends (goes_on r && u.plant.state.active) _ _
            (λ b. absurd (stops r u.plant.state.active y.0 b))
            (λ _. ends (subst (λ z. z.plant.state.active ≡ true) (sym y.1) still_on, refl))))
        (λ d u y. absurd y)
    where
      Failed : Result (Result (Option (Unit {0}))) → World (Controller S) → Type 0
      Failed (ok r) u = (error_of r ≡ some e) × (u ≡ v)
      Failed (err d) u = ⊥

      returned : ¬ (none ≡ some e)
      returned h = cc

      stops :
          (r : Result (Option (Unit {0}))) (b : Bool)
          → error_of r ≡ some e
          → ¬ (goes_on r && b ≡ true)
      stops (ok a) b h k = cc
      stops (err d) b h k = cc

      still_on : v.plant.state.active ≡ true
      still_on =
          ap (λ s. s.active)
            (at-Ends (subst (Ends _) q (stop_locked-Stopped p t aborted cfg w))).kept.0
          ∙ on
