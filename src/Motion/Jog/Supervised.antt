-- ===== src/Motion/Jog/Supervised.antt =====
-- What every operation of the jog controller keeps.
use dryve_d.Base.{
  ℕ, ◌≤◌, ◌≡◌, ◌⊎◌, inl, inr, refl, sym, ap, ◌∙◌, subst, Bool, true, false, not, ◌&&◌, Option, some,
  List, leb, arith,
}
use dryve_d.Base.Int.{ℤ, pos}
use dryve_d.Base.Errors.{Result, ok, err}
use dryve_d.Io.{Plant, IsTimely, World, Sent}
use dryve_d.Io.Rules.{Ends, ends, at-Ends, if-Ends, bind-Ends, weaken-Ends}
use dryve_d.Io.Steps.{attempt-Ends}
use dryve_d.Io.Log.{value-Sends}
use dryve_d.Motion.{or_default}
use dryve_d.Motion.Jog.{
  Config, Controller, WatchTask, goes_on, press, keepalive, stop_locked, watchdog_tick,
  watchdog_round, watchdog_step, close,
}
use dryve_d.Motion.Jog.Rules.{Outcome, asking-Ends, timing-Ends, updating-Ends}
use dryve_d.Motion.Jog.Pressed.{press-Pressed}
use dryve_d.Motion.Jog.Stopping.{
  Stopped, Refreshed, ignored, extended, stop_locked-Stopped, keepalive-Refreshed,
}

-- A jog that is on has a watchdog and a deadline, and a jog that is off has no velocity.
pub record Supervised {S : Type 0} (c : Controller S) : Type 0 where
  pub watched : c.state.active ≡ true → c.watch_task ≡ WatchTask.running
  pub still : c.state.active ≡ false → c.state.velocity ≡ pos 0
  pub limited : c.state.last_update ≤ c.state.deadline

both : {b : Bool} → b ≡ true → ¬ (b ≡ false)
both q r = cc

module _ {S : Type 0} where
  abbrev pub Supervises : {A : Type 0} → Result A → World (Controller S) → Type 0
  Supervises r v = Supervised v.plant

  same-Supervised :
      (c d : Controller S)
      → d.state ≡ c.state
      → d.watch_task ≡ c.watch_task
      → Supervised c
      → Supervised d
  same-Supervised c d q r x = record {
    watched = λ on. r ∙ x.watched (ap (λ s. s.active) (sym q) ∙ on);
    still = λ off. ap (λ s. s.velocity) q ∙ x.still (ap (λ s. s.active) (sym q) ∙ off);
    limited = subst (λ s. s.last_update ≤ s.deadline) (sym q) x.limited;
  }

  outcome-Supervised :
      {l before : List Sent} {P : Unit {0} → World (Controller S) → Type 0} {c : Controller S}
      {o : Option (Result (Unit {0}) × World (Controller S))}
      → Supervised c
      → ((v : World (Controller S)) → P tt v → Supervised v.plant)
      → Ends (Outcome c l P before) o
      → Ends Supervises o
  outcome-Supervised x f (ends {r = ok a} {v = v} q) = ends (f v (value-Sends q.sends))
  outcome-Supervised {c = c} x f (ends {r = err e} {v = v} q) =
      ends (same-Supervised c v.plant q.kept.0 q.kept.1 x)

  Stopped-Supervised : (c d : Controller S) → Supervised c → Stopped c d → Supervised d
  Stopped-Supervised c d x y = rested y.at_rest
    where
      rested :
          (d.state ≡ c.state)
            ⊎ ((d.state.velocity ≡ pos 0) × (d.state.last_update ≡ d.state.deadline))
          → Supervised d
      rested (inl q) = same-Supervised c d q y.same_task x
      rested (inr q) = record {
        watched = λ on. absurd (cc);
        still = λ _. q.0;
        limited = omega (arith, q.1);
      }

module _ {S : Type 0} (p : Plant S) (t : IsTimely p) (aborted : S → Bool) (cfg : Config) where
  pub press-Supervised :
      (velocity : ℤ) (ttl : Option ℕ) (w : World (Controller S))
      → Supervised w.plant
      → Ends Supervises (press p aborted cfg velocity ttl w)
  press-Supervised velocity ttl w x =
      outcome-Supervised x
        (λ v y. record {
          watched = λ _. y.jogging.watched;
          still = λ off. absurd (both y.jogging.active off);
          limited = omega (arith, y.jogging.limited);
        })
        (press-Pressed p t aborted cfg velocity ttl w)

  pub keepalive-Supervised :
      (velocity : Option ℤ) (ttl : Option ℕ) (w : World (Controller S))
      → Supervised w.plant
      → Ends Supervises (keepalive p aborted cfg velocity ttl w)
  keepalive-Supervised velocity ttl w x =
      outcome-Supervised x (λ v y. kept v y) (keepalive-Refreshed p t aborted cfg velocity ttl w)
    where
      kept :
          (v : World (Controller S))
          → Refreshed velocity (or_default ttl cfg.ttl) w.plant v.plant
          → Supervised v.plant
      kept v (ignored _ q) =
          same-Supervised w.plant v.plant (ap (λ c. c.state) q) (ap (λ c. c.watch_task) q) x
      kept v (extended was on _ q _ r) = record {
        watched = λ _. r ∙ x.watched was;
        still = λ off. absurd (both on off);
        limited = omega (arith, q);
      }

  pub stop_locked-Supervised :
      (w : World (Controller S))
      → Supervised w.plant
      → Ends Supervises (stop_locked p aborted cfg w)
  stop_locked-Supervised w x =
      outcome-Supervised x (λ v y. Stopped-Supervised w.plant v.plant x y)
        (stop_locked-Stopped p t aborted cfg w)

  pub tick-Supervised :
      (w : World (Controller S))
      → Supervised w.plant
      → Ends Supervises (watchdog_tick p aborted cfg w)
  unfolding watchdog_tick
  tick-Supervised w x = asking-Ends _ w (
      if-Ends (not w.plant.state.active) _ _ (λ _. ends x)
        (λ _. timing-Ends p _ w (
          if-Ends (leb w.plant.state.deadline (p.clock w.plant.drive)) _ _
            (λ _. stop_locked-Supervised w x) (λ _. ends x))))

  -- The controller after `close`, whose jog is off.
  closed :
      (c d : Controller S)
      → Supervised c
      → Stopped c d
      → Supervised (record d { mode_ready = false; watch_task = WatchTask.absent })
  closed c d x y = record {
    watched = λ on. absurd (both on y.inactive);
    still = (Stopped-Supervised c d x y).still;
    limited = (Stopped-Supervised c d x y).limited;
  }

  pub close-Supervised :
      (w : World (Controller S)) → Supervised w.plant → Ends Supervises (close p aborted cfg w)
  unfolding close
  close-Supervised w x =
      bind-Ends {Q = Outcome w.plant _ (λ _ v. Stopped w.plant v.plant) w.sent} _
        (stop_locked-Stopped p t aborted cfg w)
        (λ a v y. updating-Ends _ _ v (ends (closed w.plant v.plant x (value-Sends y.sends))))
        (λ e v y. same-Supervised w.plant v.plant y.kept.0 y.kept.1 x)

  -- What the watchdog's step looks at after its round.
  abbrev Rounded : Result (Option (Unit {0})) → World (Controller S) → Type 0
  Rounded r v = Supervised v.plant × ((goes_on r ≡ true) ⊎ (v.plant.state.active ≡ false))

  abbrev Tried : Result (Result (Unit {0})) → World (Controller S) → Type 0
  Tried (ok r) v = Supervised v.plant
  Tried (err e) v = ⊥

  abbrev Stepped : Result (Result (Option (Unit {0}))) → World (Controller S) → Type 0
  Stepped (ok r) v = Rounded r v
  Stepped (err e) v = ⊥

  off_of : (b : Bool) → not b ≡ true → b ≡ false
  off_of true h = absurd (cc)
  off_of false h = refl

  -- A task that ends leaves no jog that is on.
  over :
      (r : Result (Option (Unit {0}))) (v : World (Controller S))
      → Rounded r v
      → goes_on r && v.plant.state.active ≡ false
      → v.plant.state.active ≡ false
  over r v (x, inl g) h = ap (λ b. b && v.plant.state.active) (sym g) ∙ h
  over r v (x, inr off) h = off

  round-Rounded :
      (w : World (Controller S))
      → Supervised w.plant
      → aborted w.plant.drive ≡ false
      → Ends Rounded (watchdog_round p aborted cfg w)
  unfolding watchdog_round
  round-Rounded w x calm = asking-Ends _ w (
      if-Ends (aborted w.plant.drive) _ _ (λ b. absurd (both b calm))
        (λ _.
          if-Ends (not w.plant.state.active) _ _
            (λ b. ends (x, inr (off_of w.plant.state.active b)))
            (λ _.
              bind-Ends {Q = Tried} _
                (attempt-Ends _ w (weaken-Ends (tick-Supervised w x) (λ r v y. y)))
                (λ a v y. ends (y, inl refl)) (λ e v y. absurd y))))

  pub step-Supervised :
      (w : World (Controller S))
      → Supervised w.plant
      → aborted w.plant.drive ≡ false
      → Ends Supervises (watchdog_step p aborted cfg w)
  unfolding watchdog_step
  step-Supervised w x calm =
      bind-Ends {Q = Stepped} _ (attempt-Ends _ w (round-Rounded w x calm))
        (λ r v y. asking-Ends _ v (
          if-Ends (goes_on r && v.plant.state.active) _ _ (λ _. ends y.0)
            (λ b. ends (record {
              watched = λ on. absurd (both on (over r v y b));
              still = y.0.still;
              limited = y.0.limited;
            }))))
        (λ e v y. absurd y)

  -- A round that finds the abort event set, and whose stop returns.
  pub aborted_step-Supervised :
      (w v : World (Controller S))
      → Supervised w.plant
      → aborted w.plant.drive ≡ true
      → stop_locked p aborted cfg w ≡ some (ok tt, v)
      → Ends Supervises (watchdog_step p aborted cfg w)
  unfolding watchdog_step watchdog_round
  aborted_step-Supervised w v x set stops =
      bind-Ends {Q = Stepped} _
        (attempt-Ends _ w (
          asking-Ends _ w (
            if-Ends (aborted w.plant.drive) _ _
              (λ _.
                bind-Ends {Q = Off} _ (subst (Ends Off) (sym stops) (ends off))
                  (λ a u y. ends (y.0, inr y.1)) (λ e u y. absurd y))
              (λ b. absurd (both set b)))))
        (λ r u y. asking-Ends _ u (
          if-Ends (goes_on r && u.plant.state.active) _ _ (λ _. ends y.0)
            (λ b. ends (record {
              watched = λ on. absurd (both on (over r u y b));
              still = y.0.still;
              limited = y.0.limited;
            }))))
        (λ e u y. absurd y)
    where
      Off : Result (Unit {0}) → World (Controller S) → Type 0
      Off (ok a) u = Supervised u.plant × (u.plant.state.active ≡ false)
      Off (err e) u = ⊥

      off : Off (ok tt) v
      off =
          let y : Outcome w.plant _ (λ _ u. Stopped w.plant u.plant) w.sent (ok tt) v =
            at-Ends (subst (Ends _) stops (stop_locked-Stopped p t aborted cfg w)) in
          let z = value-Sends y.sends in (Stopped-Supervised w.plant v.plant x z, z.inactive)
