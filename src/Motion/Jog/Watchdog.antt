-- ===== src/Motion/Jog/Watchdog.antt =====
-- The watchdog of a jog whose caller fell silent.
use dryve_d.Base.{
  ℕ, zero, suc, ◌+◌, ◌*◌, ◌≤◌, ◌<◌, max, ◌≡◌, refl, sym, ap, ◌∙◌, subst, Bool, true, false, not,
  Option, none, some, List, [], ◌∷◌, ◌++◌, append_assoc, leb, arith,
}
use dryve_d.Base.Int.{ℤ, pos}
use dryve_d.Base.Errors.{Error, Result, ok, err}
use dryve_d.Io.{Plant, IsTimely, World, Action, Sent, ◌>>=◌, repeat}
use dryve_d.Io.Rules.{Ends, ends, if-Ends, bind-Ends, weaken-Ends}
use dryve_d.Io.Steps.{attempt-Ends, round-Ends}
use dryve_d.Od.Controlword.{cw_set_bits, cw_clear_bits}
use dryve_d.Motion.ProfileVelocity as Pv
use dryve_d.Motion.Jog.{
  Config, Controller, StopMode, send_stop, switch_off, stop_active, stop_locked, watchdog_tick,
  watchdog_round, watchdog_turn, watchdog_loop, on_drive,
}
use dryve_d.Motion.Jog.Rules.{
  its_drive, driven, asking-Ends, driving-Ends, timing-Ends, resting-Ends,
}
use dryve_d.Motion.Jog.Stopping.{stop_log}

-- The drive takes the writes of a stop.
pub record TakesStop {S : Type 0} (p : Plant S) : Type 0 where
  pub velocity : (s : S) → (p.write_i32 0x60FF (pos 0) 0 s).0 ≡ ok tt
  pub control : (word : ℤ) (s : S) → (p.write_u16 0x6040 word 0 s).0 ≡ ok tt

-- The coroutine returns, and has sent a list.
abbrev Returns : {S : Type 0} → List Sent → List Sent → Result (Unit {0}) → World S → Type 0
Returns l before r v = (r ≡ ok tt) × (v.sent ≡ before ++ l)

abbrev going_on : Result (Result (Unit {0})) → Result (Option (Unit {0}))
going_on (ok _) = ok none
going_on (err e) = err e

raised : {e : Error} {a : Unit {0}} → ¬ (err e ≡ ok a)
raised h = cc

module _ {S : Type 0} where
  seq-Returns :
      (l k : List Sent) (m n : Action S (Unit {0})) (w : World S)
      → Ends (Returns l w.sent) (m w)
      → ((v : World S) → Ends (Returns k v.sent) (n v))
      → Ends (Returns (l ++ k) w.sent) ((m >>= λ _. n) w)
  seq-Returns l k m n w h g =
      bind-Ends m h
        (λ a v x.
          weaken-Ends (g v) (λ r u y. (y.0, y.1 ∙ ap (λ s. s ++ k) x.1 ∙ append_assoc w.sent l k)))
        (λ e v x. absurd (raised x.0))

module _ {S : Type 0} (p : Plant S) (takes : TakesStop p) (aborted : S → Bool) (cfg : Config) where
  send_stop-Returns :
      (mode : StopMode) (w : World S)
      → Ends (Returns (stop_log mode) w.sent) (send_stop p aborted cfg mode w)
  unfolding send_stop Pv.halt Pv.stop_velocity_zero Pv.set_target_velocity cw_set_bits cw_clear_bits
  send_stop-Returns StopMode.velocity_zero w = ends (takes.velocity w.plant, refl)
  send_stop-Returns StopMode.halt w =
      seq-Returns (_ ∷ []) _ _ _ w (ends (takes.control _ w.plant, refl)) λ v.
        seq-Returns (_ ∷ []) (_ ∷ []) _ _ v (ends (takes.velocity v.plant, refl))
          λ u. ends (takes.control _ u.plant, refl)

  -- A jog that was on is off, by the stop that was sent.
  abbrev pub Off : World (Controller S) → World (Controller S) → Type 0
  Off w v = (v.plant.state.active ≡ false) × (v.sent ≡ w.sent ++ stop_log cfg.stop_mode)

  switched :
      (w : World (Controller S)) (v : World S)
      → v.sent ≡ w.sent ++ stop_log cfg.stop_mode
      → Ends (λ r u. (r ≡ ok tt) × Off w u) (switch_off p aborted cfg (driven w v))
  unfolding switch_off on_drive ◌>>=◌
  switched w v q = ends (refl, (refl, q))

  stop_locked-Off :
      (w : World (Controller S))
      → w.plant.state.active ≡ true
      → Ends (λ r v. (r ≡ ok tt) × Off w v) (stop_locked p aborted cfg w)
  unfolding stop_locked stop_active
  stop_locked-Off w on = asking-Ends _ w (
      if-Ends (not w.plant.state.active) _ _ (λ b. absurd (cc))
        (λ _.
          driving-Ends _ _ w (send_stop-Returns cfg.stop_mode (its_drive w))
            (λ _ v x. switched w v x.1) (λ e v x. absurd (raised x.0))))

  -- What a turn of the watchdog does while a jog is on.
  data Turned (w : World (Controller S))
      : Result (Option (Unit {0})) → World (Controller S) → Type 0 where
    ended : {v : World (Controller S)} → Off w v → Turned w (ok (some tt)) v
    stopped : {v : World (Controller S)} → Off w v → Turned w (ok none) v
    waited :
        {v : World (Controller S)}
        → v.plant.state ≡ w.plant.state
        → v.sent ≡ w.sent
        → p.clock w.plant.drive + max 10000 cfg.watch_interval ≤ p.clock v.plant.drive
        → p.clock v.plant.drive < w.plant.state.deadline
        → Turned w (ok none) v

  on_again : (b : Bool) {c : Bool} → b ≡ c → c ≡ true → ¬ (not b ≡ true)
  on_again b q on h = cc

  module _ (t : IsTimely p) (w : World (Controller S)) (on : w.plant.state.active ≡ true) where
    tick-Turned :
        (v : World (Controller S))
        → v.plant.state ≡ w.plant.state
        → v.sent ≡ w.sent
        → p.clock w.plant.drive + max 10000 cfg.watch_interval ≤ p.clock v.plant.drive
        → Ends (λ r u. Turned w (ok none) u) (watchdog_tick p aborted cfg v)
    unfolding watchdog_tick
    tick-Turned v q r l = asking-Ends _ v (
        if-Ends (not v.plant.state.active) _ _
          (λ b. absurd (on_again v.plant.state.active (ap (λ s. s.active) q) on b))
          (λ _. timing-Ends p _ v (
            if-Ends (leb v.plant.state.deadline (p.clock v.plant.drive)) _ _
              (λ _.
                weaken-Ends (stop_locked-Off v (ap (λ s. s.active) q ∙ on))
                  (λ a u x. stopped (x.1.0, x.1.1 ∙ ap (λ s. s ++ stop_log cfg.stop_mode) r)))
              (λ b. ends (waited q r l (early (ap (λ s. s.deadline) q) b))))))
      where
        early :
            {d e : ℕ} → d ≡ e → leb d (p.clock v.plant.drive) ≡ false → p.clock v.plant.drive < e
        early q b = ground arith

    round-Turned :
        (v : World (Controller S))
        → v.plant.state ≡ w.plant.state
        → v.sent ≡ w.sent
        → p.clock w.plant.drive + max 10000 cfg.watch_interval ≤ p.clock v.plant.drive
        → Ends (Turned w) (watchdog_round p aborted cfg v)
    unfolding watchdog_round
    round-Turned v q r l = asking-Ends _ v (
        if-Ends (aborted v.plant.drive) _ _
          (λ _.
            bind-Ends _ (stop_locked-Off v (ap (λ s. s.active) q ∙ on))
              (λ a u x. ends (ended (x.1.0, x.1.1 ∙ ap (λ s. s ++ stop_log cfg.stop_mode) r)))
              (λ e u x. absurd (raised x.0)))
          (λ _.
            if-Ends (not v.plant.state.active) _ _
              (λ b. absurd (on_again v.plant.state.active (ap (λ s. s.active) q) on b))
              (λ _.
                bind-Ends {Q = λ r u. Turned w (going_on r) u} _
                  (attempt-Ends _ v (tick-Turned v q r l)) (λ a u x. ends x) (λ e u x. x))))

    turn-Turned : Ends (Turned w) (watchdog_turn p aborted cfg w)
    unfolding watchdog_turn
    turn-Turned = asking-Ends _ w (
        if-Ends (not w.plant.state.active) _ _
          (λ b. absurd (on_again w.plant.state.active refl on b))
          (λ _. resting-Ends p _ _ w (round-Turned _ refl refl (t.sleeps _ w.plant.drive))))

  record Rested (v : World (Controller S)) (r : Result (Option (Unit {0})))
      (u : World (Controller S)) : Type 0 where
    returned : r ≡ ok (some tt)
    same : u ≡ v

  not_again : {a : Unit {0}} → ¬ (ok none ≡ ok (some a))
  not_again h = cc

  off-turn :
      (v : World (Controller S))
      → v.plant.state.active ≡ false
      → Ends (Rested v) (watchdog_turn p aborted cfg v)
  unfolding watchdog_turn
  off-turn v off = asking-Ends _ v (
      if-Ends (not v.plant.state.active) _ _ (λ _. ends (record { returned = refl; same = refl }))
        (λ b. absurd (cc)))

  off-loop :
      (n : ℕ) (v : World (Controller S))
      → v.plant.state.active ≡ false
      → Ends (λ r u. (r ≡ ok tt) × (u ≡ v)) (repeat (suc n) (watchdog_turn p aborted cfg) v)
  off-loop n v off =
      round-Ends (Rested v) _ n v (off-turn v off) (λ a u x. (refl, x.same))
        (λ u x. absurd (not_again x.returned)) (λ e u x. absurd (cc))

  after-Off :
      (w v : World (Controller S)) (n : ℕ)
      → Off w v
      → Ends (λ r u. (r ≡ ok tt) × Off w u) (repeat (suc n) (watchdog_turn p aborted cfg) v)
  after-Off w v n x = weaken-Ends (off-loop n v x.0) (λ r u y. (y.0, subst (Off w) (sym y.1) x))

  moved-Off : (w v u : World (Controller S)) → v.sent ≡ w.sent → Off v u → Off w u
  moved-Off w v u q x = (x.0, x.1 ∙ ap (λ s. s ++ stop_log cfg.stop_mode) q)

  abbrev raised_result : Error → Result (Unit {0})
  raised_result e = err e

  ended-Off :
      (w : World (Controller S)) (a : Unit {0}) (v : World (Controller S))
      → Turned w (ok (some a)) v
      → (ok a ≡ ok tt) × Off w v
  ended-Off w a v (ended x) = (refl, x)

  raised-Off :
      (w : World (Controller S)) (e : Error) (v : World (Controller S))
      → Turned w (err e) v
      → (raised_result e ≡ ok tt) × Off w v
  raised-Off w e v x = elim x [ ]

  after_turn :
      (w v : World (Controller S)) (n : ℕ)
      → Turned w (ok none) v
      → (v.plant.state ≡ w.plant.state
          → v.sent ≡ w.sent
          → p.clock w.plant.drive + max 10000 cfg.watch_interval ≤ p.clock v.plant.drive
          → p.clock v.plant.drive < w.plant.state.deadline
          → Ends (λ r u. (r ≡ ok tt) × Off w u) (repeat (suc n) (watchdog_turn p aborted cfg) v))
      → Ends (λ r u. (r ≡ ok tt) × Off w u) (repeat (suc n) (watchdog_turn p aborted cfg) v)
  after_turn w v n (stopped x) k = after-Off w v n x
  after_turn w v n (waited q r l b) k = k q r l b

  nearer :
      {d e : ℕ} (n : ℕ) (w v : World (Controller S))
      → e ≡ d
      → d ≤ p.clock w.plant.drive + suc n * max 10000 cfg.watch_interval
      → p.clock w.plant.drive + max 10000 cfg.watch_interval ≤ p.clock v.plant.drive
      → e ≤ p.clock v.plant.drive + n * max 10000 cfg.watch_interval
  nearer n w v q h l = omega arith

  loop-Off :
      IsTimely p
      → (n : ℕ) (w : World (Controller S)) → w.plant.state.active ≡ true
      → w.plant.state.deadline ≤ p.clock w.plant.drive + n * max 10000 cfg.watch_interval
      → Ends (λ r v. (r ≡ ok tt) × Off w v) (repeat (suc (suc n)) (watchdog_turn p aborted cfg) w)
  loop-Off t zero w on h =
      round-Ends (Turned w) _ 1 w (turn-Turned t w on) (ended-Off w)
        (λ v x. after_turn w v 0 x (λ q r l b. absurd (omega arith))) (raised-Off w)
  loop-Off t (suc n) w on h =
      round-Ends (Turned w) _ (suc (suc n)) w (turn-Turned t w on) (ended-Off w)
        (λ v x. after_turn w v (suc n) x (λ q r l b.
          weaken-Ends
            (loop-Off t n v (ap (λ s. s.active) q ∙ on) (nearer n w v (ap (λ s. s.deadline) q) h l))
            (λ a u y. (y.0, moved-Off w v u r y.1))))
        (raised-Off w)

  -- The watchdog stops a jog for which no call comes any more: whatever else the drive does, if it
  -- takes the writes of a stop, then the watchdog's loop returns, the jog is off, and what was sent
  -- is the stop. One round more than the intervals that cover the time to live, and one for the
  -- test at the end, are enough.
  pub watchdog_loop-Off :
      IsTimely p
      → (n : ℕ) (w : World (Controller S)) → w.plant.state.active ≡ true
      → w.plant.state.deadline ≤ p.clock w.plant.drive + n * max 10000 cfg.watch_interval
      → Ends (λ r v. (r ≡ ok tt) × Off w v) (watchdog_loop p aborted cfg (suc (suc n)) w)
  unfolding watchdog_loop
  watchdog_loop-Off t n w on h = loop-Off t n w on h
