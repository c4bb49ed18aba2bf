-- ===== src/Api/Stop/Halted.antt =====
-- `_execute_stop`: what a stop sends.
use dryve_d.Base.{
  ℕ, suc, ◌*◌, ◌≤◌, ◌≡◌, refl, ap, ◌∙◌, Bool, not, ◌&&◌, ◌||◌, Option, none, some, List, [], ◌∷◌,
  ◌++◌, append-nil, append_assoc, sym,
}
use dryve_d.Base.Int.{ℤ, pos, eqb_ℤ}
use dryve_d.Base.Errors.{Error, Result, ok, err, runtime_error}
use dryve_d.Io.{Plant, IsTimely, World, Action, Sent, pure, ◌>>=◌, attempt}
use dryve_d.Io.Rules.{Ends, ends, bind-Ends, weaken-Ends, if-Ends}
use dryve_d.Io.Steps.{reading-Ends, attempt-Ends, raising-Ends}
use dryve_d.Od.Controlword.{cw_set_bits}
use dryve_d.Od.Statusword.{Flags}
use dryve_d.Cia402.StateMachine as Sm
use dryve_d.Cia402.StateMachine.Commands.{command}
use dryve_d.Cia402.StateMachine.Stop.{quick_stop-Ends}
use dryve_d.Motion.ProfilePosition as Pp
use dryve_d.Motion.ProfileVelocity as Pv
use dryve_d.Api.Stop.{
  Components, StopMode, quick, normal, Surroundings, get_status_live, cached_or_live, get_status,
  try_halt, halt_motor, stop_in_mode, stop_enabled, execute_stop,
}

-- What follows the halt: nothing, a halt, the velocity 0, or a quick stop.
pub data Final : List Sent → Type 0 where
  nothing : Final []
  halts : Final (command 0x010F ∷ [])
  zeroes : Final (record { index = 0x60FF; value = pos 0; subindex = 0 } ∷ [])
  quick_stops : Final (command 0x0B ∷ [])

-- The halt: one write of it, or two.
pub data Halts : List Sent → Type 0 where
  once : Halts (command 0x010F ∷ [])
  twice : Halts (command 0x010F ∷ command 0x010F ∷ [])

data Sending (P : List Sent → Type 0) {S : Type 0} (before : List Sent) (v : World S) : Type 0 where
  sending : (l : List Sent) → P l → v.sent ≡ before ++ l → Sending P before v

-- A stop returns, having sent the halt and then what fits the mode.
pub data Halted {S : Type 0} (before : List Sent) : Result (Unit {0}) → World S → Type 0 where
  halted :
      {v : World S} (k l : List Sent)
      → Halts k
      → Final l
      → v.sent ≡ before ++ (k ++ l)
      → Halted before (ok tt) v

module _ {S : Type 0} (p : Plant S) (around : Surroundings S) where
  -- One attempt to write the halt: it never raises.
  record Tried (w : World S) (r : Result Bool) (v : World S) : Type 0 where
    value : (b : Bool) × (r ≡ ok b)
    log : v.sent ≡ w.sent ++ (command 0x010F ∷ [])

  try_halt-Tried : (w : World S) → Ends (Tried w) (try_halt p around w)
  unfolding try_halt cw_set_bits attempt ◌>>=◌
  try_halt-Tried w = ends (record { value = (_, refl); log = refl })

  abbrev Halting : World S → Result Bool → World S → Type 0
  Halting w r v = ((b : Bool) × (r ≡ ok b)) × Sending Halts w.sent v

  not_raised : {e : Error} {b : Bool} → ¬ (err e ≡ ok b)
  not_raised h = cc

  halt_motor-Halting : (w : World S) → Ends (Halting w) (halt_motor p around w)
  unfolding halt_motor
  halt_motor-Halting w =
      bind-Ends _ (try_halt-Tried w)
        (λ b v x.
          if-Ends b _ _ (λ _. ends ((_, refl), sending _ once x.log))
            (λ _. weaken-Ends (try_halt-Tried v) (λ r u y. (
              y.value,
              sending _ twice (
                  y.log
                  ∙ ap (λ s. s ++ (command 0x010F ∷ [])) x.log
                  ∙ append_assoc w.sent (command 0x010F ∷ []) (command 0x010F ∷ [])),
            ))))
        (λ e v x. absurd (not_raised x.value.1))

  abbrev Finishing : {A : Type 0} → World S → Result A → World S → Type 0
  Finishing w r v = Sending Final w.sent v

  unsent : (w : World S) {l : List Sent} → l ≡ w.sent → l ≡ w.sent ++ []
  unsent w q = q ∙ sym (append-nil w.sent)

  live-unsent : (w : World S) → Ends (λ _ v. v.sent ≡ w.sent) (get_status_live p around w)
  unfolding get_status_live
  live-unsent w = reading-Ends p (p.read_u16 0x6041 0) _ w (λ sw _. ends refl) (λ e _. refl)

  cached-unsent :
      (o : Option Flags) (w : World S) → Ends (λ _ v. v.sent ≡ w.sent) (cached_or_live p around o w)
  cached-unsent none w = live-unsent w
  cached-unsent (some flags) w = ends refl

  get_status-unsent : (w : World S) → Ends (λ _ v. v.sent ≡ w.sent) (get_status p around w)
  unfolding get_status
  get_status-unsent w = cached-unsent (around.decoded_status w.plant) w

  module _ (t : IsTimely p) (cfg : Sm.Config) (n : ℕ) (enough : 2000000 ≤ n * cfg.poll_interval)
      (pp_cfg : Pp.Config) (drive_window : Option ℕ) (aborted : S → Bool)
      (components : Components) where
    quick_stop-Finishing :
        (w v : World S) → v.sent ≡ w.sent → Ends (Finishing w) (Sm.quick_stop p cfg (suc n) v)
    quick_stop-Finishing w v q =
        weaken-Ends (quick_stop-Ends p cfg t n enough v)
          (λ r u x. sending _ quick_stops (x ∙ ap (λ s. s ++ (command 0x0B ∷ [])) q))

    stop_in_mode-Finishing :
        (mode : ℤ) (w v : World S)
        → v.sent ≡ w.sent
        → Ends
            (Finishing w)
            (stop_in_mode p around cfg pp_cfg drive_window aborted components (suc n) mode v)
    unfolding stop_in_mode Pp.stop Pp.halt Pv.stop Pv.set_target_velocity cw_set_bits
    stop_in_mode-Finishing mode w v q =
        if-Ends (eqb_ℤ mode (pos 1) && components.profile_position) _ _
          (λ _. ends (sending _ halts (ap (λ s. s ++ (command 0x010F ∷ [])) q)))
          (λ _.
            if-Ends (eqb_ℤ mode (pos 3) && components.profile_velocity) _ _
              (λ _. ends (
                sending _ zeroes
                  (ap (λ s. s ++ (record { index = 0x60FF; value = pos 0; subindex = 0 } ∷ [])) q)))
              (λ _. quick_stop-Finishing w v q))

    stop_enabled-Finishing :
        (mode : StopMode) (w : World S)
        → Ends
            (Finishing w)
            (stop_enabled p around cfg pp_cfg drive_window aborted components mode (suc n) w)
    unfolding stop_enabled
    stop_enabled-Finishing mode w =
        bind-Ends _ (get_status-unsent w)
          (λ status v q.
            if-Ends (not (status.operation_enabled || status.quick_stop)) _ _
              (λ _. ends (sending _ nothing (unsent w q)))
              (λ _.
                raising-Ends (not components.state_machine) runtime_error _ v
                  (λ _. by_mode mode v q) (λ _. sending _ nothing (unsent w q))))
          (λ e v q. sending _ nothing (unsent w q))
      where
        by_mode :
            (mode : StopMode) (v : World S)
            → v.sent ≡ w.sent
            → Ends (Finishing w) (
                (elim mode as (λ _. Action S (Unit {0})) [
                  | quick ↦ Sm.quick_stop p cfg (suc n)
                  | normal ↦ dryve_d.Io.read_i8 p 0x6061 0 >>= λ mode_display.
                      stop_in_mode p around cfg pp_cfg drive_window aborted components
                        (suc n)
                        mode_display
                ])
                  v)
        by_mode quick v q = quick_stop-Finishing w v q
        by_mode normal v q =
            reading-Ends p _ _ v (λ m _. stop_in_mode-Finishing m w _ q)
              (λ e _. sending _ nothing (unsent w q))

    -- Whatever the drive answers and raises, a stop of either kind returns without an exception. It
    -- has sent the halt bit with the hold bits, once or twice, and then nothing or one write: the
    -- halt again, the velocity 0, or the quick stop.
    pub execute_stop-Halted :
        (mode : StopMode) (w : World S)
        → Ends
            (Halted w.sent)
            (execute_stop p around cfg pp_cfg drive_window aborted components mode (suc n) w)
    unfolding execute_stop
    execute_stop-Halted mode w =
        bind-Ends _ (halt_motor-Halting (record w { plant = around.set_abort w.plant }))
          (λ b v x.
            bind-Ends {Q = Caught v} _
              (attempt-Ends _ v (weaken-Ends (stop_enabled-Finishing mode v) (λ r u y. y)))
              (λ r u y. ends (joined x.1 y)) (λ e u y. absurd y))
          (λ e v x. absurd (not_raised x.0.1))
      where
        Caught : World S → Result (Result (Unit {0})) → World S → Type 0
        Caught v (ok r) u = Sending Final v.sent u
        Caught v (err e) u = ⊥

        joined :
            {v u : World S}
            → Sending Halts w.sent v
            → Sending Final v.sent u
            → Halted w.sent (ok tt) u
        joined (sending k h q) (sending l f r) =
            halted k l h f (r ∙ ap (λ s. s ++ l) q ∙ append_assoc w.sent k l)
