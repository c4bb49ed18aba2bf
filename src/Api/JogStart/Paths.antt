-- ===== src/Api/JogStart/Paths.antt =====
-- The hot, the warm and the cold path of `jog_start` end, whatever the drive answers.
use dryve_d.Base.{ℕ, suc, Bool, not, ◌||◌, Option, none, some}
use dryve_d.Base.Int.{ℤ}
use dryve_d.Base.Errors.{Result, runtime_error}
use dryve_d.Io.{Plant, IsTimely, World, Action, ◌>>=◌, read_i8}
use dryve_d.Io.Rules.{Ends, ends, bind-Ends, weaken-Ends, if-Ends}
use dryve_d.Io.Steps.{raising-Ends, attempt-Ends}
use dryve_d.Od.Statusword.{Flags}
use dryve_d.Cia402.StateMachine.Commands.{EnoughRounds}
use dryve_d.Motion.Jog.{Controller, on_drive, press}
use dryve_d.Motion.Jog.Rules.{on_drive-Ends, asking-Ends, updating-Ends, its_drive}
use dryve_d.Motion.Jog.Pressed.{press-Pressed}
use dryve_d.Motion.ProfileVelocity.Setpoints.{zero-Sends}
use dryve_d.Api.Home.{check_drive_ready, require_remote}
use dryve_d.Api.Move.{Setup, Timers, clear_halt}
use dryve_d.Api.Move.Quiet.{live-Quiet, enable-Quiet, require_remote-Quiet}
use dryve_d.Api.Stop.{Surroundings, get_status, cached_or_live}
use dryve_d.Api.JogStart.{is_jog_warm, cold_start, start_checked}

-- An end, whatever it is.
abbrev pub Ended : {S A : Type 0} → Result A → World S → Type 0
Ended r v = Unit {0}

then-Ended :
    {S A B : Type 0} {Q : Result A → World S → Type 0} (m : Action S A) (f : A → Action S B)
    (w : World S)
    → Ends Q (m w)
    → ((a : A) (v : World S) → Ends Ended (f a v))
    → Ends Ended ((m >>= f) w)
then-Ended m f w h k = bind-Ends m h (λ a v q. k a v) (λ e v q. tt)

drive-Ended :
    {S A : Type 0} {Q : Result A → World S → Type 0} (m : Action S A) (w : World (Controller S))
    → Ends Q (m (its_drive w))
    → Ends Ended (on_drive m w)
drive-Ended m w h = on_drive-Ends m w h (λ r v q. tt)

module _ {S : Type 0} (p : Plant S) (t : IsTimely p) (around : Surroundings S) (aborted : S → Bool)
    (setup : Setup) (timers : Timers S) (n : ℕ) (enough : EnoughRounds setup.state_machine n) where
  press-Ended :
      (velocity : ℤ) (ttl : Option ℕ) (w : World (Controller S))
      → Ends Ended (press p aborted setup.jog velocity ttl w)
  press-Ended velocity ttl w =
      weaken-Ends (press-Pressed p t aborted setup.jog velocity ttl w) (λ r v q. tt)

  status-Ended : (o : Option Flags) (w : World S) → Ends Ended (cached_or_live p around o w)
  status-Ended none w =
      weaken-Ends (live-Quiet p t around aborted setup timers n enough w) (λ r v q. tt)
  status-Ended (some flags) w = ends tt

  is_jog_warm-Ended : (w : World S) → Ends Ended (is_jog_warm p around aborted setup timers w)
  unfolding is_jog_warm get_status
  is_jog_warm-Ended w =
      then-Ended _ _ w
        (attempt-Ends {Q = Ended} _ w (
          then-Ended _ _ w (status-Ended (around.decoded_status w.plant) w) (λ status v.
            if-Ends (not status.operation_enabled || status.fault) _ _ (λ _. ends tt)
              (λ _.
                then-Ended {Q = Ended} (read_i8 p 0x6061 0) _ v (ends tt) (λ mode u. ends tt)))))
        (λ r v. ends tt)

  ready-Ended :
      (w : World S)
      → Ends Ended (check_drive_ready p around setup.state_machine setup.has_components (suc n) w)
  unfolding check_drive_ready
  ready-Ended w =
      then-Ended _ _ w (live-Quiet p t around aborted setup timers n enough w) (λ status v.
        raising-Ends status.fault runtime_error _ v
          (λ _.
            if-Ends (not status.operation_enabled) _ _
              (λ _.
                then-Ended _ _ v (enable-Quiet p t around aborted setup timers n enough v) (λ _ u.
                  weaken-Ends (live-Quiet p t around aborted setup timers n enough u)
                    (λ r x q. tt)))
              (λ _. ends tt))
          (λ _. tt))

  clear_halt-Ended : (w : World S) → Ends Ended (clear_halt p around aborted setup timers w)
  unfolding clear_halt
  clear_halt-Ended w = then-Ended {Q = Ended} _ _ w (ends tt) (λ _ v. ends tt)

  cold_start-Ended :
      (velocity : ℤ) (ttl : Option ℕ) (w : World (Controller S))
      → Ends Ended (cold_start p around aborted setup timers (suc n) velocity ttl w)
  unfolding cold_start require_remote
  cold_start-Ended velocity ttl w = updating-Ends _ _ w (
      raising-Ends (not setup.has_components) runtime_error _ _
        (λ _. then-Ended _ _ _ (drive-Ended _ _ (ready-Ended _)) (λ status v.
          then-Ended _ _ v (drive-Ended _ v (clear_halt-Ended (its_drive v))) (λ _ u.
            then-Ended _ _ u
              (drive-Ended _ u (
                require_remote-Quiet p t around aborted setup timers n enough status (its_drive u)))
              (λ _ x.
                then-Ended _ _ x
                  (drive-Ended _ x
                    (then-Ended _ _ (its_drive x) (zero-Sends p (its_drive x)) (λ _ y. ends tt)))
                  (λ _ y. press-Ended velocity ttl y)))))
        (λ _. tt))

  pub start_checked-Ended :
      (velocity : ℤ) (ttl : Option ℕ) (w : World (Controller S))
      → Ends Ended (start_checked p around aborted setup timers (suc n) velocity ttl w)
  unfolding start_checked
  start_checked-Ended velocity ttl w = asking-Ends _ w (
      if-Ends w.plant.state.active _ _ (λ _. press-Ended velocity ttl w)
        (λ _. then-Ended _ _ w (drive-Ended _ w (is_jog_warm-Ended (its_drive w))) (λ warm v.
          if-Ends warm _ _ (λ _. press-Ended velocity ttl v)
            (λ _. cold_start-Ended velocity ttl v))))
