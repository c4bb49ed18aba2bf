-- ===== src/Api/Move/Quiet.antt =====
-- The parts of a move that send no target position.
use dryve_d.Base.{
  ℕ, suc, ◌≡◌, refl, sym, subst, Bool, true, false, not, List, [], ◌∷◌, ◌++◌, All, ◌||◌, ◌==◌,
  arith, append-nil, append_assoc, if◌then◌else◌,
}
use dryve_d.Base.Int.{pos}
use dryve_d.Base.Errors.{Result, runtime_error}
use dryve_d.Io.{Plant, IsTimely, World, Action, Sent, read_i8, when, ◌>>◌, attempt, ◌>>=◌}
use dryve_d.Io.Rules.{
  Ends, ends, bind-Ends, weaken-Ends, if-Ends, Grows, same, more, trans-Grows, sleep-Ends,
}
use dryve_d.Io.Steps.{reading-Ends, writing-Ends, raising-Ends, attempt-Ends}
use dryve_d.Io.Log.{Sends, all_sent, cut_short}
use dryve_d.Od.Statusword.{Flags}
use dryve_d.Cia402.StateMachine.Commands.{
  EnoughRounds, Enabling, resets, shuts_down, halts, switches_on, enables,
}
use dryve_d.Cia402.StateMachine.Run.{run_to_operation_enabled-Run}
use dryve_d.Motion.Jog.{StopMode, Controller, on_drive, release}
use dryve_d.Motion.Jog.Rules.{on_drive-Ends, asking-Ends, updating-Ends, its_drive}
use dryve_d.Motion.Jog.Stopping.{stop_log, stop_locked-Stopped}
use dryve_d.Api.Stop.{Surroundings, get_status_live}
use dryve_d.Api.Home.{enable_operation, require_remote}
use dryve_d.Api.Move.{
  is_wrong_mode, Setup, Timers, release_jog, prepare_motion_context, ensure_mode_pp,
}

-- A write that is not a target position.
abbrev pub NoTarget : Sent → Type 0
NoTarget x = ¬ (x.index ≡ 0x607A)

-- No target was sent.
abbrev pub Quiet : {S A : Type 0} → World S → Result A → World S → Type 0
Quiet w r v = Grows NoTarget w.sent v.sent

kept_log : {l m : List Sent} → m ≡ l → Grows NoTarget l m
kept_log q = subst (Grows NoTarget _) (sym q) same

pub listed : (before l : List Sent) → All NoTarget l → Grows NoTarget before (before ++ l)
listed before [] h = subst (Grows NoTarget before) (sym (append-nil before)) same
listed before (x ∷ l) (h, k) =
    subst (Grows NoTarget before) (append_assoc before (x ∷ []) l)
      (trans-Grows (more same h) (listed (before ++ (x ∷ [])) l k))

first_part : (first rest : List Sent) → All NoTarget (first ++ rest) → All NoTarget first
first_part [] rest h = tt
first_part (x ∷ first) rest h = (h.0, first_part first rest h.1)

-- A list of other writes, or a part of it.
sends-Grows :
    {S A : Type 0} {P : A → World S → Type 0} (before l : List Sent) (r : Result A) (v : World S)
    → All NoTarget l
    → Sends l P before r v
    → Grows NoTarget before v.sent
sends-Grows before l _ v h (all_sent q x) =
    subst (Grows NoTarget before) (sym q) (listed before l h)
sends-Grows before l _ v h (cut_short first rest e q) =
    subst (Grows NoTarget before) (sym q)
      (listed before first (first_part first rest (subst (All NoTarget) (sym e) h)))

pub other : (k : ℕ) → (k == 0x607A) ≡ false → ¬ (k ≡ 0x607A)
other k n h = absurd (ground arith)

Enabling-NoTarget : {x : Sent} → Enabling x → NoTarget x
Enabling-NoTarget resets = other 0x6040 refl
Enabling-NoTarget shuts_down = other 0x6040 refl
Enabling-NoTarget halts = other 0x6040 refl
Enabling-NoTarget switches_on = other 0x6040 refl
Enabling-NoTarget enables = other 0x6040 refl

stop-NoTarget : (b : Bool) (mode : StopMode) → All NoTarget (if b then stop_log mode else [])
stop-NoTarget false mode = tt
stop-NoTarget true StopMode.velocity_zero = (other 0x60FF refl, tt)
stop-NoTarget true StopMode.halt = (other 0x6040 refl, (other 0x60FF refl, (other 0x6040 refl, tt)))

Enabling-Grows : {k l : List Sent} → Grows Enabling k l → Grows NoTarget k l
Enabling-Grows same = same
Enabling-Grows (more g h) = more (Enabling-Grows g) (Enabling-NoTarget h)

module _ {S A B : Type 0} where
  -- Quiet coroutines, one after the other.
  pub seq-Quiet :
      (m : Action S A) (f : A → Action S B) (w : World S)
      → Ends (Quiet w) (m w)
      → ((a : A) (v : World S) → Ends (Quiet v) (f a v))
      → Ends (Quiet w) ((m >>= f) w)
  seq-Quiet m f w h k =
      bind-Ends m h (λ a v q. weaken-Ends (k a v) (λ r u x. trans-Grows q x)) (λ e v q. q)

pub when-Quiet :
    {S : Type 0} (b : Bool) (m : Action S (Unit {0})) (w : World S)
    → Ends (Quiet w) (m w)
    → Ends (Quiet w) (when b m w)
unfolding when
when-Quiet true m w h = h
when-Quiet false m w h = ends same

module _ {S : Type 0} (p : Plant S) (t : IsTimely p) (around : Surroundings S) (aborted : S → Bool)
    (setup : Setup) (timers : Timers S) (n : ℕ) (enough : EnoughRounds setup.state_machine n) where
  pub live-Quiet : (w : World S) → Ends (Quiet w) (get_status_live p around w)
  unfolding get_status_live
  live-Quiet w = reading-Ends p _ _ w (λ sw _. ends same) (λ e _. same)

  pub driven-Quiet :
      {A : Type 0} (m : Action S A) (w : World (Controller S))
      → Ends (Quiet (its_drive w)) (m (its_drive w))
      → Ends (Quiet w) (on_drive m w)
  driven-Quiet m w h = on_drive-Ends m w h (λ r v q. q)

  pub enable-Quiet :
      (w : World S)
      → Ends
          (Quiet w)
          (enable_operation p around setup.state_machine setup.has_components (suc n) w)
  unfolding enable_operation
  enable-Quiet w =
      raising-Ends (not setup.has_components) runtime_error _ w
        (λ _.
          weaken-Ends (run_to_operation_enabled-Run p setup.state_machine t n enough w)
            (λ r v x. Enabling-Grows x.grown))
        (λ _. same)

  enabled-Quiet :
      (status : Flags) (w : World S)
      → Ends (Quiet w) (
          (when
                (not status.operation_enabled)
                (enable_operation p around setup.state_machine setup.has_components (suc n))
              >> get_status_live p around)
            w)
  enabled-Quiet status w =
      seq-Quiet _ _ w (when-Quiet (not status.operation_enabled) _ w (enable-Quiet w))
        (λ _ v. live-Quiet v)

  pub ensure_mode-Quiet :
      (status : Flags) (w : World S)
      → Ends (Quiet w) (ensure_mode_pp p around aborted setup timers (suc n) status w)
  unfolding ensure_mode_pp
  ensure_mode-Quiet status w =
      seq-Quiet (attempt (read_i8 p 0x6061 0)) _ w (attempt-Ends (read_i8 p 0x6061 0) w (ends same))
        (λ current v.
          if-Ends
            (not status.operation_enabled || is_wrong_mode p around aborted setup timers current) _
            _
            (λ _. writing-Ends p p.write_u8 0x6060 (pos 1) 0 _ v (
              (λ _. sleep-Ends p setup.mode_settle_delay _ (
                  weaken-Ends (enabled-Quiet status _)
                    (λ r u q. trans-Grows (more same (other 0x6060 refl)) q))),
              λ e _. more same (other 0x6060 refl),
            ))
            (λ _. ends same))

  release-Quiet : (w : World (Controller S)) → Ends (Quiet w) (release p aborted setup.jog w)
  release-Quiet w = weaken-Ends (stop_locked-Stopped p t aborted setup.jog w) (λ r v x.
      sends-Grows w.sent _ r v (stop-NoTarget w.plant.state.active setup.jog.stop_mode) x.sends)

  release_jog-Quiet :
      (w : World (Controller S)) → Ends (Quiet w) (release_jog p around aborted setup timers w)
  unfolding release_jog
  release_jog-Quiet w =
      raising-Ends (not setup.has_components) runtime_error _ w
        (λ _. asking-Ends _ w (
          if-Ends (not w.plant.state.active) _ _ (λ _. ends same)
            (λ _. seq-Quiet _ _ w (release-Quiet w) (λ _ v. driven-Quiet _ v (ends same)))))
        (λ _. same)

  pub prepare-Quiet :
      (is_connected : Bool) (w : World (Controller S))
      → Ends (Quiet w) (prepare_motion_context p around aborted setup timers is_connected w)
  unfolding prepare_motion_context
  prepare-Quiet is_connected w =
      raising-Ends (not is_connected) runtime_error _ w
        (λ _. updating-Ends _ _ w (
          seq-Quiet _ _ _ (driven-Quiet _ _ (live-Quiet _)) (λ status v.
            seq-Quiet _ _ v (attempt-Ends _ v (release_jog-Quiet v)) (λ _ u. ends same))))
        (λ _. same)

  pub require_remote-Quiet :
      (status : Flags) (w : World S)
      → Ends (Quiet w) (require_remote p around setup.state_machine setup.has_components status w)
  unfolding require_remote
  require_remote-Quiet status w =
      if-Ends (not status.remote) _ _ (λ _. reading-Ends p _ _ w (λ sw _. ends same) (λ e _. same))
        (λ _. ends same)
