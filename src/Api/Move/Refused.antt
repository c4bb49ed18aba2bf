-- ===== src/Api/Move/Refused.antt =====
-- A move whose arguments are not allowed.
use dryve_d.Base.{ℕ, suc, ◌*◌, ◌≤◌, ◌≡◌, refl, Bool, true, false, not, some, List}
use dryve_d.Base.Int.{pos_part}
use dryve_d.Base.Errors.{Error, Result, ok, err, runtime_error}
use dryve_d.Io.{
  Plant, IsTimely, World, Action, Sent, read_u16, read_i32, when, ◌>>◌, pure, attempt, ◌>>=◌,
}
use dryve_d.Io.Rules.{Ends, ends, bind-Ends, weaken-Ends, if-Ends, Grows, same, more, trans-Grows}
use dryve_d.Io.Steps.{writing-Ends, raising-Ends, attempt-Ends, finally-Ends}
use dryve_d.Cia402.StateMachine as Sm
use dryve_d.Cia402.StateMachine.Commands.{EnoughRounds}
use dryve_d.Motion.ProfilePosition as Pp
use dryve_d.Motion.ProfilePosition.Moves as Moves
use dryve_d.Motion.Jog.{Controller, on_drive}
use dryve_d.Motion.Jog.Rules.{on_drive-Ends, updating-Ends, its_drive}
use dryve_d.Api.Limits.Checked.{IsAllowed, validate-IsAllowed-decides}
use dryve_d.Api.Stop.{Surroundings}
use dryve_d.Api.Move.{
  clear_halt, is_homed, is_transport_error, homed_or_raise, Setup, Timers, MoveCommand, changing,
  checked, start_move, move_to_position,
}
use dryve_d.Api.Move.Quiet.{
  NoTarget, Quiet, other, when-Quiet, seq-Quiet, driven-Quiet, ensure_mode-Quiet, prepare-Quiet,
  require_remote-Quiet,
}

-- How a move ends: with arguments that are allowed, and then the idle timer is set, or with an
-- exception and no target sent.
pub data MoveEnd {S : Type 0} (setup : Setup) (timers : Timers S) (m : MoveCommand)
    (before : List Sent) : Result (Unit {0}) → World (Controller S) → Type 0 where
  refused :
      {e : Error} {v : World (Controller S)}
      → Grows NoTarget before v.sent
      → MoveEnd setup timers m before (err e) v
  commanded :
      {r : Result (Unit {0})} {v : World (Controller S)} (s : S)
      → IsAllowed setup.limits m.target_position m.velocity m.accel m.decel m.timeout
      → v.plant.drive ≡ timers.schedule_idle_shutdown s
      → MoveEnd setup timers m before r v

module _ {S : Type 0} (p : Plant S) (t : IsTimely p) (around : Surroundings S) (aborted : S → Bool)
    (setup : Setup) (timers : Timers S) (n : ℕ) (enough : EnoughRounds setup.state_machine n)
    (rounds : Moves.EnoughRounds setup.profile_position n) (m : MoveCommand)
    (in_time : pos_part m.timeout ≤ n * setup.profile_position.poll_interval) where
  -- What follows a coroutine that sends no target.
  seq-MoveEnd :
      {A : Type 0} (a : Action (Controller S) A) (f : A → Action (Controller S) (Unit {0}))
      (w : World (Controller S))
      → Ends (Quiet w) (a w)
      → ((x : A) (v : World (Controller S)) → Ends (MoveEnd setup timers m v.sent) (f x v))
      → Ends (MoveEnd setup timers m w.sent) ((a >>= f) w)
  seq-MoveEnd a f w h k =
      bind-Ends a h (λ x v q. weaken-Ends (k x v) (λ r u e. after v q r u e)) (λ e v q. refused q)
    where
      after :
          (v : World (Controller S))
          → Grows NoTarget w.sent v.sent
          → (r : Result (Unit {0})) (u : World (Controller S)) → MoveEnd setup timers m v.sent r u
          → MoveEnd setup timers m w.sent r u
      after v q _ u (refused g) = refused (trans-Grows q g)
      after v q r u (commanded s i e) = commanded s i e

  abbrev pp_move : Action S (Unit {0})
  pp_move =
      Pp.move_to_position p aborted setup.profile_position setup.drive_window (suc n)
        m.target_position m.velocity m.accel m.decel (some (pos_part m.timeout))

  pp_move-ends : (w : World S) → Ends (λ _ _. Unit {0}) (pp_move w)
  unfolding Pp.move_to_position
  pp_move-ends w =
      weaken-Ends
        (Moves.move_to-Sends p t aborted _ setup.drive_window n
          (record { mode = rounds.mode; ack = rounds.ack }) m.target_position false true
          (some (pos_part m.timeout)) in_time w)
        (λ r v x. tt)

  pub clear_halt-Quiet : (w : World S) → Ends (Quiet w) (clear_halt p around aborted setup timers w)
  unfolding clear_halt
  clear_halt-Quiet w =
      writing-Ends p p.write_u16 0x6040 _ 0 _ w
        ((λ _. ends (more same (other 0x6040 refl))), λ e _. more same (other 0x6040 refl))

  is_homed-Quiet : (w : World S) → Ends (Quiet w) (is_homed p around aborted setup timers w)
  unfolding is_homed
  is_homed-Quiet w =
      seq-Quiet (attempt (read_u16 p 0x2014 0)) _ w
        (attempt-Ends (read_u16 p 0x2014 0) w (ends same)) known
    where
      known :
          (r : Result ℕ) (v : World S)
          → Ends (Quiet v) (homed_or_raise p around aborted setup timers r v)
      known (ok status) v = ends same
      known (err e) v = if-Ends (is_transport_error e) _ _ (λ _. ends same) (λ _. ends same)

  homed-Quiet :
      (w : World (Controller S))
      → Ends
          (Quiet w)
          (when m.require_homing (on_drive (is_homed p around aborted setup timers) >> pure tt) w)
  homed-Quiet w = when-Quiet m.require_homing _ w (
      seq-Quiet _ _ w
        (driven-Quiet p t around aborted setup timers n enough _ w (is_homed-Quiet (its_drive w)))
        (λ _ v. ends same))

  start_move-MoveEnd :
      (w : World (Controller S))
      → IsAllowed setup.limits m.target_position m.velocity m.accel m.decel m.timeout
      → Ends (MoveEnd setup timers m w.sent) (start_move p around aborted setup timers (suc n) m w)
  unfolding start_move
  start_move-MoveEnd w allowed =
      seq-MoveEnd _ _ w
        (driven-Quiet p t around aborted setup timers n enough _ w (clear_halt-Quiet (its_drive w)))
        λ _ v.
          raising-Ends (not setup.has_components) runtime_error _ v
            (λ _.
              seq-MoveEnd _ _ v
                (driven-Quiet p t around aborted setup timers n enough _ v
                  (attempt-Ends (read_i32 p 0x6064 0) (its_drive v) (ends same)))
                (λ _ u. updating-Ends _ _ u (
                  seq-MoveEnd _ _ _ (homed-Quiet _) λ _ x.
                    finally-Ends {Q = λ _ _. Unit {0}} (on_drive pp_move)
                      (changing timers.schedule_idle_shutdown) x
                      (on_drive-Ends pp_move x (pp_move-ends (its_drive x)) (λ r y q. tt))
                      (λ r y q. ends (commanded y.plant.drive allowed refl)))))
            (λ _. refused same)

  checked-MoveEnd :
      (w : World (Controller S)) (r : Result (Unit {0}))
      → checked p around aborted setup timers m ≡ r
      → Ends
          (MoveEnd setup timers m w.sent)
          ((Sm.lift r >> start_move p around aborted setup timers (suc n) m) w)
  unfolding ◌>>=◌
  checked-MoveEnd w (ok tt) e = start_move-MoveEnd w (
      (validate-IsAllowed-decides setup.limits m.target_position m.velocity m.accel m.decel
          m.timeout).0
        e)
  checked-MoveEnd w (err x) e = ends (refused same)

  -- Whatever the drive answers, a move on a connected or unconnected driver ends. If the time limit,
  -- the velocity, the acceleration, the deceleration or the target is not allowed by the
  -- configuration, it raises and no target position was sent. If it got as far as the motion, at
  -- every end the last thing it does is to set the idle timer.
  pub move_to_position-MoveEnd :
      (is_connected : Bool) (w : World (Controller S))
      → Ends
          (MoveEnd setup timers m w.sent)
          (move_to_position p around aborted setup timers (suc n) is_connected m w)
  unfolding move_to_position
  move_to_position-MoveEnd is_connected w =
      seq-MoveEnd _ _ w (prepare-Quiet p t around aborted setup timers n enough is_connected w)
        λ before v.
          seq-MoveEnd _ _ v
            (driven-Quiet p t around aborted setup timers n enough _ v
              (ensure_mode-Quiet p t around aborted setup timers n enough before (its_drive v)))
            λ status u.
              seq-MoveEnd _ _ u
                (driven-Quiet p t around aborted setup timers n enough _ u (
                  require_remote-Quiet p t around aborted setup timers n enough status
                    (its_drive u)))
                λ _ x. checked-MoveEnd x (checked p around aborted setup timers m) refl
