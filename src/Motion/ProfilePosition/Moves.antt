-- ===== src/Motion/ProfilePosition/Moves.antt =====
-- `move_to` and its start handshake: what is sent, in which order.
use dryve_d.Base.{
  ℕ, suc, ◌*◌, ◌%◌, ◌≤◌, ◌≡◌, refl, ◌∙◌, ap, Bool, not, ◌&&◌, Option, none, some, List, [], ◌∷◌,
  ◌++◌, append_assoc,
}
use dryve_d.Base.Int.{ℤ, pos, ltb_ℤ}
use dryve_d.Base.Errors.{Error, Result, ok, err, value_error}
use dryve_d.Io.{Plant, IsTimely, World, Sent}
use dryve_d.Io.Rules.{Ends, ends}
use dryve_d.Io.Steps.{writing-Ends, raising-Ends, finally-Ends}
use dryve_d.Io.Log.{
  Sends, all_sent, cut_short, Any, seq-Sends, write-Sends, read-Sends, sleep-Sends, nothing-Sends,
}
use dryve_d.Io.Polling.{Listens-Sends, polling-Listens}
use dryve_d.Od.Controlword.{cw_pulse_new_set_point}
use dryve_d.Cia402.StateMachine.Commands.{command}
use dryve_d.Motion.{or_default}
use dryve_d.Motion.Rules.{given, given-Sends}
use dryve_d.Motion.ProfilePosition.{
  Config, reached_window, ensure_mode, mode_round, configure, ack_round, wait_setpoint_ack,
  handshake, base_word, move_to,
}
use dryve_d.Motion.ProfilePosition.Waiting.{mode-Polls, ack-Polls}
use dryve_d.Motion.ProfilePosition.Reached.{Confirmed, wait_target_reached-Confirmed}

-- The time limits of a configuration fit in `n` polls.
pub record EnoughRounds (cfg : Config) (n : ℕ) : Type 0 where
  pub mode : cfg.mode_set_timeout ≤ n * cfg.poll_interval
  pub ack : cfg.setpoint_ack_timeout ≤ n * cfg.poll_interval

-- How a start ends: with its bit released, unless the write that sets it raised.
pub data Released {S : Type 0} (p : Plant S) (base : ℕ) (w : World S)
    : Result (Unit {0}) → World S → Type 0 where
  released :
      {r : Result (Unit {0})} {v : World S}
      → v.sent
        ≡ (w.sent ++ (command ((cw_pulse_new_set_point base).0 % 65536) ∷ []))
          ++ (command ((cw_pulse_new_set_point base).1 % 65536) ∷ [])
      → Released p base w r v
  not_started :
      {e : Error} {v : World S}
      → (p.write_u16 0x6040 (pos ((cw_pulse_new_set_point base).0 % 65536)) 0 w.plant).0 ≡ err e
      → v.sent ≡ w.sent ++ (command ((cw_pulse_new_set_point base).0 % 65536) ∷ [])
      → Released p base w (err e) v

-- The writes of a move: the mode, the profile as far as it is given, the target, and the start bit
-- set and released.
abbrev pub move_log : Config → ℤ → Bool → Bool → List Sent
move_log cfg target relative immediate =
    let base = base_word relative immediate in
    record { index = 0x6060; value = pos 1; subindex = 0 }
    ∷ ((given 0x6081 0 cfg.profile_velocity
          ++ (given 0x6083 0 cfg.acceleration ++ given 0x6084 0 cfg.deceleration))
        ++ (record { index = 0x607A; value = target; subindex = 0 }
            ∷ command ((cw_pulse_new_set_point base).0 % 65536)
            ∷ command ((cw_pulse_new_set_point base).1 % 65536)
            ∷ []))

module _ {S : Type 0} (p : Plant S) (t : IsTimely p) (aborted : S → Bool) (cfg : Config)
    (drive_window : Option ℕ) (n : ℕ) (enough : EnoughRounds cfg n) where
  ensure_mode-Sends :
      (w : World S)
      → Ends
          (Sends (record { index = 0x6060; value = pos 1; subindex = 0 } ∷ []) Any w.sent)
          (ensure_mode p aborted cfg drive_window (suc n) w)
  unfolding ensure_mode
  ensure_mode-Sends w = seq-Sends _ _ _ (write-Sends p p.write_u8 _ _ _ w) λ _ v _.
      seq-Sends _ [] _ (sleep-Sends p _ v) λ _ u _. Listens-Sends (
        polling-Listens p Any cfg.poll_interval cfg.mode_set_timeout n
          (mode_round p aborted cfg drive_window) enough.mode u.sent
          (mode-Polls p t aborted cfg drive_window u.sent) u refl)

  configure-Sends :
      (w : World S)
      → Ends
          (Sends
            (given 0x6081 0 cfg.profile_velocity
              ++ (given 0x6083 0 cfg.acceleration ++ given 0x6084 0 cfg.deceleration))
            Any
            w.sent)
          (configure p aborted cfg drive_window none none none w)
  unfolding configure
  configure-Sends w = seq-Sends _ _ _ (given-Sends p p.write_u32 _ _ _ w) λ _ v _.
      seq-Sends _ _ _ (given-Sends p p.write_u32 _ _ _ v) λ _ u _. given-Sends p p.write_u32 _ _ _ u

  closed :
      (base : ℕ) (w : World S) (c r : Result (Unit {0})) (u : World S)
      → u.sent
        ≡ (w.sent ++ (command ((cw_pulse_new_set_point base).0 % 65536) ∷ []))
          ++ (command ((cw_pulse_new_set_point base).1 % 65536) ∷ [])
      → elim c as (λ _. Type 0) [
        | ok _ ↦ Released p base w r u
        | err e ↦ Released p base w (err e) u
      ]
  closed base w (ok a) r u q = released q
  closed base w (err e) r u q = released q

  -- Whatever the drive answers, a start ends, and its bit is set and released: also when the wait
  -- for the acknowledge raises. Only if the write of the bit itself raises is it not released.
  pub handshake-Released :
      (base : ℕ) (w : World S)
      → Ends (Released p base w) (handshake p aborted cfg drive_window (suc n) base w)
  unfolding handshake wait_setpoint_ack
  handshake-Released base w = writing-Ends p p.write_u16 _ _ _ _ w (
    λ q.
        finally-Ends _ _ _
          (polling-Listens p Any cfg.poll_interval cfg.setpoint_ack_timeout n
            (ack_round p aborted cfg drive_window) enough.ack _
            (ack-Polls p t aborted cfg drive_window _) _ refl)
          (λ r v x. ends (
            closed base w
              (p.write_u16 0x6040 (pos ((cw_pulse_new_set_point base).1 % 65536)) 0 v.plant).0 r _
              (ap (λ l. l ++ (command ((cw_pulse_new_set_point base).1 % 65536) ∷ []))
                x.same_log))),
    λ e q. not_started q refl,
  )

  Released-Sends :
      {base : ℕ} {w : World S} {o : Option (Result (Unit {0}) × World S)}
      → Ends (Released p base w) o
      → Ends
          (Sends
            (command ((cw_pulse_new_set_point base).0 % 65536)
              ∷ command ((cw_pulse_new_set_point base).1 % 65536)
              ∷ [])
            Any
            w.sent)
          o
  Released-Sends {w = w} (ends {r = ok a} (released q)) =
      ends (all_sent (q ∙ append_assoc w.sent _ _) tt)
  Released-Sends {w = w} (ends {r = err e} (released q)) =
      ends (cut_short _ [] refl (q ∙ append_assoc w.sent _ _))
  Released-Sends (ends (not_started e q)) = ends (cut_short _ (command _ ∷ []) refl q)

  -- Whatever the drive answers, `move_to` ends if its rounds cover the timeouts. What it sends is a
  -- part of the writes of a move, in their order, from the first one on, and all of them if it
  -- returns; then the drive has confirmed the number given as the target. It is the actual position
  -- that is compared with it, also in a relative move, where it is an offset.
  pub move_to-Sends :
      (target : ℤ) (relative immediate : Bool) (timeout : Option ℕ)
      → or_default timeout cfg.move_timeout ≤ n * cfg.poll_interval
      → (w : World S)
      → Ends
          (Sends
            (move_log cfg target relative immediate)
            (λ _ v. Confirmed p (reached_window cfg drive_window) (some target) v.plant)
            w.sent)
          (move_to p aborted cfg drive_window (suc n) target relative immediate timeout w)
  unfolding move_to
  move_to-Sends target relative immediate timeout h w =
      raising-Ends (not relative && ltb_ℤ target (pos 0)) value_error _ w
        (λ _. seq-Sends _ _ _ (ensure_mode-Sends w) λ _ v₁ _.
          seq-Sends _ _ _ (configure-Sends v₁) λ _ v₂ _.
            seq-Sends _ _ _ (write-Sends p p.write_i32 _ _ _ v₂) λ _ v₃ _.
              seq-Sends _ _ _ (read-Sends p (p.read_u16 0x6041 0) v₃) λ _ v₄ _.
                seq-Sends _ _ _ (sleep-Sends p _ v₄) λ _ v₅ _.
                  seq-Sends _ [] _
                    (Released-Sends (handshake-Released (base_word relative immediate) v₅))
                    λ _ v₆ _. Listens-Sends (
                      wait_target_reached-Confirmed p t aborted cfg drive_window n (some target)
                        timeout h v₆))
        (λ _. nothing-Sends refl)
