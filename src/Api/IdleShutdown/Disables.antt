-- ===== src/Api/IdleShutdown/Disables.antt =====
-- What the action of the idle timer sends.
use dryve_d.Base.{◌≡◌, refl, ◌∙◌, Bool, false, not, ◌⊎◌, inl, inr, [], ◌∷◌, ◌++◌, ap}
use dryve_d.Base.Errors.{Result, ok, err}
use dryve_d.Io.{Plant, IsTimely, World}
use dryve_d.Io.Rules.{Ends, ends, bind-Ends, weaken-Ends, if-Ends}
use dryve_d.Io.Steps.{writing-Ends, attempt-Ends}
use dryve_d.Cia402.StateMachine as Sm
use dryve_d.Cia402.StateMachine.Commands.{command}
use dryve_d.Cia402.StateMachine.Wait.{read-Quiet}
use dryve_d.Od.Statusword.{Cia402State}
use dryve_d.Motion.Jog.{Controller}
use dryve_d.Motion.Jog.Rules.{driving-Ends, on_drive-Ends, asking-Ends, its_drive}
use dryve_d.Api.Stop.{Surroundings}
use dryve_d.Api.Home.{disable_voltage}
use dryve_d.Api.IdleShutdown.{shut_down_if_idle, idle_shutdown_action}

-- The ends of the action: it never raises, and sends the word 0x0000 once or nothing.
abbrev pub ShutDown :
    {S : Type 0} → World (Controller S) → Result (Unit {0}) → World (Controller S) → Type 0
ShutDown w r v =
    (r ≡ ok tt)
    × ((v.sent ≡ w.sent)
        ⊎ ((v.sent ≡ w.sent ++ (command 0x0000 ∷ [])) × (w.plant.state.active ≡ false)))

-- The same, of the part that may raise.
abbrev SentOnce : {S A : Type 0} → World (Controller S) → A → World (Controller S) → Type 0
SentOnce w r v =
    (v.sent ≡ w.sent)
    ⊎ ((v.sent ≡ w.sent ++ (command 0x0000 ∷ [])) × (w.plant.state.active ≡ false))

-- `attempt` returns the exception as a value.
abbrev Succeeded : {A : Type 0} → Result A → Type 0
Succeeded (ok a) = Unit
Succeeded (err e) = ⊥

module _ {S : Type 0} (p : Plant S) (t : IsTimely p) (around : Surroundings S) (cfg : Sm.Config)
    (has_components : Bool) (suppress_keepalive : S → S) where
  disable-sends :
      (w : World S)
      → Ends
          (λ _ v. v.sent ≡ w.sent ++ (command 0x0000 ∷ []))
          (disable_voltage p around cfg has_components suppress_keepalive w)
  unfolding disable_voltage
  disable-sends w = writing-Ends p p.write_u16 0x6040 _ 0 _ _ ((λ _. ends refl), λ e _. refl)

  current_state-quiet : (w : World S) → Ends (λ _ v. v.sent ≡ w.sent) (Sm.current_state p cfg w)
  unfolding Sm.current_state
  current_state-quiet w =
      bind-Ends _ (read-Quiet p cfg t w) (λ sw v q. ends q.same_log) (λ e v q. q.same_log)

  shut_down-sends :
      (w : World (Controller S))
      → Ends
          (λ r v. SentOnce w r v)
          (shut_down_if_idle p around cfg has_components suppress_keepalive w)
  unfolding shut_down_if_idle
  shut_down-sends w =
      if-Ends (not has_components) _ _ (λ _. ends (inl refl))
        (λ _.
          driving-Ends (Sm.current_state p cfg) _ w (current_state-quiet (its_drive w))
            (λ st v q.
              if-Ends
                (Sm.among (Cia402State.switch_on_disabled ∷ Cia402State.ready_to_switch_on ∷ []) st)
                _ _ (λ _. ends (inl q))
                (λ _. asking-Ends _ _ (
                  if-Ends w.plant.state.active _ _ (λ _. ends (inl q))
                    (λ off.
                      on_drive-Ends _ _ (disable-sends v)
                        (λ r u e. inr (e ∙ ap (λ l. l ++ (command 0x0000 ∷ [])) q, off))))))
            (λ e v q. inl q))

  -- Whatever the drive answers, the action of the idle timer ends without an exception. It sends
  -- nothing, or the word 0x0000 once, and the word only if no jog is on.
  pub idle_shutdown_action-ShutDown :
      (w : World (Controller S))
      → Ends (ShutDown w) (idle_shutdown_action p around cfg has_components suppress_keepalive w)
  unfolding idle_shutdown_action
  idle_shutdown_action-ShutDown w =
      bind-Ends _
        (attempt-Ends {Q = λ r v. SentOnce w r v × (Succeeded r)} _ w
          (weaken-Ends (shut_down-sends w) (λ r v q. (q, tt))))
        (λ r v q. ends (refl, q.0)) (λ e v q. absurd q.1)
