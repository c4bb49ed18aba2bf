-- ===== src/Exchange/Enabled.antt =====
-- The driver's way to `Operation enabled` with the simulated drive.
use dryve_d.Base.{
  ℕ, suc, ◌<◌, ◌≡◌, inl, inr, refl, sym, ap, subst, ◌∙◌, some, List, [], ◌∷◌, ◌++◌, map, arith,
  append_assoc,
}
use dryve_d.Base.Errors.{ok}
use dryve_d.Cia402.StateMachine.{Config, run_to_operation_enabled}
use dryve_d.Exchange.Plant.{Simulation, simulation}
use dryve_d.Io.{World, Sent}
use dryve_d.Od.Statusword.{Cia402State}
use dryve_d.Simulator.Drive.{Ds402State, rank}
use dryve_d.Exchange.Words.{
  command, obeyed, In, IsFree, shutdown-Takes, switch_on-Takes, enable-Takes,
}
use dryve_d.Exchange.Path.{tail-ready, tail-on, head, head-disabled, head-skipped}

-- The words that lead to `Operation enabled`.
abbrev pub words_from : Ds402State → List ℕ
words_from Ds402State.switch_on_disabled = 0x06 ∷ 0x07 ∷ 0x0F ∷ []
words_from Ds402State.ready_to_switch_on = 0x07 ∷ 0x0F ∷ []
words_from Ds402State.switched_on = 0x0F ∷ []
words_from Ds402State.operation_enabled = 0x0F ∷ []
words_from _ = []

module _ (cfg : Config) where
  -- With the simulated drive, without a fault and without an emergency, `run_to_operation_enabled`
  -- returns: it sends exactly the words that lead from the drive's state to `Operation enabled`, in
  -- their order, and the drive is there, without a fault. One round of each wait is enough.
  pub run-Enabled :
      (rounds : ℕ) (w : World Simulation)
      → rank w.plant.0.state < 4
      → IsFree w.plant.0
      → (v : World Simulation) × (run_to_operation_enabled simulation cfg (suc rounds) w
          ≡ some (ok tt, v))
        × In Ds402State.operation_enabled v
        × (v.sent ≡ w.sent ++ map command (words_from w.plant.0.state))
  unfolding run_to_operation_enabled
  run-Enabled rounds w small free = from w.plant.0.state refl
    where
      listed :
          (st : Ds402State) (l : List Sent)
          → w.plant.0.state ≡ st
          → l ≡ w.sent ++ map command (words_from st)
          → l ≡ w.sent ++ map command (words_from w.plant.0.state)
      listed st l e h = h ∙ sym (ap (λ t. w.sent ++ map command (words_from t)) e)

      from :
          (st : Ds402State)
          → w.plant.0.state ≡ st
          → (v : World Simulation) × (run_to_operation_enabled simulation cfg (suc rounds) w
              ≡ some (ok tt, v))
            × In Ds402State.operation_enabled v
            × (v.sent ≡ w.sent ++ map command (words_from w.plant.0.state))
      from Ds402State.switch_on_disabled e =
          let first = shutdown-Takes w free in
          let second = switch_on-Takes (obeyed 0x06 w) (first.1.1, first.1.2) in
          let third = enable-Takes (obeyed 0x07 (obeyed 0x06 w)) (second.1.1, second.1.2) in
          (
            obeyed 0x0F (obeyed 0x07 (obeyed 0x06 w)),
            tail-ready cfg rounds (head cfg (suc rounds)) w (obeyed 0x06 w)
                (head-disabled cfg rounds w (e, free.0, free.1)) (first.1.1, first.1.2),
            third.1,
            listed Ds402State.switch_on_disabled (obeyed 0x0F (obeyed 0x07 (obeyed 0x06 w))).sent e
                (append_assoc (w.sent ++ (command 0x06 ∷ [])) (command 0x07 ∷ [])
                    (command 0x0F ∷ [])
                  ∙ append_assoc w.sent (command 0x06 ∷ []) (command 0x07 ∷ command 0x0F ∷ [])),
          )
      from Ds402State.ready_to_switch_on e =
          let second = switch_on-Takes w free in
          let third = enable-Takes (obeyed 0x07 w) (second.1.1, second.1.2) in
          (
            obeyed 0x0F (obeyed 0x07 w),
            tail-ready cfg rounds (head cfg (suc rounds)) w w
                (head-skipped cfg rounds Ds402State.ready_to_switch_on w (e, free.0, free.1) refl
                  refl)
                free,
            third.1,
            listed Ds402State.ready_to_switch_on (obeyed 0x0F (obeyed 0x07 w)).sent e
                (append_assoc w.sent (command 0x07 ∷ []) (command 0x0F ∷ [])),
          )
      from Ds402State.switched_on e = (
        obeyed 0x0F w,
        tail-on cfg rounds (head cfg (suc rounds)) Cia402State.switched_on w
            (head-skipped cfg rounds Ds402State.switched_on w (e, free.0, free.1) refl refl)
            (inl refl) refl refl free,
        (enable-Takes w free).1,
        listed Ds402State.switched_on (obeyed 0x0F w).sent e refl,
      )
      from Ds402State.operation_enabled e = (
        obeyed 0x0F w,
        tail-on cfg rounds (head cfg (suc rounds)) Cia402State.operation_enabled w
            (head-skipped cfg rounds Ds402State.operation_enabled w (e, free.0, free.1) refl refl)
            (inr refl) refl refl free,
        (enable-Takes w free).1,
        listed Ds402State.operation_enabled (obeyed 0x0F w).sent e refl,
      )
      from Ds402State.fault e = absurd (omega (arith, subst (λ t. rank t < 4) e small))
      from Ds402State.quick_stop_active e = absurd (omega (arith, subst (λ t. rank t < 4) e small))
