-- ===== src/Exchange/Path.antt =====
-- The steps of the driver's `run_to_operation_enabled` with the simulated drive.
use dryve_d.Base.{ℕ, suc, ◌≡◌, ◌⊎◌, inl, inr, refl, ap, ◌∙◌, true, false, some, List, [], ◌∷◌, ◌++◌}
use dryve_d.Base.Errors.{ok}
use dryve_d.Cia402.StateMachine.{
  Config, among, ensure_hold_bits, current_state, wait_for_states, shutdown, switch_on,
  enable_operation, fault_reset, step_if, finish,
}
use dryve_d.Exchange.Plant.{Simulation, simulation}
use dryve_d.Io.{World, Action, pure, ◌>>=◌, ◌>>◌}
use dryve_d.Od.Controlword.{cw_set_bits, mask, mask_from}
use dryve_d.Od.Statusword.{Cia402State}
use dryve_d.Simulator.Drive.{Ds402State}
use dryve_d.Simulator.Statusword.Inferred.{seen}
use dryve_d.Exchange.Words.{
  bind-ok, command, obeyed, In, IsFree, shutdown-Takes, switch_on-Takes, enable-Takes,
  state-simulated, command-simulated,
}

module _ (cfg : Config) where
  skip :
      (states : List Cia402State) (action : Action Simulation (Unit {0})) (st : Cia402State)
      (w : World Simulation)
      → among states st ≡ false
      → step_if simulation cfg states action st w ≡ some (ok st, w)
  unfolding step_if
  skip states action st w h = rw (h) refl

  step :
      (states : List Cia402State) (action : Action Simulation (Unit {0})) (st : Cia402State)
      (t : Ds402State) (w v : World Simulation)
      → among states st ≡ true
      → action w ≡ some (ok tt, v)
      → In t v
      → step_if simulation cfg states action st w ≡ some (ok (seen t false), v)
  unfolding step_if
  step states action st t w v h done i =
      rw (h)
        (bind-ok action (λ _. current_state simulation cfg) w v tt done ∙ state-simulated cfg t v i)

  -- The last step from `Switched on` and from `Operation enabled`.
  finish-simulated :
      (rounds : ℕ) (st : Cia402State) (w : World Simulation)
      → (st ≡ Cia402State.switched_on) ⊎ (st ≡ Cia402State.operation_enabled)
      → IsFree w.plant.0
      → finish simulation cfg (suc rounds) st w ≡ some (ok tt, obeyed 0x0F w)
  unfolding finish enable_operation ensure_hold_bits cw_set_bits mask mask_from
  finish-simulated rounds st w (inl s) free = rw (s) (
      command-simulated cfg rounds cfg.step_timeout 0x0F Ds402State.operation_enabled
        (among (Cia402State.operation_enabled ∷ [])) w (enable-Takes w free) refl refl)
  finish-simulated rounds st w (inr s) free = rw (s) (
      ap (λ r. some (r.0, record { plant = r.1; sent = w.sent ++ (command 0x0F ∷ []) }))
        (enable-Takes w free).0)

  -- The steps of the path behind the one that leaves `Switch on disabled`.
  abbrev pub tail : ℕ → Action Simulation Cia402State → Action Simulation (Unit {0})
  tail rounds m =
      m
      >>= step_if simulation cfg (Cia402State.not_ready_to_switch_on ∷ []) (
          wait_for_states simulation cfg rounds
            (among (Cia402State.switch_on_disabled ∷ Cia402State.ready_to_switch_on ∷ []))
            cfg.step_timeout
          >> pure tt)
      >>= step_if simulation cfg (Cia402State.ready_to_switch_on ∷ [])
          (switch_on simulation cfg rounds)
      >>= finish simulation cfg rounds

  pub tail-ready :
      (rounds : ℕ) (m : Action Simulation Cia402State) (w v : World Simulation)
      → m w ≡ some (ok Cia402State.ready_to_switch_on, v)
      → IsFree v.plant.0
      → tail (suc rounds) m w ≡ some (ok tt, obeyed 0x0F (obeyed 0x07 v))
  unfolding switch_on
  tail-ready rounds m w v h free =
      let taken = switch_on-Takes v free in
      let switched =
        command-simulated cfg rounds cfg.step_timeout 0x07 Ds402State.switched_on
          (among (Cia402State.switched_on ∷ Cia402State.operation_enabled ∷ [])) v taken refl
          refl in
      bind-ok _ (finish simulation cfg (suc rounds)) w (obeyed 0x07 v) Cia402State.switched_on (
        bind-ok _ (step_if simulation cfg _ (switch_on simulation cfg (suc rounds))) w v
          Cia402State.ready_to_switch_on
          (bind-ok m _ w v Cia402State.ready_to_switch_on h ∙ skip _ _ _ v refl)
        ∙ step _ (switch_on simulation cfg (suc rounds)) Cia402State.ready_to_switch_on
            Ds402State.switched_on v (obeyed 0x07 v) refl switched taken.1)
      ∙ finish-simulated rounds Cia402State.switched_on (obeyed 0x07 v) (inl refl)
          (taken.1.1, taken.1.2)

  pub tail-on :
      (rounds : ℕ) (m : Action Simulation Cia402State) (st : Cia402State) (w : World Simulation)
      → m w ≡ some (ok st, w)
      → (st ≡ Cia402State.switched_on) ⊎ (st ≡ Cia402State.operation_enabled)
      → among (Cia402State.not_ready_to_switch_on ∷ []) st ≡ false
      → among (Cia402State.ready_to_switch_on ∷ []) st ≡ false
      → IsFree w.plant.0
      → tail (suc rounds) m w ≡ some (ok tt, obeyed 0x0F w)
  tail-on rounds m st w h on a b free =
      bind-ok _ (finish simulation cfg (suc rounds)) w w st (
        bind-ok _ (step_if simulation cfg _ (switch_on simulation cfg (suc rounds))) w w st
          (bind-ok m _ w w st h ∙ skip _ _ st w a)
        ∙ skip _ _ st w b)
      ∙ finish-simulated rounds st w on free

  -- The first two steps, which deal with a fault and leave `Switch on disabled`.
  abbrev pub head : ℕ → Action Simulation Cia402State
  head rounds =
      current_state simulation cfg
      >>= step_if simulation cfg (Cia402State.fault ∷ Cia402State.fault_reaction_active ∷ [])
          (fault_reset simulation cfg rounds)
      >>= step_if simulation cfg (Cia402State.switch_on_disabled ∷ [])
          (shutdown simulation cfg rounds)

  pub head-disabled :
      (rounds : ℕ) (w : World Simulation)
      → In Ds402State.switch_on_disabled w
      → head (suc rounds) w ≡ some (ok Cia402State.ready_to_switch_on, obeyed 0x06 w)
  unfolding shutdown
  head-disabled rounds w i =
      let taken = shutdown-Takes w (i.1, i.2) in
      let shut =
        command-simulated cfg rounds cfg.step_timeout 0x06 Ds402State.ready_to_switch_on
          (among (Cia402State.ready_to_switch_on ∷ Cia402State.switch_on_disabled ∷ [])) w taken
          refl refl in
      bind-ok _ (step_if simulation cfg _ (shutdown simulation cfg (suc rounds))) w w
        Cia402State.switch_on_disabled
        (bind-ok (current_state simulation cfg) _ w w Cia402State.switch_on_disabled
            (state-simulated cfg Ds402State.switch_on_disabled w i)
          ∙ skip _ _ _ w refl)
      ∙ step _ (shutdown simulation cfg (suc rounds)) Cia402State.switch_on_disabled
          Ds402State.ready_to_switch_on w (obeyed 0x06 w) refl shut taken.1

  pub head-skipped :
      (rounds : ℕ) (st : Ds402State) (w : World Simulation)
      → In st w
      → among (Cia402State.fault ∷ Cia402State.fault_reaction_active ∷ []) (seen st false) ≡ false
      → among (Cia402State.switch_on_disabled ∷ []) (seen st false) ≡ false
      → head (suc rounds) w ≡ some (ok (seen st false), w)
  head-skipped rounds st w i a b =
      bind-ok _ (step_if simulation cfg _ (shutdown simulation cfg (suc rounds))) w w
        (seen st false)
        (bind-ok (current_state simulation cfg) _ w w (seen st false) (state-simulated cfg st w i)
          ∙ skip _ _ _ w a)
      ∙ skip _ _ _ w b
