-- ===== src/Cia402/StateMachine/Run.antt =====
-- `run_to_operation_enabled`.
use dryve_d.Base.{ℕ, suc, ◌≡◌, List, [], ◌∷◌, ◌++◌}
use dryve_d.Base.Errors.{state_machine_error}
use dryve_d.Io.{Plant, IsTimely, World, Action, Sent, raise}
use dryve_d.Io.Rules.{Ends, ends, if-Ends, same}
use dryve_d.Od.Statusword.{Cia402State}
use dryve_d.Cia402.StateMachine.{
  Config, among, step_if, finish, enable_operation, run_to_operation_enabled, ensure_hold_bits,
}
use dryve_d.Cia402.StateMachine.Commands.{
  command, enables, EnoughRounds, Run, Anything, map-Run, seq-Run, write-Run, state-Run, wait-Run,
  shutdown-Run, switch_on-Run, enable_operation-Run, fault_reset-Run,
}

-- The last word sent keeps bits 0 to 3 set.
abbrev pub Holding : Unit {0} → List Sent → Type 0
Holding u log = (before : List Sent) × (log ≡ before ++ (command 0x0F ∷ []))

module _ {S : Type 0} (p : Plant S) (cfg : Config) (t : IsTimely p) (n : ℕ)
    (enough : EnoughRounds cfg n) where
  pub step-Run :
      {P : World S → Unit {0} → List Sent → Type 0} (states : List Cia402State)
      (action : Action S (Unit {0}))
      → ((w : World S) → Ends (Run (P w) w) (action w))
      → (st : Cia402State) (w : World S) → Ends (Run Anything w) (step_if p cfg states action st w)
  unfolding step_if
  step-Run states action h st w =
      if-Ends (among states st) _ _
        (λ yes'. seq-Run _ (h w) (λ _ v q. state-Run p cfg t n enough v))
        (λ no'. ends (record { grown = same; returned = tt }))

  unhandled-Run :
      {P : Unit {0} → List Sent → Type 0} (w : World S)
      → Ends (Run P w) (raise state_machine_error w)
  unhandled-Run w = ends (record { grown = same; returned = tt })

  enabled-Run : (w : World S) → Ends (Run Holding w) (enable_operation p cfg (suc n) w)
  enabled-Run w = map-Run (λ _ l x. (w.sent, x)) (enable_operation-Run p cfg t n enough w)

  pub finish-Run :
      (st : Cia402State) (w : World S) → Ends (Run Holding w) (finish p cfg (suc n) st w)
  unfolding finish ensure_hold_bits
  finish-Run Cia402State.switched_on w = enabled-Run w
  finish-Run Cia402State.operation_enabled w =
      map-Run (λ _ l x. (w.sent, x)) (write-Run p cfg t n enough 0x0F w enables)
  finish-Run Cia402State.quick_stop_active w =
      seq-Run _ (shutdown-Run p cfg t n enough w)
        (λ _ v q. seq-Run _ (switch_on-Run p cfg t n enough v) (λ _ u q'. enabled-Run u))
  finish-Run Cia402State.not_ready_to_switch_on w = unhandled-Run w
  finish-Run Cia402State.switch_on_disabled w = unhandled-Run w
  finish-Run Cia402State.ready_to_switch_on w = unhandled-Run w
  finish-Run Cia402State.fault_reaction_active w = unhandled-Run w
  finish-Run Cia402State.fault w = unhandled-Run w
  finish-Run Cia402State.unknown w = unhandled-Run w

  -- With enough rounds, and whatever the drive answers, `run_to_operation_enabled` ends. It sends
  -- only the five controlwords of the path to `Operation enabled`, and if it returns, the last
  -- word sent was 0x000F.
  pub run_to_operation_enabled-Run :
      (w : World S) → Ends (Run Holding w) (run_to_operation_enabled p cfg (suc n) w)
  unfolding run_to_operation_enabled
  run_to_operation_enabled-Run w =
      seq-Run _
        (seq-Run _
          (seq-Run _
            (seq-Run _
              (seq-Run _ (state-Run p cfg t n enough w)
                (λ st v q. step-Run _ _ (fault_reset-Run p cfg t n enough) st v))
              (λ st v q. step-Run _ _ (shutdown-Run p cfg t n enough) st v))
            (λ st v q.
              step-Run _ _ (λ u. wait-Run p cfg t n enough _ cfg.step_timeout u enough.step) st v))
          (λ st v q. step-Run _ _ (switch_on-Run p cfg t n enough) st v))
        (λ st v q. finish-Run st v)
