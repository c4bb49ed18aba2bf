-- ===== src/Cia402/StateMachine/Stop.antt =====
-- `quick_stop`.
use dryve_d.Base.{
  Bool, true, false, Option, if◌then◌else◌, ℕ, suc, ◌*◌, ◌≤◌, ◌≡◌, refl, ◌∙◌, none, some, [], ◌∷◌,
  ◌++◌,
}
use dryve_d.Base.Errors.{Error, Result, err}
use dryve_d.Io.{Plant, IsTimely, World, pure}
use dryve_d.Io.Rules.{Ends, ends, bind-Ends, catch-Ends}
use dryve_d.Od.Controlword.{cw_quick_stop, cw_clear_bits}
use dryve_d.Od.Statusword.{Cia402State}
use dryve_d.Cia402.StateMachine.{Config, among, ignore_timeout, is_timeout, quick_stop}
use dryve_d.Cia402.StateMachine.Wait.{wait_for_states-Ends}
use dryve_d.Cia402.StateMachine.Commands.{command}

-- The handler changes no world, whether it takes the exception or not.
ignored :
    {S : Type 0} {P : World S → Type 0} (b : Bool) (e : Error) (u : World S)
    → P u
    → Ends
        (λ _ v. P v)
        (elim (if b then some (pure {S = S} tt) else none)
          as (λ _. Option (Result (Unit {0}) × World S)) [ none ↦ some (err e, u) | some h ↦ h u ])
ignored true e u q = ends q
ignored false e u q = ends q

module _ {S : Type 0} (p : Plant S) (cfg : Config) (t : IsTimely p) where
  -- With rounds for two seconds, `quick_stop` ends, whatever the drive answers, and it sends one
  -- word: that of an enabled operation with the quick stop bit cleared, 0x000B.
  pub quick_stop-Ends :
      (n : ℕ)
      → 2000000 ≤ n * cfg.poll_interval
      → (w : World S)
      → Ends (λ _ v. v.sent ≡ w.sent ++ (command 0x0B ∷ [])) (quick_stop p cfg (suc n) w)
  unfolding quick_stop cw_quick_stop cw_clear_bits
  quick_stop-Ends n h w =
      bind-Ends {Q = λ _ v. v.sent ≡ w.sent ++ (command 0x0B ∷ [])} _ (ends refl)
        (λ _ v q.
          catch-Ends {Q = λ _ u. u.sent ≡ v.sent} (ignore_timeout tt)
            (bind-Ends _
              (wait_for_states-Ends p cfg t n (among (Cia402State.quick_stop_active ∷ [])) 2000000 h
                v)
              (λ st u x. ends x.0) (λ e u x. x.0))
            (λ a u x. x ∙ q)
            (λ e u x.
              ignored {P = λ v. v.sent ≡ w.sent ++ (command 0x0B ∷ [])} (is_timeout e) e u (x ∙ q)))
        (λ e v q. q)
