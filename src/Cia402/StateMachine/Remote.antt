-- ===== src/Cia402/StateMachine/Remote.antt =====
-- The remote bit as the condition of every command of `run_to_operation_enabled`.
use dryve_d.Base.{ℕ, suc, ◌%◌, ◌≡◌, inl, inr, ap, sym, ◌∙◌, true}
use dryve_d.Base.Errors.{Error, Result, ok, err}
use dryve_d.Io.{Plant, IsTimely, World, Action, ◌>>=◌}
use dryve_d.Io.Rules.{Ends, ends, bind-Ends, weaken-Ends}
use dryve_d.Od.Statusword.{Cia402State}
use dryve_d.Cia402.Bits.{bit_is_set}
use dryve_d.Cia402.StateMachine.{Config, current_state, run_to_operation_enabled}
use dryve_d.Cia402.StateMachine.Commands.{
  EnoughRounds, wait-Run, shutdown-Run, switch_on-Run, fault_reset-Run,
}
use dryve_d.Cia402.StateMachine.Run.{step-Run, finish-Run}
use dryve_d.Cia402.StateMachine.Wait.{Word, read-Word}

-- How a command ends: with an exception and nothing sent, or after a first statusword that has the
-- remote bit.
pub data Guarded {S A : Type 0} (p : Plant S) (w : World S) : Result A → World S → Type 0 where
  nothing_sent : {e : Error} {v : World S} → v.sent ≡ w.sent → Guarded p w (err e) v
  remote :
      {r : Result A} {v : World S} (raw : ℕ)
      → (p.read_u16 0x6041 0 w.plant).0 ≡ ok raw
      → bit_is_set (raw % 65536) 9 ≡ true
      → Guarded p w r v

module _ {S : Type 0} (p : Plant S) (cfg : Config) (t : IsTimely p) (n : ℕ)
    (enough : EnoughRounds cfg n) where
  then-Guarded :
      {A B : Type 0} {w : World S} {Q : A → World S → Result B → World S → Type 0} (m : Action S A)
      (f : A → Action S B)
      → Ends (Guarded p w) (m w)
      → ((a : A) (v : World S) → Ends (Q a v) (f a v))
      → Ends (Guarded p w) ((m >>= f) w)
  then-Guarded {A = A} {B = B} {w = w} m f h k =
      bind-Ends m h (λ a v q. weaken-Ends (k a v) (λ r u x. onward v q r u)) cut
    where
      onward :
          {a : A} (v : World S)
          → Guarded p w (ok a) v
          → (r : Result B) (u : World S) → Guarded p w r u
      onward v (remote raw q b) r u = remote raw q b

      cut :
          (e : Error) (v : World S) → Guarded {A = A} p w (err e) v → Guarded {A = B} p w (err e) v
      cut e v (nothing_sent q) = nothing_sent q
      cut e v (remote raw q b) = remote raw q b

  module _ (required : cfg.require_remote ≡ true) where
    Word-remote :
        {w v : World S} {sw : ℕ} {st : Cia402State} → Word p cfg w sw → Guarded p w (ok st) v
    Word-remote (raw, q, e, inl off) = absurd (cc)
    Word-remote (raw, q, e, inr on) = remote raw q (ap (λ b. bit_is_set b 9) (sym e) ∙ on)

    state-Guarded : (w : World S) → Ends (Guarded p w) (current_state p cfg w)
    unfolding current_state
    state-Guarded w =
        bind-Ends _ (read-Word p cfg w) (λ sw v q. ends (Word-remote q.1))
          (λ e v q. nothing_sent q.0)

    -- Where the configuration requires the remote bit, and whatever the drive answers:
    -- `run_to_operation_enabled` ends, and unless the statusword that it reads first has the remote
    -- bit, it raises and sends nothing.
    pub run-Guarded : (w : World S) → Ends (Guarded p w) (run_to_operation_enabled p cfg (suc n) w)
    unfolding run_to_operation_enabled
    run-Guarded w =
        then-Guarded _ _
          (then-Guarded _ _
            (then-Guarded _ _
              (then-Guarded _ _
                (then-Guarded _ _ (state-Guarded w)
                  (step-Run p cfg t n enough _ _ (fault_reset-Run p cfg t n enough)))
                (step-Run p cfg t n enough _ _ (shutdown-Run p cfg t n enough)))
              (step-Run p cfg t n enough _ _
                (λ u. wait-Run p cfg t n enough _ cfg.step_timeout u enough.step)))
            (step-Run p cfg t n enough _ _ (switch_on-Run p cfg t n enough)))
          (finish-Run p cfg t n enough)
