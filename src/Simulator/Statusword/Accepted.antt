-- ===== src/Simulator/Statusword/Accepted.antt =====
-- What the guards of the driver's `read_statusword` see in the statuswords of the simulator.
use dryve_d.Base.{◌%◌, ◌≡◌, refl, Bool, true, false, not, ◌&&◌, arith, ◌==◌}
use dryve_d.Base.Int.{pos, eqb_ℤ}
use dryve_d.Cia402.Bits.{bit_is_set}
use dryve_d.Simulator.Drive.{Ds402State, FakeDrive}
use dryve_d.Simulator.Statusword.{word_of, make_statusword}
use dryve_d.Simulator.Statusword.Inferred.{both, both-true}

-- The remote bit is set, and the word is not the one of a drive that has not booted.
unfoldable passes : Ds402State → Bool → Bool → Bool → Bool → Bool → Bool
passes st f w r a e = let word = word_of st f w r a e in bit_is_set word 9 && not (word == 0x2704)

passes_always :
    (st : Ds402State) (f : Bool)
    → both (λ w. both (λ r. both (λ a. both (λ e. passes st f w r a e)))) ≡ true
unfolding passes bit_is_set
passes_always Ds402State.switch_on_disabled true = refl
passes_always Ds402State.switch_on_disabled false = refl
passes_always Ds402State.ready_to_switch_on true = refl
passes_always Ds402State.ready_to_switch_on false = refl
passes_always Ds402State.switched_on true = refl
passes_always Ds402State.switched_on false = refl
passes_always Ds402State.operation_enabled true = refl
passes_always Ds402State.operation_enabled false = refl
passes_always Ds402State.fault true = refl
passes_always Ds402State.fault false = refl
passes_always Ds402State.quick_stop_active true = refl
passes_always Ds402State.quick_stop_active false = refl

word-passes : (st : Ds402State) (f w r a e : Bool) → passes st f w r a e ≡ true
word-passes st f w r a e =
    both-true (passes st f w r a)
      (both-true (λ x. both (λ e'. passes st f w r x e'))
        (both-true (λ x. both (λ a'. both (λ e'. passes st f w x a' e')))
          (both-true (λ x. both (λ r'. both (λ a'. both (λ e'. passes st f x r' a' e'))))
            (passes_always st f) w)
          r)
        a)
      e

pub make_statusword-accepted :
    (d : FakeDrive)
    → (bit_is_set (make_statusword d) 9 ≡ true)
      × ((make_statusword d == 0x2704) ≡ false)
      × (make_statusword d % 65536 ≡ make_statusword d)
unfolding make_statusword passes
make_statusword-accepted d =
    let p =
      word-passes d.state d.fault d.warning (d.target_reached && not d.is_moving)
        (eqb_ℤ d.op_mode (pos 6) && d.homed) (eqb_ℤ d.op_mode (pos 6) && d.homing_error) in
    (ground arith, ground arith, omega arith)
