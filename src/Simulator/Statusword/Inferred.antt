-- ===== src/Simulator/Statusword/Inferred.antt =====
-- What the driver makes of the statuswords of the simulator.
use dryve_d.Base.{
  ℕ, ◌≡◌, refl, sym, ap, ◌∙◌, Bool, true, false, ◌&&◌, not, arith, ◌==◌, ==_iff, if◌then◌else◌,
}
use dryve_d.Base.Int.{pos, eqb_ℤ}
use dryve_d.Cia402.Bits.{bit_is_set}
use dryve_d.Cia402.StateMachine.{ordinal}
use dryve_d.Od.Statusword.{Cia402State, infer_cia402_state}
use dryve_d.Simulator.Drive.{Ds402State, FakeDrive}
use dryve_d.Simulator.Statusword.{word_of, make_statusword}

-- The state that the driver sees. Of an active quick stop it expects bit 2 set and bit 5 clear; the
-- simulator clears both, which is `Switched on` to the driver.
abbrev pub seen : Ds402State → Bool → Cia402State
seen Ds402State.operation_enabled true = Cia402State.fault_reaction_active
seen state true = Cia402State.fault
seen Ds402State.switch_on_disabled false = Cia402State.switch_on_disabled
seen Ds402State.ready_to_switch_on false = Cia402State.ready_to_switch_on
seen Ds402State.switched_on false = Cia402State.switched_on
seen Ds402State.operation_enabled false = Cia402State.operation_enabled
seen Ds402State.fault false = Cia402State.fault
seen Ds402State.quick_stop_active false = Cia402State.switched_on

-- A test on every value of four flags.
abbrev pub both : (Bool → Bool) → Bool
both f = f true && f false

pub both-true : (f : Bool → Bool) → both f ≡ true → (b : Bool) → f b ≡ true
both-true f h true = ground arith
both-true f h false = ground arith

abbrev state_at : ℕ → Cia402State
state_at n =
    if n == 0
    then Cia402State.not_ready_to_switch_on
    else if n == 1
    then Cia402State.switch_on_disabled
    else if n == 2
    then Cia402State.ready_to_switch_on
    else if n == 3
    then Cia402State.switched_on
    else if n == 4
    then Cia402State.operation_enabled
    else if n == 5
    then Cia402State.quick_stop_active
    else if n == 6
    then Cia402State.fault_reaction_active
    else if n == 7
    then Cia402State.fault
    else Cia402State.unknown

state_at-ordinal : (st : Cia402State) → state_at (ordinal st) ≡ st
state_at-ordinal Cia402State.not_ready_to_switch_on = refl
state_at-ordinal Cia402State.switch_on_disabled = refl
state_at-ordinal Cia402State.ready_to_switch_on = refl
state_at-ordinal Cia402State.switched_on = refl
state_at-ordinal Cia402State.operation_enabled = refl
state_at-ordinal Cia402State.quick_stop_active = refl
state_at-ordinal Cia402State.fault_reaction_active = refl
state_at-ordinal Cia402State.fault = refl
state_at-ordinal Cia402State.unknown = refl

unfoldable agrees : Ds402State → Bool → Bool → Bool → Bool → Bool → Bool
agrees st f w r a e = ordinal (infer_cia402_state (word_of st f w r a e)) == ordinal (seen st f)

agrees_always :
    (st : Ds402State) (f : Bool)
    → both (λ w. both (λ r. both (λ a. both (λ e. agrees st f w r a e)))) ≡ true
unfolding agrees infer_cia402_state bit_is_set
agrees_always Ds402State.switch_on_disabled true = refl
agrees_always Ds402State.switch_on_disabled false = refl
agrees_always Ds402State.ready_to_switch_on true = refl
agrees_always Ds402State.ready_to_switch_on false = refl
agrees_always Ds402State.switched_on true = refl
agrees_always Ds402State.switched_on false = refl
agrees_always Ds402State.operation_enabled true = refl
agrees_always Ds402State.operation_enabled false = refl
agrees_always Ds402State.fault true = refl
agrees_always Ds402State.fault false = refl
agrees_always Ds402State.quick_stop_active true = refl
agrees_always Ds402State.quick_stop_active false = refl

word-seen :
    (st : Ds402State) (f w r a e : Bool) → infer_cia402_state (word_of st f w r a e) ≡ seen st f
unfolding agrees
word-seen st f w r a e =
    let of_w =
      both-true (λ x. both (λ r'. both (λ a'. both (λ e'. agrees st f x r' a' e'))))
        (agrees_always st f) w in
    let of_r = both-true (λ x. both (λ a'. both (λ e'. agrees st f w x a' e'))) of_w r in
    let of_a = both-true (λ x. both (λ e'. agrees st f w r x e')) of_r a in
    let t = both-true (agrees st f w r a) of_a e in
    sym (state_at-ordinal _) ∙ ap state_at ((==_iff _ _).0 t) ∙ state_at-ordinal _

-- Whatever its flags, the driver reads from the statusword of the simulated drive the state that
-- the drive is in, where a fault comes first, and an active quick stop is taken for `Switched on`.
pub make_statusword-seen :
    (d : FakeDrive) → infer_cia402_state (make_statusword d) ≡ seen d.state d.fault
unfolding make_statusword
make_statusword-seen d =
    word-seen d.state d.fault d.warning (d.target_reached && not d.is_moving)
      (eqb_ℤ d.op_mode (pos 6) && d.homed) (eqb_ℤ d.op_mode (pos 6) && d.homing_error)
