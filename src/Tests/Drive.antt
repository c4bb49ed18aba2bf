-- ===== src/Tests/Drive.antt =====
-- The state machine and the fault diagnostics against a drive that follows the controlword.
use dryve_d.Base.{◌==◌, if◌then◌else◌, ℕ, ◌+◌, ◌≡◌, refl, true, some, [], ◌∷◌, arith}
use dryve_d.Base.Int.{ℤ, pos, negsuc}
use dryve_d.Base.Errors.{ok, err, state_machine_error}
use dryve_d.Io.{Plant, IsTimely, World, ◌>>=◌, raise_if, when}
use dryve_d.Io.Rules.{Ends}
use dryve_d.Od.Statusword.{Cia402State, infer_cia402_state}
use dryve_d.Cia402.Bits.{bit_is_set}
use dryve_d.Cia402.Preconditions.{require_remote_enabled}
use dryve_d.Cia402.StateMachine.{
  Config, among, ensure_hold_bits, wait_for_states, wait_loop, fault_reset,
  run_to_operation_enabled, read_statusword, current_state, step_if, finish, shutdown, switch_on,
  enable_operation,
}
use dryve_d.Cia402.StateMachine.Wait.{Waited, wait_for_states-Ends}
use dryve_d.Cia402.StateMachine.Commands.{Reset, command, EnoughRounds, Run, fault_reset-Run}
use dryve_d.Cia402.StateMachine.Run.{Holding, run_to_operation_enabled-Run}
use dryve_d.Cia402.StateMachine.Remote.{Guarded, run-Guarded}
use dryve_d.Simulator.Drive.{Ds402State, FakeDrive, new_drive}
use dryve_d.Simulator.Statusword.{make_statusword}
use dryve_d.Simulator.Statusword.Inferred.{make_statusword-seen}
use dryve_d.Cia402.Fault.{read_fault_info}
use dryve_d.Cia402.Fault.Diagnostics.{Diagnosed, read_fault_info-Diagnosed}

-- A drive that enters at once the state that the controlword asks for: its statusword.
abbrev follow : ℤ → ℕ → ℕ
follow (pos value) word =
    if value == 0x06
    then 0x0231
    else if value == 0x07
    then 0x0233
    else if value == 0x0F
    then 0x0237
    else if value == 0x80
    then 0x0250
    else word
follow (negsuc value) word = word

-- Every access takes a millisecond. The state is the statusword and the time.
abbrev drive : Plant (ℕ × ℕ)
drive = record {
  read_u16 = λ index sub s. (ok s.0, (s.0, s.1 + 1000));
  read_i8 = λ index sub s. (ok (pos 0), (s.0, s.1 + 1000));
  read_i32 = λ index sub s. (ok (pos 0), (s.0, s.1 + 1000));
  write_u8 = λ index value sub s. (ok tt, s);
  write_u16 = λ index value sub s. (ok tt, (follow value s.0, s.1 + 1000));
  write_u32 = λ index value sub s. (ok tt, s);
  write_i32 = λ index value sub s. (ok tt, s);
  sleep = λ d s. (s.0, s.1 + d);
  clock = λ s. s.1;
}

drive-IsTimely : IsTimely drive
drive-IsTimely = record {
  read_later = λ i sub s. omega arith;
  read_i8_later = λ i sub s. omega arith;
  read_i32_later = λ i sub s. omega arith;
  sleeps = λ d s. omega arith;
}

-- The defaults of `StateMachineConfig`.
abbrev defaults : Config
defaults = record {
  poll_interval = 50000;
  step_timeout = 5000000;
  fault_reset_timeout = 5000000;
  require_remote = true;
}

enough : EnoughRounds defaults 100
enough = record { step = omega arith; reset = omega arith }

-- Switch on disabled; in fault; and with the remote bit clear.
abbrev disabled : World (ℕ × ℕ)
disabled = record { plant = (0x0250, 0); sent = [] }

abbrev faulty : World (ℕ × ℕ)
faulty = record { plant = (0x0218, 0); sent = [] }

abbrev local : World (ℕ × ℕ)
local = record { plant = (0x0050, 0); sent = [] }

wait_for_states-Ends_example :
    Ends
      (Waited drive defaults (among (Cia402State.fault ∷ [])) disabled)
      (wait_for_states drive defaults 101 (among (Cia402State.fault ∷ [])) 5000000 disabled)
wait_for_states-Ends_example =
    wait_for_states-Ends drive defaults drive-IsTimely 100 (among (Cia402State.fault ∷ [])) 5000000
      (omega arith) disabled

run_to_operation_enabled-Run_example :
    Ends (Run (Holding) faulty) (run_to_operation_enabled drive defaults 101 faulty)
run_to_operation_enabled-Run_example =
    run_to_operation_enabled-Run drive defaults drive-IsTimely 100 enough faulty

fault_reset-Run_example :
    Ends
      (Run (λ _ l. Reset drive defaults drive-IsTimely 100 enough faulty l) faulty)
      (fault_reset drive defaults 101 faulty)
fault_reset-Run_example = fault_reset-Run drive defaults drive-IsTimely 100 enough faulty

run-Guarded_example : Ends (Guarded drive local) (run_to_operation_enabled drive defaults 101 local)
run-Guarded_example = run-Guarded drive defaults drive-IsTimely 100 enough refl local

read_fault_info-Diagnosed_example :
    Ends (λ r v. (v.sent ≡ []) × Diagnosed (ok 0x0218) r) (read_fault_info drive true faulty)
read_fault_info-Diagnosed_example = read_fault_info-Diagnosed drive true faulty

-- The simulated drive in an active quick stop.
abbrev stopping : FakeDrive
stopping = record new_drive {
  state = Ds402State.quick_stop_active;
  warning = true;
  op_mode = pos 6;
  homed = true;
}

make_statusword-seen_example :
    infer_cia402_state (make_statusword stopping) ≡ Cia402State.switched_on
make_statusword-seen_example = make_statusword-seen stopping

-- From `Switch on disabled`, the three words of the path.
recovers :
    run_to_operation_enabled drive defaults 3 disabled
    ≡ some
        (ok tt, record { plant = (0x0237, 9000); sent = command 6 ∷ command 7 ∷ command 0x0F ∷ [] })
unfolding run_to_operation_enabled current_state read_statusword ◌>>=◌ raise_if when
    require_remote_enabled bit_is_set infer_cia402_state step_if finish fault_reset shutdown
    switch_on enable_operation ensure_hold_bits wait_for_states wait_loop
recovers = refl

-- A drive that needs longer for the first transition: `shutdown` takes its old state for success,
-- and the run ends in an exception after one word.
abbrev slow : Plant (ℕ × ℕ)
slow = record drive { write_u16 = λ index value sub s. (ok tt, (s.0, s.1 + 1000)) }

gives_up :
    run_to_operation_enabled slow defaults 101 disabled
    ≡ some (err state_machine_error, record { plant = (0x0250, 4000); sent = command 6 ∷ [] })
unfolding run_to_operation_enabled current_state read_statusword ◌>>=◌ raise_if when
    require_remote_enabled bit_is_set infer_cia402_state step_if finish fault_reset shutdown
    switch_on enable_operation ensure_hold_bits wait_for_states wait_loop
gives_up = refl
