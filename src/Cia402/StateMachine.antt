-- ===== src/Cia402/StateMachine.antt =====
-- src/dryve_d1/cia402/state_machine.py: `CiA402StateMachine` over a plant. Its log lines are left
-- out. A wait loop is given a number of rounds, which bounds it.
pub mod Wait
pub mod Stop
pub mod Guards
pub mod Remote
pub mod Run
pub mod Commands
use dryve_d.Base.{
  ℕ, zero, suc, ◌+◌, ◌%◌, max, Bool, true, false, not, ◌&&◌, ◌||◌, Option, none, some, List, [],
  ◌∷◌, ltb, leb, ◌==◌, if◌then◌else◌,
}
use dryve_d.Base.Int.{pos}
use dryve_d.Base.Errors.{
  Error, Result, ok, err, state_machine_error, state_machine_timeout, invalid_boot_state,
}
use dryve_d.Io.{
  Plant, World, Action, pure, raise, ◌>>=◌, ◌>>◌, catch, when, raise_if, read_u16, write_u16, sleep,
  now,
}
use dryve_d.Od.Indices.{OdIndex, index_of}
use dryve_d.Od.Controlword.{
  CwBit, cw_set_bits, cw_disable_voltage, cw_shutdown, cw_switch_on, cw_enable_operation,
  cw_quick_stop, cw_fault_reset,
}
use dryve_d.Od.Statusword.{Cia402State, SwBit, position, infer_cia402_state}
use dryve_d.Cia402.Bits.{bit_is_set}
use dryve_d.Cia402.Preconditions.{require_remote_enabled}

-- `StateMachineConfig`, with times in microseconds.
pub record Config : Type 0 where
  pub poll_interval : ℕ
  pub step_timeout : ℕ
  pub fault_reset_timeout : ℕ
  pub require_remote : Bool

-- `_INVALID_BOOT_STATE`
abbrev pub invalid_boot_word : ℕ
invalid_boot_word = 0x2704

-- `_ensure_hold_bits`
unfoldable pub ensure_hold_bits : ℕ → ℕ
unfolding cw_set_bits
ensure_hold_bits controlword =
    cw_set_bits controlword
      (CwBit.switch_on ∷ CwBit.enable_voltage ∷ CwBit.quick_stop ∷ CwBit.enable_operation ∷ [])

-- `st in {...}`: two states are the same if they have the same place in the enumeration.
abbrev pub ordinal : Cia402State → ℕ
ordinal Cia402State.not_ready_to_switch_on = 0
ordinal Cia402State.switch_on_disabled = 1
ordinal Cia402State.ready_to_switch_on = 2
ordinal Cia402State.switched_on = 3
ordinal Cia402State.operation_enabled = 4
ordinal Cia402State.quick_stop_active = 5
ordinal Cia402State.fault_reaction_active = 6
ordinal Cia402State.fault = 7
ordinal Cia402State.unknown = 8

abbrev pub among : List Cia402State → Cia402State → Bool
among [] st = false
among (d ∷ states) st = ordinal d == ordinal st || among states st

-- An exception of a pure function, raised in a coroutine.
abbrev pub lift : {S A : Type 0} → Result A → Action S A
lift (ok a) = pure a
lift (err e) = raise e

-- `except StateMachineTimeout: _LOGGER.warning(...)`
abbrev pub is_timeout : Error → Bool
is_timeout state_machine_timeout = true
is_timeout _ = false

abbrev pub ignore_timeout : {S A : Type 0} → A → Error → Option (Action S A)
ignore_timeout a e = if is_timeout e then some (pure a) else none

module _ {S : Type 0} (p : Plant S) (cfg : Config) where
  unfoldable pub read_statusword : Action S ℕ
  read_statusword = do
    sw ← read_u16 p (index_of OdIndex.statusword) 0
    let sw_u16 = sw % 65536
    raise_if (sw_u16 == invalid_boot_word) invalid_boot_state
    when cfg.require_remote (lift (require_remote_enabled sw_u16))
    pure sw_u16

  abbrev pub write_controlword : ℕ → Action S (Unit {0})
  write_controlword value = write_u16 p (index_of OdIndex.controlword) (pos (value % 65536)) 0

  unfoldable pub current_state : Action S Cia402State
  current_state = do sw ← read_statusword; pure (infer_cia402_state sw)

  -- The loop of `_wait_for_states`.
  unfoldable pub wait_loop : ℕ → (Cia402State → Bool) → ℕ → Action S Cia402State
  wait_loop zero desired deadline w = none
  wait_loop (suc rounds) desired deadline w =
      (now p >>= λ loop_time. read_statusword >>= λ sw.
      let last_state = infer_cia402_state sw in
      elim (desired last_state) [
        | true ↦ pure last_state
        | false ↦ elim (leb deadline loop_time) [
          | true ↦ raise state_machine_timeout
          | false ↦ sleep p cfg.poll_interval >> wait_loop rounds desired deadline
        ]
      ])
        w

  -- `_wait_for_states`. `rounds` bounds the loop.
  unfoldable pub wait_for_states : ℕ → (Cia402State → Bool) → ℕ → Action S Cia402State
  wait_for_states rounds desired timeout w =
      (now p >>= λ start. wait_loop rounds desired (start + timeout)) w

  unfoldable pub disable_voltage : Action S (Unit {0})
  disable_voltage = write_controlword cw_disable_voltage

  unfoldable pub quick_stop : ℕ → Action S (Unit {0})
  quick_stop rounds =
      write_controlword (cw_quick_stop cw_enable_operation)
      >> catch
          (wait_for_states rounds (among (Cia402State.quick_stop_active ∷ [])) 2000000 >> pure tt)
          (ignore_timeout tt)

  unfoldable pub shutdown : ℕ → Action S (Unit {0})
  shutdown rounds =
      write_controlword cw_shutdown
      >> (wait_for_states rounds
            (among (Cia402State.ready_to_switch_on ∷ Cia402State.switch_on_disabled ∷ []))
            cfg.step_timeout
          >> pure tt)

  unfoldable pub switch_on : ℕ → Action S (Unit {0})
  switch_on rounds =
      write_controlword cw_switch_on
      >> (wait_for_states rounds
            (among (Cia402State.switched_on ∷ Cia402State.operation_enabled ∷ [])) cfg.step_timeout
          >> pure tt)

  unfoldable pub enable_operation : ℕ → Action S (Unit {0})
  enable_operation rounds =
      write_controlword (ensure_hold_bits cw_enable_operation)
      >> (wait_for_states rounds (among (Cia402State.operation_enabled ∷ [])) cfg.step_timeout
          >> pure tt)

  -- The states in which `fault_reset` ends.
  abbrev pub after_reset : List Cia402State
  after_reset =
      Cia402State.switch_on_disabled ∷ Cia402State.ready_to_switch_on ∷ Cia402State.switched_on
      ∷ Cia402State.operation_enabled ∷ []

  -- What `fault_reset` does once a fault and the remote bit are seen.
  unfoldable pub reset_sequence : ℕ → Action S (Unit {0})
  reset_sequence rounds =
      write_controlword cw_fault_reset
      >> (sleep p (max 100000 cfg.poll_interval)
          >> (write_controlword cw_shutdown
              >> (write_controlword (cw_set_bits cw_shutdown (CwBit.halt ∷ []))
                  >> (wait_for_states rounds (among after_reset) cfg.fault_reset_timeout
                      >> pure tt))))

  unfoldable pub fault_reset : ℕ → Action S (Unit {0})
  fault_reset rounds = read_statusword >>= λ sw.
      if bit_is_set sw (position SwBit.fault)
      then (raise_if (not (bit_is_set sw (position SwBit.remote))) state_machine_error
          >> reset_sequence rounds)
      else pure tt

  -- `if st in states: await action; st = await self.current_state()`
  unfoldable pub step_if :
      List Cia402State → Action S (Unit {0}) → Cia402State → Action S Cia402State
  step_if states action st = if among states st then (action >> current_state) else pure st

  -- The last tests of `run_to_operation_enabled`.
  unfoldable pub finish : ℕ → Cia402State → Action S (Unit {0})
  finish rounds st = elim st [
    | Cia402State.switched_on ↦ enable_operation rounds
    | Cia402State.operation_enabled ↦ write_controlword (ensure_hold_bits cw_enable_operation)
    | Cia402State.quick_stop_active ↦
        shutdown rounds >> (switch_on rounds >> enable_operation rounds)
    | _ ↦ raise state_machine_error
  ]

  unfoldable pub run_to_operation_enabled : ℕ → Action S (Unit {0})
  run_to_operation_enabled rounds =
      current_state
      >>= step_if (Cia402State.fault ∷ Cia402State.fault_reaction_active ∷ []) (fault_reset rounds)
      >>= step_if (Cia402State.switch_on_disabled ∷ []) (shutdown rounds)
      >>= step_if (Cia402State.not_ready_to_switch_on ∷ []) (
          wait_for_states rounds
            (among (Cia402State.switch_on_disabled ∷ Cia402State.ready_to_switch_on ∷ []))
            cfg.step_timeout
          >> pure tt)
      >>= step_if (Cia402State.ready_to_switch_on ∷ []) (switch_on rounds)
      >>= finish rounds
