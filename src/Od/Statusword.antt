-- ===== src/Od/Statusword.antt =====
-- src/dryve_d1/od/statusword.py.
pub mod Table
use dryve_d.Base.{ℕ, ◌%◌, Bool, true, false, not, ◌&&◌, if◌then◌else◌}
use dryve_d.Cia402.Bits.{bit_is_set}

-- `SWBit`
pub data SwBit : Type 0 where
  ready_to_switch_on switched_on operation_enabled fault voltage_enabled quick_stop : SwBit
  switch_on_disabled warning remote target_reached internal_limit_active : SwBit
  op_mode_specific following_error : SwBit

-- `int(SWBit.X)`
abbrev pub position : SwBit → ℕ
position SwBit.ready_to_switch_on = 0
position SwBit.switched_on = 1
position SwBit.operation_enabled = 2
position SwBit.fault = 3
position SwBit.voltage_enabled = 4
position SwBit.quick_stop = 5
position SwBit.switch_on_disabled = 6
position SwBit.warning = 7
position SwBit.remote = 9
position SwBit.target_reached = 10
position SwBit.internal_limit_active = 11
position SwBit.op_mode_specific = 12
position SwBit.following_error = 13

-- `CiA402State`
pub data Cia402State : Type 0 where
  not_ready_to_switch_on switch_on_disabled ready_to_switch_on switched_on : Cia402State
  operation_enabled quick_stop_active fault_reaction_active fault unknown : Cia402State

-- The dictionary that `decode_statusword` returns, a field for each of its keys.
pub record Flags : Type 0 where
  pub ready_to_switch_on : Bool
  pub switched_on : Bool
  pub operation_enabled : Bool
  pub fault : Bool
  pub voltage_enabled : Bool
  pub quick_stop : Bool
  pub switch_on_disabled : Bool
  pub warning : Bool
  pub remote : Bool
  pub target_reached : Bool
  pub internal_limit_active : Bool
  pub op_mode_specific : Bool
  pub following_error : Bool

unfoldable pub decode_statusword : ℕ → Flags
decode_statusword word =
    let w = word % 65536 in
    record {
      ready_to_switch_on = bit_is_set w (position SwBit.ready_to_switch_on);
      switched_on = bit_is_set w (position SwBit.switched_on);
      operation_enabled = bit_is_set w (position SwBit.operation_enabled);
      fault = bit_is_set w (position SwBit.fault);
      voltage_enabled = bit_is_set w (position SwBit.voltage_enabled);
      quick_stop = bit_is_set w (position SwBit.quick_stop);
      switch_on_disabled = bit_is_set w (position SwBit.switch_on_disabled);
      warning = bit_is_set w (position SwBit.warning);
      remote = bit_is_set w (position SwBit.remote);
      target_reached = bit_is_set w (position SwBit.target_reached);
      internal_limit_active = bit_is_set w (position SwBit.internal_limit_active);
      op_mode_specific = bit_is_set w (position SwBit.op_mode_specific);
      following_error = bit_is_set w (position SwBit.following_error);
    }

-- The tests of `infer_cia402_state`, on the six bits that it reads.
abbrev pub infer_from_bits : Bool → Bool → Bool → Bool → Bool → Bool → Cia402State
infer_from_bits b0 b1 b2 b3 b5 b6 =
    if b3 && b0 && b1 && b2
    then Cia402State.fault_reaction_active
    else if b3
    then Cia402State.fault
    else if not b0 && not b1 && not b2 && not b6
    then Cia402State.not_ready_to_switch_on
    else if not b0 && not b1 && not b2 && b6
    then Cia402State.switch_on_disabled
    else if b0 && not b1 && not b2 && not b6
    then Cia402State.ready_to_switch_on
    else if b0 && b1 && not b2 && not b6
    then Cia402State.switched_on
    else if b0 && b1 && b2 && not b6
    then (if not b5 then Cia402State.quick_stop_active else Cia402State.operation_enabled)
    else Cia402State.unknown

unfoldable pub infer_cia402_state : ℕ → Cia402State
infer_cia402_state statusword =
    let w = statusword % 65536 in
    infer_from_bits (bit_is_set w 0) (bit_is_set w 1) (bit_is_set w 2) (bit_is_set w 3)
      (bit_is_set w 5) (bit_is_set w 6)
