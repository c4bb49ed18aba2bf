-- ===== src/Tests/Words.antt =====
-- The word helpers of src/dryve_d1/od at concrete words.
use dryve_d.Base.{◌≡◌, refl}
use dryve_d.Od.Controlword.{cw_pulse_new_set_point}
use dryve_d.Cia402.Bits.{bit_is_set}
use dryve_d.Od.Statusword.{Cia402State, infer_cia402_state}
use dryve_d.Od.Statusword.Table.{first_match, state_table, infer-eq-table}

pulse_words : cw_pulse_new_set_point 0x002F ≡ (0x003F, 0x002F)
unfolding cw_pulse_new_set_point
pulse_words = refl

infer-eq-table_example : infer_cia402_state 0x0627 ≡ first_match 0x0627 state_table
infer-eq-table_example = infer-eq-table 0x0627

enabled_word : infer_cia402_state 0x0627 ≡ Cia402State.operation_enabled
unfolding infer_cia402_state bit_is_set
enabled_word = refl
