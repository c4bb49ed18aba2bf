-- ===== src/Cia402/StateMachine/Guards.antt =====
-- The hold bits of `_ensure_hold_bits`, and a first statusword without the remote bit.
use dryve_d.Base.{
  [], ◌∷◌, ℕ, ◌%◌, ◌≡◌, refl, subst, true, false, ◌||◌, some, arith, ltb, ◌==◌, ==_iff, Bool-cases,
  inl, inr,
}
use dryve_d.Base.Errors.{ok, err, precondition_failed}
use dryve_d.Base.Bits.{test_bit}
use dryve_d.Io.{Plant, World, ◌>>=◌, raise_if, when}
use dryve_d.Cia402.Bits.{bit_is_set}
use dryve_d.Cia402.Preconditions.{require_remote_enabled}
use dryve_d.Od.Controlword.{CwBit}
use dryve_d.Od.Controlword.Laws.{cw_set_bits-bit}
use dryve_d.Cia402.StateMachine.{
  Config, ensure_hold_bits, read_statusword, current_state, run_to_operation_enabled,
  invalid_boot_word,
}

-- The hold bits are bits 0 to 3, and every other bit of the word is kept.
pub ensure_hold_bits-bit :
    (word k : ℕ) → test_bit (ensure_hold_bits word) k ≡ (test_bit word k || ltb k 4)
unfolding ensure_hold_bits
ensure_hold_bits-bit word k = ground (
  arith,
  cw_set_bits-bit word k
      (CwBit.switch_on ∷ CwBit.enable_voltage ∷ CwBit.quick_stop ∷ CwBit.enable_operation ∷ []),
)

module _ {S : Type 0} (p : Plant S) (cfg : Config) (w : World S) where
  -- The world after one read of the statusword.
  abbrev pub after_read : World S
  after_read = record w { plant = (p.read_u16 0x6041 0 w.plant).1 }

  -- The word that is refused as the invalid boot state has the remote bit.
  invalid-remote :
      (sw : ℕ) → bit_is_set (sw % 65536) 9 ≡ false → (sw % 65536 == invalid_boot_word) ≡ false
  unfolding bit_is_set
  invalid-remote sw h = elim (Bool-cases (sw % 65536 == invalid_boot_word)) [
    | inr q ↦ q
    | inl q ↦
        let bad : bit_is_set 0x2704 9 ≡ false =
          subst (λ v. bit_is_set v 9 ≡ false) ((==_iff _ _).0 q) h in
        cc
  ]

  pub read-blocked :
      (sw : ℕ)
      → cfg.require_remote ≡ true
      → (p.read_u16 0x6041 0 w.plant).0 ≡ ok sw
      → bit_is_set (sw % 65536) 9 ≡ false
      → read_statusword p cfg w ≡ some (err precondition_failed, after_read)
  unfolding read_statusword ◌>>=◌ raise_if when require_remote_enabled
  read-blocked sw r q h = rw (q, invalid-remote sw h, r, h) refl

  -- If the remote bit is required and the first statusword lacks it, `run_to_operation_enabled`
  -- raises the failed precondition after that one read: nothing is sent, whatever the state.
  pub run-blocked :
      (rounds sw : ℕ)
      → cfg.require_remote ≡ true
      → (p.read_u16 0x6041 0 w.plant).0 ≡ ok sw
      → bit_is_set (sw % 65536) 9 ≡ false
      → run_to_operation_enabled p cfg rounds w ≡ some (err precondition_failed, after_read)
  unfolding run_to_operation_enabled current_state ◌>>=◌ read_statusword
  run-blocked rounds sw r q h = rw (read-blocked sw r q h)
