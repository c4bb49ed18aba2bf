-- ===== src/Cia402/Fault.antt =====
-- src/dryve_d1/cia402/fault.py: `FaultManager` over a plant, without its log lines. Both handlers of
-- each of its `try` statements do the same, and are one here.
pub mod Diagnostics
pub mod Reset
use dryve_d.Base.{
  ℕ, zero, suc, ◌+◌, ◌%◌, min, Bool, true, false, not, Option, none, some, List, [], ◌∷◌, leb,
  if◌then◌else◌,
}
use dryve_d.Base.Int.{pos}
use dryve_d.Base.Errors.{Result, ok, err, fault_reset_error}
use dryve_d.Io.{Plant, World, Action, pure, raise, ◌>>=◌, ◌>>◌, read_u16, write_u16, sleep, now}
use dryve_d.Od.Indices.{OdIndex, index_of}
use dryve_d.Od.Controlword.{CwBit, cw_set_bits, cw_shutdown, cw_fault_reset}
use dryve_d.Od.Statusword.{SwBit, position}
use dryve_d.Cia402.Bits.{bit_is_set}
use dryve_d.Cia402.Preconditions.{require_remote_enabled}
use dryve_d.Cia402.StateMachine.{lift}

-- `FaultInfo`
pub record FaultInfo : Type 0 where
  pub statusword : ℕ
  pub error_code : Option ℕ
  pub error_register : Option ℕ
  pub history : Option (List ℕ)

-- `try: action  except Exception: None`
unfoldable pub best_effort : {S A : Type 0} → Action S A → Action S (Option A)
best_effort action w = elim (action w) [
  | none ↦ none
  | some (ok a, v) ↦ some (ok (some a), v)
  | some (err e, v) ↦ some (ok none, v)
]

-- `hist_list if hist_list else None`
abbrev pub nonempty : Option (List ℕ) → Option (List ℕ)
nonempty none = none
nonempty (some []) = none
nonempty (some (x ∷ hist)) = some (x ∷ hist)

module _ {S : Type 0} (p : Plant S) where
  unfoldable pub read_statusword : Action S ℕ
  read_statusword = do sw ← read_u16 p (index_of OdIndex.statusword) 0; pure (sw % 65536)

  unfoldable pub read_error_code : Action S ℕ
  read_error_code = do code ← read_u16 p (index_of OdIndex.error_code) 0; pure (code % 65536)

  unfoldable pub read_error_register : Action S ℕ
  read_error_register = do register ← read_u16 p 0x1001 0; pure (register % 256)

  -- The loop over the entries, from subindex `si`; the first exception ends it.
  unfoldable pub read_entries : ℕ → ℕ → Action S (List ℕ)
  read_entries zero si = pure []
  read_entries (suc count) si = best_effort (read_u16 p 0x1003 si) >>= λ entry. elim entry [
    | none ↦ pure []
    | some code ↦ read_entries count (si + 1) >>= λ hist. pure (code % 65536 ∷ hist)
  ]

  unfoldable pub read_error_history : ℕ → Action S (List ℕ)
  read_error_history max_entries = best_effort (read_u16 p 0x1003 0) >>= λ found. elim found [
    | none ↦ pure []
    | some count ↦ read_entries (min (count % 256) max_entries) 1
  ]

  unfoldable pub read_fault_info : Bool → Action S FaultInfo
  read_fault_info include_history = read_statusword >>= λ sw.
      if bit_is_set sw (position SwBit.fault)
      then (best_effort read_error_code >>= λ ec. best_effort read_error_register >>= λ er.
          best_effort (if include_history then read_error_history 8 else pure []) >>= λ hist.
          pure (record {
            statusword = sw;
            error_code = ec;
            error_register = er;
            history = nonempty hist;
          }))
      else pure
          (record { statusword = sw; error_code = none; error_register = none; history = none })

  -- The last loop of `reset_fault`.
  unfoldable pub reset_loop : ℕ → ℕ → ℕ → Action S (Unit {0})
  reset_loop zero poll_interval deadline w = none
  reset_loop (suc rounds) poll_interval deadline w =
      (read_statusword >>= λ sw. elim (bit_is_set sw (position SwBit.fault)) [
        | false ↦ pure tt
        | true ↦ now p >>= λ time. elim (leb deadline time) [
          | true ↦ raise fault_reset_error
          | false ↦ sleep p poll_interval >> reset_loop rounds poll_interval deadline
        ]
      ])
        w

  abbrev write_controlword : ℕ → Action S (Unit {0})
  write_controlword word = write_u16 p (index_of OdIndex.controlword) (pos (word % 65536)) 0

  -- What `reset_fault` does once the fault and the remote bit are seen.
  unfoldable pub reset_words : ℕ → ℕ → ℕ → Action S (Unit {0})
  reset_words rounds timeout poll_interval =
      write_controlword cw_fault_reset
      >> (sleep p poll_interval
          >> (write_controlword cw_shutdown
              >> (write_controlword (cw_set_bits cw_shutdown (CwBit.halt ∷ []))
                  >> (now p >>= λ start. reset_loop rounds poll_interval (start + timeout)))))

  unfoldable pub reset_fault : ℕ → ℕ → ℕ → Action S (Unit {0})
  reset_fault rounds timeout poll_interval = read_statusword >>= λ sw0.
      if bit_is_set sw0 (position SwBit.fault)
      then (lift (require_remote_enabled sw0) >> reset_words rounds timeout poll_interval)
      else pure tt
