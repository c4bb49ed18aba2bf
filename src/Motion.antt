-- ===== src/Motion.antt =====
-- src/dryve_d1/motion: the helpers for the operation modes, over a plant. Their log lines are left
-- out. The abort event of a helper is a predicate of the plant, which is false where there is no
-- event.
pub mod ProfilePosition
pub mod ProfileVelocity
pub mod Homing
pub mod Jog
pub mod Rules
use dryve_d.Base.{ℕ, ◌%◌, Bool, true, false, Option, none, some, leb, if◌then◌else◌}
use dryve_d.Base.Int.{ℤ, pos, eqb_ℤ}
use dryve_d.Base.Errors.{Error, timeout_error}
use dryve_d.Io.{Plant, Action, pure, raise, ◌>>=◌, ◌>>◌, read_i8, write_u16, sleep, now}
use dryve_d.Od.Indices.{OdIndex, index_of}
use dryve_d.Od.Controlword.{cw_enable_operation, cw_pulse_new_set_point}

-- `self._cfg.x if x is None else x`
abbrev pub or_else : {A : Type 0} → Option A → Option A → Option A
or_else none default = default
or_else (some a) default = some a

-- `self._cfg.timeout if timeout is None else timeout`
abbrev pub or_default : {A : Type 0} → Option A → A → A
or_default none default = default
or_default (some a) default = a

-- `if x is not None: await action(x)`
unfoldable pub if_given :
    {S A : Type 0} → Option A → (A → Action S (Unit {0})) → Action S (Unit {0})
if_given none action = pure tt
if_given (some a) action = action a

-- `if self._abort is not None and self._abort.is_set(): raise e`
unfoldable pub raise_if_aborted : {S : Type 0} → (S → Bool) → Error → Action S (Unit {0})
raise_if_aborted aborted e w = (if aborted w.plant then raise e else pure tt) w

module _ {S : Type 0} (p : Plant S) where
  -- `write_u16(int(ODIndex.CONTROLWORD), int(word) & 0xFFFF, 0)`
  abbrev pub write_controlword : ℕ → Action S (Unit {0})
  write_controlword word = write_u16 p (index_of OdIndex.controlword) (pos (word % 65536)) 0

  -- The start bit set and released, with the hold bits.
  unfoldable pub pulse_start : Action S (Unit {0})
  pulse_start =
      write_controlword (cw_pulse_new_set_point cw_enable_operation).0
      >> write_controlword (cw_pulse_new_set_point cw_enable_operation).1

  -- One round of the loop of `ensure_mode`, of homing and of the profile velocity mode.
  unfoldable pub mode_shown_round : ℕ → ℤ → ℕ → Action S (Option (Unit {0}))
  mode_shown_round poll_interval mode deadline =
      read_i8 p (index_of OdIndex.modes_of_operation_display) 0 >>= λ mode_disp.
      if eqb_ℤ mode_disp mode
      then pure (some tt)
      else (now p >>= λ time.
          if leb deadline time then raise timeout_error else (sleep p poll_interval >> pure none))
