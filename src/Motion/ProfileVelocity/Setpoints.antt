-- ===== src/Motion/ProfileVelocity/Setpoints.antt =====
-- What the operations of `ProfileVelocity` send.
use dryve_d.Base.{ℕ, suc, ◌*◌, ◌≤◌, ◌≡◌, refl, Bool, true, false, not, none, List, [], ◌∷◌, ◌++◌}
use dryve_d.Base.Int.{ℤ, pos}
use dryve_d.Io.{Plant, IsTimely, World, Sent, ◌>>◌}
use dryve_d.Io.Rules.{Ends, if-Ends}
use dryve_d.Io.Log.{Sends, Any, seq-Sends, write-Sends, sleep-Sends}
use dryve_d.Motion.Rules.{given, given-Sends, pulse_log, pulse_start-Sends, mode_shown-Sends}
use dryve_d.Motion.ProfileVelocity.{
  Config, ensure_mode, configure, set_target_velocity, latch_new_setpoint, stop_velocity_zero,
}

-- A velocity for the drive, and the start bit set and released.
abbrev pub velocity_log : ℤ → List Sent
velocity_log velocity = record { index = 0x60FF; value = velocity; subindex = 0 } ∷ []

-- The writes of the preparation: the mode, and the ramps that are configured.
abbrev pub ready_log : Config → List Sent
ready_log cfg =
    record { index = 0x6060; value = pos 3; subindex = 0 }
    ∷ (given 0x6083 0 cfg.acceleration
        ++ (given 0x6084 0 cfg.deceleration ++ given 0x6085 0 cfg.quick_stop_decel))

checked : (b : Bool) → not b ≡ false → b ≡ true
checked true h = refl
checked false h = absurd (cc)

module _ {S : Type 0} (p : Plant S) where
  pub setpoint-Sends :
      (velocity : ℤ) (w : World S)
      → Ends (Sends (velocity_log velocity) Any w.sent) (set_target_velocity p velocity w)
  unfolding set_target_velocity
  setpoint-Sends velocity w = write-Sends p p.write_i32 _ _ _ w

  pub commanded-Sends :
      (velocity : ℤ) (w : World S)
      → Ends
          (Sends (velocity_log velocity ++ pulse_log) Any w.sent)
          ((set_target_velocity p velocity >> latch_new_setpoint p) w)
  unfolding latch_new_setpoint
  commanded-Sends velocity w =
      seq-Sends (velocity_log velocity) pulse_log _ (setpoint-Sends velocity w)
        λ _ v _. pulse_start-Sends p v

  pub zero-Sends :
      (w : World S) → Ends (Sends (velocity_log (pos 0)) Any w.sent) (stop_velocity_zero p w)
  unfolding stop_velocity_zero
  zero-Sends w = setpoint-Sends (pos 0) w

  -- Whatever the drive answers, the preparation of the mode ends if its rounds cover the
  -- timeout of the check of the mode, where it is checked. It sends the mode and the ramps that
  -- are configured: a first part of these if it raises, and all of them if it returns.
  pub ready-Sends :
      IsTimely p
      → (cfg : Config) (n : ℕ)
      → (cfg.verify_mode ≡ true → cfg.mode_set_timeout ≤ n * cfg.poll_interval)
      → (w : World S)
      → Ends
          (Sends (ready_log cfg) Any w.sent)
          ((ensure_mode p cfg (suc n) >> configure p cfg none none none) w)
  unfolding ensure_mode configure
  ready-Sends t cfg n h w =
      seq-Sends (_ ∷ []) _ _
        (seq-Sends (_ ∷ []) [] _ (write-Sends p p.write_u8 _ _ _ w) λ _ v _.
          if-Ends (not cfg.verify_mode) _ _ (λ _. sleep-Sends p _ v)
            (λ b. seq-Sends [] [] _ (sleep-Sends p _ v) λ _ u _.
              mode_shown-Sends p t cfg.poll_interval n cfg.mode_set_timeout (pos 3)
                (h (checked cfg.verify_mode b)) u))
        λ _ v₁ _. seq-Sends _ _ _ (given-Sends p p.write_u32 _ _ _ v₁) λ _ v₂ _.
          seq-Sends _ _ _ (given-Sends p p.write_u32 _ _ _ v₂)
            λ _ v₃ _. given-Sends p p.write_u32 _ _ _ v₃
