-- ===== src/Motion/ProfilePosition/Reached.antt =====
-- `wait_target_reached`, and what the drive showed when it returns.
use dryve_d.Base.{
  ℕ, suc, ◌*◌, ◌≤◌, ◌≡◌, ◌⊎◌, inl, inr, refl, ◌∙◌, Bool, true, false, Option, none, some, List, leb,
  arith,
}
use dryve_d.Base.Int.{ℤ, pos, ◌-ℤ◌, abs, leb_ℤ}
use dryve_d.Base.Errors.{Error, Result, ok, err, runtime_error, motion_aborted}
use dryve_d.Io.{Plant, IsTimely, World, Sent}
use dryve_d.Io.Rules.{Ends, ends, bind-Ends, if-Ends, now-Ends, Returned}
use dryve_d.Io.Steps.{reading-Ends, attempt-Ends, raising-Ends}
use dryve_d.Io.Polling.{Listens, Polls, pause-Polls, polling-Listens}
use dryve_d.Cia402.Bits.{bit_is_set}
use dryve_d.Motion.{or_default}
use dryve_d.Motion.Rules.{aborting-Ends}
use dryve_d.Motion.ProfilePosition.{
  Config, reached_window, is_complete, reached_round, wait_target_reached,
}

-- The drive said so last: bit 10 of the statusword, and where a target and a window are given, an
-- actual position that is no farther from the target than the window.
pub data Confirmed {S : Type 0} (p : Plant S) (window : ℤ) : Option ℤ → S → Type 0 where
  by_flag :
      {target : Option ℤ} (s : S) (sw : ℕ)
      → (p.read_u16 0x6041 0 s).0 ≡ ok sw
      → bit_is_set sw 10 ≡ true
      → (target ≡ none) ⊎ (leb_ℤ window (pos 0) ≡ true)
      → Confirmed p window target (p.read_u16 0x6041 0 s).1
  by_position :
      (s : S) (sw : ℕ) (actual target : ℤ)
      → (p.read_u16 0x6041 0 s).0 ≡ ok sw
      → bit_is_set sw 10 ≡ true
      → (p.read_i32 0x6064 0 (p.read_u16 0x6041 0 s).1).0 ≡ ok actual
      → leb_ℤ (pos (abs (actual -ℤ target))) window ≡ true
      → Confirmed p window (some target) (p.read_i32 0x6064 0 (p.read_u16 0x6041 0 s).1).1

never : ¬ (false ≡ true)
never h = cc

module _ {S : Type 0} (p : Plant S) (t : IsTimely p) (aborted : S → Bool) (cfg : Config)
    (drive_window : Option ℕ) where
  -- The world was only listened to, and a positive test has its reason.
  record Tested (target : Option ℤ) (w : World S) (r : Result Bool) (v : World S) : Type 0 where
    same_log : v.sent ≡ w.sent
    later : p.clock w.plant ≤ p.clock v.plant
    reason :
        Returned (λ b. b ≡ true → Confirmed p (reached_window cfg drive_window) target v.plant) r

  abbrev after_status : World S → World S
  after_status w = record w { plant = (p.read_u16 0x6041 0 w.plant).1 }

  is_complete-Tested :
      (target : Option ℤ) (sw : ℕ) (w : World S)
      → (p.read_u16 0x6041 0 w.plant).0 ≡ ok sw
      → Ends
          (Tested target (after_status w))
          (is_complete p aborted cfg drive_window target sw (after_status w))
  unfolding is_complete
  is_complete-Tested none sw w q =
      if-Ends (bit_is_set sw 10) _ _
        (λ b. ends (record {
          same_log = refl;
          later = omega arith;
          reason = λ _. by_flag w.plant sw q b (inl refl);
        }))
        (λ _.
          ends (record { same_log = refl; later = omega arith; reason = λ h. absurd (never h) }))
  is_complete-Tested (some x) sw w q =
      if-Ends (bit_is_set sw 10) _ _
        (λ b.
          if-Ends (leb_ℤ (reached_window cfg drive_window) (pos 0)) _ _
            (λ z. ends (record {
              same_log = refl;
              later = omega arith;
              reason = λ _. by_flag w.plant sw q b (inr z);
            }))
            (λ _.
              reading-Ends p _ _ _
                (λ actual a. ends (record {
                  same_log = refl;
                  later = t.read_i32_later 0x6064 0 (after_status w).plant;
                  reason = λ h. by_position w.plant sw actual x q b a h;
                }))
                (λ _ _. record {
                  same_log = refl;
                  later = t.read_i32_later 0x6064 0 (after_status w).plant;
                  reason = tt;
                })))
        (λ _.
          ends (record { same_log = refl; later = omega arith; reason = λ h. absurd (never h) }))

  quiet_end :
      {target : Option ℤ} {log : List Sent} {e : Error} {v : World S}
      → v.sent ≡ log
      → Listens log
          (λ (_ : Unit {0}) v. Confirmed p (reached_window cfg drive_window) target v.plant)
          (err e)
          v
  quiet_end q = record { same_log = q; found = tt }

  reached-Polls :
      (target : Option ℤ) (log : List Sent) (deadline : ℕ) (w : World S)
      → w.sent ≡ log
      → Ends
          (Polls p log
            (λ _ v. Confirmed p (reached_window cfg drive_window) target v.plant)
            deadline
            cfg.poll_interval
            w)
          (reached_round p aborted cfg drive_window target deadline w)
  unfolding reached_round
  reached-Polls target log deadline w q =
      aborting-Ends aborted motion_aborted _ w
        (now-Ends p _ (
          reading-Ends p _ _ w
            (λ sw a.
              bind-Ends _ (is_complete-Tested target sw w a)
                (λ complete v x.
                  if-Ends complete _ _
                    (λ c. ends (record { same_log = x.same_log ∙ q; found = x.reason c }))
                    (λ _.
                      raising-Ends (bit_is_set sw 3) runtime_error _ v
                        (λ _.
                          if-Ends (leb deadline (p.clock w.plant)) _ _
                            (λ late.
                              reading-Ends p _ _ v
                                (λ _ _.
                                  reading-Ends p _ _ _
                                    (λ _ _.
                                      bind-Ends {Q = λ _ u. u.sent ≡ log} _
                                        (attempt-Ends _ _ (ends (x.same_log ∙ q)))
                                        (λ _ u z. ends (quiet_end z)) (λ _ u z. quiet_end z))
                                    (λ _ _. quiet_end (x.same_log ∙ q)))
                                (λ _ _. quiet_end (x.same_log ∙ q)))
                            (λ early.
                              pause-Polls p t log _ deadline cfg.poll_interval w v (x.same_log ∙ q)
                                (omega (arith, t.read_later 0x6041 0 w.plant, x.later))
                                (ground arith)))
                        (λ _. quiet_end (x.same_log ∙ q))))
                (λ e v x. quiet_end (x.same_log ∙ q)))
            (λ e _. quiet_end q)))
        (λ _. quiet_end q)

  -- Whatever the drive answers, `wait_target_reached` ends if its rounds cover the timeout, and it
  -- sends nothing. It returns only when the drive has confirmed the target: by its flag, and by an
  -- actual position inside of the window where a target and a window are given.
  pub wait_target_reached-Confirmed :
      (n : ℕ) (target : Option ℤ) (timeout : Option ℕ)
      → or_default timeout cfg.move_timeout ≤ n * cfg.poll_interval
      → (w : World S)
      → Ends
          (Listens w.sent (λ _ v. Confirmed p (reached_window cfg drive_window) target v.plant))
          (wait_target_reached p aborted cfg drive_window (suc n) target timeout w)
  unfolding wait_target_reached
  wait_target_reached-Confirmed n target timeout h w =
      polling-Listens p _ cfg.poll_interval (or_default timeout cfg.move_timeout) n
        (reached_round p aborted cfg drive_window target) h w.sent (reached-Polls target w.sent) w
        refl
