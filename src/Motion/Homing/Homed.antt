-- ===== src/Motion/Homing/Homed.antt =====
-- `run`: what homing sends, and what its result says of the statusword.
use dryve_d.Base.{
  ℕ, suc, ◌*◌, ◌≤◌, ◌%◌, ◌≡◌, refl, Bool, true, false, not, ◌||◌, Option, none, some, List, [], ◌∷◌,
  ◌++◌, if◌then◌else◌,
}
use dryve_d.Base.Int.{ℤ, pos, low_byte}
use dryve_d.Base.Errors.{ok, motion_aborted}
use dryve_d.Io.{Plant, IsTimely, World, Action, Sent, pure, when}
use dryve_d.Io.Rules.{Ends, ends, if-Ends}
use dryve_d.Io.Steps.{reading-Ends}
use dryve_d.Io.Log.{Sends, Any, seq-Sends, write-Sends, read-Sends, sleep-Sends, returned-Sends}
use dryve_d.Io.Polling.{Listens-Sends, Polls, tail-Polls, polling-Listens}
use dryve_d.Cia402.Bits.{bit_is_set}
use dryve_d.Motion.{or_default}
use dryve_d.Motion.Rules.{
  aborting-Ends, given, given-Sends, pulse_log, pulse_start-Sends, mode_shown-Sends,
}
use dryve_d.Motion.Homing.{
  Config, HomingResult, ensure_mode, configure, start, done_round, wait_done, run,
}

-- The result is what one statusword says, which was the last thing read and has bit 12 or bit 13.
pub data Homed {S : Type 0} (p : Plant S) (result : HomingResult) : S → Type 0 where
  seen :
      (s : S) (sw : ℕ)
      → (p.read_u16 0x6041 0 s).0 ≡ ok sw
      → result
        ≡ record { attained = bit_is_set sw 12; error = bit_is_set sw 13; statusword = sw % 65536 }
      → result.attained || result.error ≡ true
      → Homed p result (p.read_u16 0x6041 0 s).1

-- The time limits of a configuration fit in `n` polls.
pub record EnoughRounds (cfg : Config) (timeout : Option ℕ) (n : ℕ) : Type 0 where
  pub mode : cfg.mode_set_timeout ≤ n * cfg.poll_interval
  pub done : or_default timeout cfg.timeout ≤ n * cfg.poll_interval

-- The writes of homing: the mode, the parameters that are configured, and the start.
abbrev pub homing_log : Config → List Sent
homing_log cfg =
    record { index = 0x6060; value = pos 6; subindex = 0 }
    ∷ ((given 0x6098 0 (if cfg.skip_method_write then none else some (pos (low_byte cfg.method)))
          ++ (given 0x6099 1 cfg.speed_search
              ++ (given 0x6099 2 cfg.speed_switch ++ given 0x609A 0 cfg.acceleration)))
        ++ pulse_log)

module _ {S : Type 0} (p : Plant S) (t : IsTimely p) (aborted : S → Bool) (cfg : Config) where
  ensure_mode-Sends :
      (n : ℕ)
      → cfg.mode_set_timeout ≤ n * cfg.poll_interval
      → (w : World S)
      → Ends
          (Sends (record { index = 0x6060; value = pos 6; subindex = 0 } ∷ []) Any w.sent)
          (ensure_mode p aborted cfg (suc n) w)
  unfolding ensure_mode
  ensure_mode-Sends n h w = seq-Sends (_ ∷ []) [] _ (write-Sends p p.write_u8 _ _ _ w) λ _ v _.
      if-Ends (not cfg.verify_mode) _ _ (λ _. ends (returned-Sends refl tt))
        (λ _. mode_shown-Sends p t cfg.poll_interval n cfg.mode_set_timeout (pos 6) h v)

  method-Sends :
      (x : ℤ) (skip : Bool) (w : World S)
      → Ends
          (Sends (given 0x6098 0 (if skip then none else some x)) Any w.sent)
          (when (not skip) (dryve_d.Io.write_u8 p 0x6098 x 0) w)
  unfolding when
  method-Sends x true w = ends (returned-Sends refl tt)
  method-Sends x false w = write-Sends p p.write_u8 _ _ _ w

  configure-Sends :
      (w : World S)
      → Ends
          (Sends
            (given 0x6098 0
                (if cfg.skip_method_write then none else some (pos (low_byte cfg.method)))
              ++ (given 0x6099 1 cfg.speed_search
                  ++ (given 0x6099 2 cfg.speed_switch ++ given 0x609A 0 cfg.acceleration)))
            Any
            w.sent)
          (configure p aborted cfg none none none none w)
  unfolding configure
  configure-Sends w = seq-Sends _ _ _ (method-Sends _ cfg.skip_method_write w) λ _ v₁ _.
      seq-Sends _ _ _ (given-Sends p p.write_u32 _ _ _ v₁) λ _ v₂ _.
        seq-Sends _ _ _ (given-Sends p p.write_u32 _ _ _ v₂)
          λ _ v₃ _. given-Sends p p.write_u32 _ _ _ v₃

  start-Sends : (w : World S) → Ends (Sends pulse_log Any w.sent) (start p aborted cfg w)
  unfolding start
  start-Sends w =
      seq-Sends [] pulse_log _ (read-Sends p (p.read_u16 0x6041 0) w)
        λ _ v _. seq-Sends [] pulse_log _ (sleep-Sends p _ v) λ _ u _. pulse_start-Sends p u

  done-Polls :
      (log : List Sent) (deadline : ℕ) (w : World S)
      → w.sent ≡ log
      → Ends
          (Polls p log (λ result v. Homed p result v.plant) deadline cfg.poll_interval w)
          (done_round p aborted cfg deadline w)
  unfolding done_round
  done-Polls log deadline w q =
      aborting-Ends aborted motion_aborted _ w
        (reading-Ends p _ _ w
          (λ sw r.
            if-Ends (bit_is_set sw 12 || bit_is_set sw 13) _ _
              (λ b. ends (record { same_log = q; found = seen w.plant sw r refl b }))
              (λ _.
                tail-Polls p t log _ deadline cfg.poll_interval _ w _ q
                  (t.read_later 0x6041 0 w.plant) (ends (record { same_log = q; found = tt }))))
          (λ e _. record { same_log = q; found = tt }))
        (λ _. record { same_log = q; found = tt })

  wait_done-Sends :
      (n : ℕ) (timeout : Option ℕ)
      → or_default timeout cfg.timeout ≤ n * cfg.poll_interval
      → (w : World S)
      → Ends
          (Sends [] (λ result v. Homed p result v.plant) w.sent)
          (wait_done p aborted cfg (suc n) timeout w)
  unfolding wait_done
  wait_done-Sends n timeout h w = Listens-Sends (
      polling-Listens p (λ result v. Homed p result v.plant) cfg.poll_interval _ n
        (done_round p aborted cfg) h w.sent (done-Polls w.sent) w refl)

  -- Whatever the drive answers, homing ends if its rounds cover the timeouts. It sends the mode,
  -- the parameters that are configured, and the start bit set and released: a first part of these
  -- if it raises, and all of them if it returns. The result it returns is then what the last
  -- statusword that was read says of homing attained and homing error, and one of them is set.
  pub run-Homed :
      (timeout : Option ℕ) (n : ℕ)
      → EnoughRounds cfg timeout n
      → (w : World S)
      → Ends
          (Sends (homing_log cfg) (λ result v. Homed p result v.plant) w.sent)
          (run p aborted cfg (suc n) timeout w)
  unfolding run
  run-Homed timeout n enough w = seq-Sends _ _ _ (ensure_mode-Sends n enough.mode w) λ _ v₁ _.
      seq-Sends _ _ _ (configure-Sends v₁) λ _ v₂ _.
        seq-Sends pulse_log [] _ (start-Sends v₂) λ _ v₃ _. wait_done-Sends n timeout enough.done v₃
