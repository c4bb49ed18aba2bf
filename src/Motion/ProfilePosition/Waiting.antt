-- ===== src/Motion/ProfilePosition/Waiting.antt =====
-- The three wait loops of `ProfilePosition`.
use dryve_d.Base.{ℕ, ◌≤◌, ◌≡◌, Bool, not, ◌||◌, Option, some, List, if◌then◌else◌}
use dryve_d.Base.Int.{ℤ, pos, eqb_ℤ}
use dryve_d.Base.Errors.{Error, Result, ok, err, runtime_error, timeout_error}
use dryve_d.Io.{Plant, IsTimely, World, Sent, pure, raise}
use dryve_d.Io.Rules.{Ends, ends, bind-Ends, if-Ends}
use dryve_d.Io.Steps.{reading-Ends, attempt-Ends, raising-Ends}
use dryve_d.Io.Log.{Any}
use dryve_d.Io.Polling.{Polls, tail-Polls}
use dryve_d.Cia402.Bits.{bit_is_set}
use dryve_d.Motion.ProfilePosition.{Config, mode_verdict, mode_round, ack_round}

module _ {S : Type 0} (p : Plant S) (t : IsTimely p) (aborted : S → Bool) (cfg : Config)
    (drive_window : Option ℕ) (log : List Sent) where
  strict-Polls :
      (deadline : ℕ) (e : Error) (w v : World S)
      → v.sent ≡ log
      → Ends
          (Polls p log Any deadline cfg.poll_interval w)
          ((if cfg.verify_mode then raise e else pure (some tt)) v)
  strict-Polls deadline e w v q =
      if-Ends cfg.verify_mode _ _ (λ _. ends (record { same_log = q; found = tt }))
        (λ _. ends (record { same_log = q; found = tt }))

  shown-Polls :
      (deadline : ℕ) (r : Result ℤ) (w v : World S)
      → v.sent ≡ log
      → p.clock w.plant ≤ p.clock v.plant
      → Ends
          (Polls p log Any deadline cfg.poll_interval w)
          (mode_verdict p aborted cfg drive_window deadline r v)
  unfolding mode_verdict
  shown-Polls deadline (err e) w v q l = strict-Polls deadline e w v q
  shown-Polls deadline (ok mode_disp) w v q l =
      if-Ends (eqb_ℤ mode_disp (pos 1)) _ _ (λ _. ends (record { same_log = q; found = tt }))
        (λ _.
          tail-Polls p t log Any deadline cfg.poll_interval _ w v q l
            (strict-Polls deadline timeout_error w v q))

  pub mode-Polls :
      (deadline : ℕ) (w : World S)
      → w.sent ≡ log
      → Ends
          (Polls p log Any deadline cfg.poll_interval w)
          (mode_round p aborted cfg drive_window deadline w)
  unfolding mode_round
  mode-Polls deadline w q =
      bind-Ends {Q = λ r v. (v.sent ≡ log) × (p.clock w.plant ≤ p.clock v.plant)} _
        (attempt-Ends _ w (ends (q, t.read_i8_later 0x6061 0 w.plant)))
        (λ r v x. shown-Polls deadline r w v x.0 x.1)
        (λ e v x. record { same_log = x.0; found = tt })

  pub ack-Polls :
      (deadline : ℕ) (w : World S)
      → w.sent ≡ log
      → Ends
          (Polls p log Any deadline cfg.poll_interval w)
          (ack_round p aborted cfg drive_window deadline w)
  unfolding ack_round
  ack-Polls deadline w q =
      reading-Ends p _ _ w
        (λ sw _.
          if-Ends (bit_is_set sw 12 || not (bit_is_set sw 10)) _ _
            (λ _. ends (record { same_log = q; found = tt }))
            (λ _.
              raising-Ends (bit_is_set sw 3) runtime_error _ _
                (λ _.
                  tail-Polls p t log Any deadline cfg.poll_interval _ w _ q
                    (t.read_later 0x6041 0 w.plant)
                    (reading-Ends p _ _ _
                      (λ _ _.
                        reading-Ends p _ _ _ (λ _ _. ends (record { same_log = q; found = tt }))
                          (λ _ _. record { same_log = q; found = tt }))
                      (λ _ _. record { same_log = q; found = tt })))
                (λ _. record { same_log = q; found = tt })))
        (λ e _. record { same_log = q; found = tt })
