-- ===== src/Cia402/Fault/Reset.antt =====
-- `reset_fault` of the fault manager.
use dryve_d.Base.{
  ℕ, zero, suc, ◌+◌, ◌*◌, ◌≤◌, ◌≡◌, refl, false, ◌⊎◌, inl, inr, List, [], ◌∷◌, ◌++◌, ap, ◌∙◌, leb,
  arith,
}
use dryve_d.Base.Errors.{Result, ok, err}
use dryve_d.Io.{Plant, IsTimely, World, Sent}
use dryve_d.Io.Rules.{
  Ends, ends, bind-Ends, weaken-Ends, if-Ends, test-Ends, now-Ends, sleep-Ends, more, same, Grows,
}
use dryve_d.Od.Controlword.{cw_set_bits}
use dryve_d.Cia402.Bits.{bit_is_set}
use dryve_d.Cia402.Preconditions.{require_remote_enabled}
use dryve_d.Cia402.StateMachine.{lift}
use dryve_d.Cia402.StateMachine.Commands.{
  command, Enabling, resets, shuts_down, halts, Run, map-Run, seq-Run, outcome-Run, sleep-Run, kept,
  from,
}
use dryve_d.Cia402.Fault.{read_statusword, reset_loop, reset_words, reset_fault}

log_is :
    {S : Type 0} {m : List Sent} {w v : World S} (r : Result (Unit {0}))
    → Grows Enabling w.sent v.sent
    → v.sent ≡ m
    → Run (λ _ l. l ≡ m) w r v
log_is (ok a) g q = record { grown = g; returned = q }
log_is (err e) g q = record { grown = g; returned = tt }

module _ {S : Type 0} (p : Plant S) (t : IsTimely p) where
  read-Ends :
      (w : World S)
      → Ends (λ _ v. (v.sent ≡ w.sent) × (p.clock w.plant ≤ p.clock v.plant)) (read_statusword p w)
  unfolding read_statusword
  read-Ends w =
      bind-Ends {Q = λ _ v. (v.sent ≡ w.sent) × (p.clock w.plant ≤ p.clock v.plant)} _
        (ends (refl, t.read_later 0x6041 0 w.plant)) (λ a v q. ends q) (λ e v q. q)

  -- One round of the loop, when the rounds after it are dealt with.
  round-Ends :
      (n poll deadline : ℕ) (w : World S)
      → ((v : World S)
          → v.sent ≡ w.sent
          → p.clock w.plant ≤ p.clock v.plant
          → leb deadline (p.clock v.plant) ≡ false
          → Ends
              (λ _ u. u.sent ≡ w.sent)
              (reset_loop p n poll deadline (record v { plant = p.sleep poll v.plant })))
      → Ends (λ _ v. v.sent ≡ w.sent) (reset_loop p (suc n) poll deadline w)
  unfolding reset_loop
  round-Ends n poll deadline w rest =
      bind-Ends _ (read-Ends w)
        (λ sw v q.
          test-Ends (bit_is_set sw 3) _ _
            (λ fault. now-Ends p _ (
              test-Ends (leb deadline (p.clock v.plant)) _ _ (λ late. ends q.0)
                (λ early. sleep-Ends p _ _ (rest v q.0 q.1 early))))
            (λ healthy. ends q.0))
        (λ e v q. q.0)

  reset_loop-Ends :
      (n poll deadline : ℕ) (w : World S)
      → deadline ≤ p.clock w.plant + n * poll
      → Ends (λ _ v. v.sent ≡ w.sent) (reset_loop p (suc n) poll deadline w)
  reset_loop-Ends zero poll deadline w h =
      round-Ends zero poll deadline w (λ v q c early. ground arith)
  reset_loop-Ends (suc n) poll deadline w h = round-Ends (suc n) poll deadline w λ v q c early.
      let enough : deadline ≤ p.clock (p.sleep poll v.plant) + n * poll =
        omega (arith, t.sleeps poll v.plant) in
      weaken-Ends (reset_loop-Ends n poll deadline _ enough) (λ r u x. x ∙ q)

  lift-Ends : {A : Type 0} (r : Result A) (w : World S) → Ends (λ _ v. v ≡ w) (lift r w)
  lift-Ends (ok a) w = ends refl
  lift-Ends (err e) w = ends refl

  -- The words of the sequence, then the loop.
  words-Run :
      (n poll timeout : ℕ)
      → timeout ≤ n * poll
      → (w : World S)
      → Ends
          (Run
            (λ _ l.
              l ≡ ((w.sent ++ (command 0x80 ∷ [])) ++ (command 6 ∷ [])) ++ (command 0x0106 ∷ []))
            w)
          (reset_words p (suc n) timeout poll w)
  unfolding reset_words cw_set_bits
  words-Run n poll timeout h w =
      seq-Run {P = λ _ l. l ≡ w.sent ++ (command 0x80 ∷ [])} _
        (outcome-Run _ (more same resets) refl)
        λ _ v q.
          let slept : World S = record v { plant = p.sleep poll v.plant } in
          sleep-Run p poll _ {w = v} (
            seq-Run {P = λ _ l. l ≡ v.sent ++ (command 6 ∷ [])} _ {w = slept}
              (outcome-Run _ (more same shuts_down) refl)
              (λ _ v' q'.
                seq-Run {P = λ _ l. l ≡ v'.sent ++ (command 0x0106 ∷ [])} _
                  (outcome-Run _ (more same halts) refl)
                  (λ _ u q''. now-Ends p _ (
                    weaken-Ends (reset_loop-Ends n poll (p.clock u.plant + timeout) u (omega arith))
                      (λ r x y. log_is r (kept y) (
                        y
                        ∙ q''
                        ∙ ap (λ k. k ++ (command 0x0106 ∷ []))
                            (q' ∙ ap (λ k. k ++ (command 6 ∷ [])) q)))))))

  -- With rounds for the timeout, `reset_fault` ends. If it returns, it sent nothing, or the reset,
  -- the shutdown and the halted shutdown, in this order.
  pub reset_fault-Run :
      (n poll timeout : ℕ)
      → timeout ≤ n * poll
      → (w : World S)
      → Ends
          (Run
            (λ _ l.
              (l ≡ w.sent)
              ⊎ (l
                  ≡ ((w.sent ++ (command 0x80 ∷ [])) ++ (command 6 ∷ [])) ++ (command 0x0106 ∷ [])))
            w)
          (reset_fault p (suc n) timeout poll w)
  unfolding reset_fault
  reset_fault-Run n poll timeout h w =
      bind-Ends _ (read-Ends w)
        (λ sw v q.
          if-Ends (bit_is_set sw 3) _ _
            (λ fault.
              bind-Ends _ (lift-Ends (require_remote_enabled sw) v)
                (λ _ u e.
                  let log : u.sent ≡ w.sent = ap (λ x. x.sent) e ∙ q.0 in
                  from log (
                    map-Run
                      (λ _ l x. inr (
                        x
                        ∙ ap
                            (λ k.
                              ((k ++ (command 0x80 ∷ [])) ++ (command 6 ∷ []))
                              ++ (command 0x0106 ∷ []))
                            log))
                      (words-Run n poll timeout h u)))
                (λ e' u e. record { grown = kept (ap (λ x. x.sent) e ∙ q.0); returned = tt }))
            (λ healthy. ends (record { grown = kept q.0; returned = inl q.0 })))
        (λ e v q. record { grown = kept q.0; returned = tt })
