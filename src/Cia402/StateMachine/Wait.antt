-- ===== src/Cia402/StateMachine/Wait.antt =====
-- `_wait_for_states`, and the read of the statusword that it makes.
use dryve_d.Base.{
  ℕ, zero, suc, ◌+◌, ◌*◌, ◌≤◌, ◌≡◌, refl, Bool, true, false, leb, arith, sym, ◌∙◌, subst, ◌%◌, ◌⊎◌,
  inl, inr, Bool-cases,
}
use dryve_d.Base.Errors.{Result, ok, guard, precondition_failed}
use dryve_d.Io.{Plant, IsTimely, World, when}
use dryve_d.Io.Rules.{
  Ends, ends, raise_if-Ends, Returned, now-Ends, sleep-Ends, test-Ends, bind-Ends, weaken-Ends,
}
use dryve_d.Io.Steps.{reading-Ends, raising-Ends}
use dryve_d.Cia402.Bits.{bit_is_set}
use dryve_d.Cia402.Preconditions.{require_remote_enabled}
use dryve_d.Od.Statusword.{Cia402State, infer_cia402_state}
use dryve_d.Cia402.StateMachine.{Config, lift, read_statusword, wait_loop, wait_for_states}

module _ {S : Type 0} (p : Plant S) (cfg : Config) where
  -- Nothing was sent, and the clock did not go back.
  pub record Quiet (w v : World S) : Type 0 where
    pub same_log : v.sent ≡ w.sent
    pub later : p.clock w.plant ≤ p.clock v.plant

  check-Ends :
      (b : Bool) (sw : ℕ) (w : World S)
      → Ends (λ _ v. v ≡ w) (when b (lift (require_remote_enabled sw)) w)
  unfolding when require_remote_enabled
  check-Ends false sw w = ends refl
  check-Ends true sw w =
      elim (bit_is_set sw 9)
        as (λ b. Ends (λ _ v. v ≡ w) (lift {S = S} (guard b precondition_failed) w)) [
          | true ↦ ends refl
          | false ↦ ends refl
        ]

  -- A read of the statusword sends nothing.
  pub read-Quiet : IsTimely p → (w : World S) → Ends (λ _ v. Quiet w v) (read_statusword p cfg w)
  unfolding read_statusword
  read-Quiet t w =
      let later : World S = record { plant = (p.read_u16 0x6041 0 w.plant).1; sent = w.sent } in
      let quiet : Quiet w later = record {
        same_log = refl;
        later = t.read_later 0x6041 0 w.plant;
      } in
      bind-Ends {Q = λ _ v. v ≡ later} _ (ends refl)
        (λ a v q.
          bind-Ends _ (raise_if-Ends _ _ v)
            (λ _ u e.
              bind-Ends _ (check-Ends cfg.require_remote _ u)
                (λ _ u' e'. ends (subst (Quiet w) (sym (e' ∙ e ∙ q)) quiet))
                (λ _ u' e'. subst (Quiet w) (sym (e' ∙ e ∙ q)) quiet))
            (λ _ u e. subst (Quiet w) (sym (e ∙ q)) quiet))
        (λ e v q. subst (Quiet w) (sym q) quiet)

  -- Where the remote bit is required, a word without it is an exception.
  remote-Ends :
      (b : Bool) (sw : ℕ) (w : World S)
      → Ends
          (λ r v. (v.sent ≡ w.sent) × Returned (λ _. (b ≡ false) ⊎ (bit_is_set sw 9 ≡ true)) r)
          (when b (lift (require_remote_enabled sw)) w)
  unfolding when require_remote_enabled
  remote-Ends false sw w = ends (refl, inl refl)
  remote-Ends true sw w = elim (Bool-cases (bit_is_set sw 9)) [
    | inl q ↦ rw (q) (ends (refl, inr refl))
    | inr q ↦ rw (q) (ends (refl, tt))
  ]

  -- The statusword that a read returns is the low word of what the drive answered, with the remote
  -- bit where it is required.
  abbrev pub Word : World S → ℕ → Type 0
  Word w sw =
      (raw : ℕ) × ((p.read_u16 0x6041 0 w.plant).0 ≡ ok raw)
      × (sw ≡ raw % 65536)
      × ((cfg.require_remote ≡ false) ⊎ (bit_is_set sw 9 ≡ true))

  pub read-Word :
      (w : World S)
      → Ends (λ r v. (v.sent ≡ w.sent) × Returned (Word w) r) (read_statusword p cfg w)
  unfolding read_statusword
  read-Word w =
      reading-Ends p _ _ w
        (λ raw q.
          raising-Ends _ _ _ _
            (λ _.
              bind-Ends _ (remote-Ends cfg.require_remote _ _)
                (λ _ u e. ends (e.0, (raw, q, refl, e.1))) (λ _ u e. (e.0, tt)))
            (λ _. (refl, tt)))
        (λ e q. (refl, tt))

  -- The log is kept, and a state that is returned was asked for.
  abbrev pub Waited : (Cia402State → Bool) → World S → Result Cia402State → World S → Type 0
  Waited desired w r v = (v.sent ≡ w.sent) × Returned (λ st. desired st ≡ true) r

  -- One round, when the rounds after it are dealt with.
  round-Ends :
      IsTimely p
      → (n : ℕ) (desired : Cia402State → Bool) (deadline : ℕ) (w : World S)
      → ((v : World S)
          → Quiet w v
          → leb deadline (p.clock w.plant) ≡ false
          → Ends (Waited desired w) (
              wait_loop p cfg n desired deadline
                (record v { plant = p.sleep cfg.poll_interval v.plant })))
      → Ends (Waited desired w) (wait_loop p cfg (suc n) desired deadline w)
  unfolding wait_loop
  round-Ends t n desired deadline w rest = now-Ends p _ (
      bind-Ends _ (read-Quiet t w)
        (λ sw v q.
          test-Ends (desired (infer_cia402_state sw)) _ _ (λ found. ends (q.same_log, found))
            (λ missing.
              test-Ends (leb deadline (p.clock w.plant)) _ _ (λ late. ends (q.same_log, tt))
                (λ early. sleep-Ends p _ _ (rest v q early))))
        (λ e v q. (q.same_log, tt)))

  -- The loop ends if the rounds given cover the time to the deadline.
  wait_loop-Ends :
      IsTimely p
      → (n : ℕ) (desired : Cia402State → Bool) (deadline : ℕ) (w : World S)
      → deadline ≤ p.clock w.plant + n * cfg.poll_interval
      → Ends (Waited desired w) (wait_loop p cfg (suc n) desired deadline w)
  wait_loop-Ends t zero desired deadline w h =
      round-Ends t zero desired deadline w (λ v q early. ground arith)
  wait_loop-Ends t (suc n) desired deadline w h =
      round-Ends t (suc n) desired deadline w λ v q early.
        let enough : deadline
            ≤ p.clock (p.sleep cfg.poll_interval v.plant) + n * cfg.poll_interval =
          omega (arith, t.sleeps cfg.poll_interval v.plant) in
        weaken-Ends (wait_loop-Ends t n desired deadline _ enough)
          (λ r u x. (x.0 ∙ q.same_log, x.1))

  -- `_wait_for_states` ends, whatever the drive answers, if the rounds given cover the timeout. It
  -- sends nothing, and a state that it returns is one that was asked for.
  pub wait_for_states-Ends :
      IsTimely p
      → (n : ℕ) (desired : Cia402State → Bool) (timeout : ℕ) → timeout ≤ n * cfg.poll_interval
      → (w : World S) → Ends (Waited desired w) (wait_for_states p cfg (suc n) desired timeout w)
  unfolding wait_for_states
  wait_for_states-Ends t n desired timeout h w =
      now-Ends p _ (wait_loop-Ends t n desired (p.clock w.plant + timeout) w (omega arith))
