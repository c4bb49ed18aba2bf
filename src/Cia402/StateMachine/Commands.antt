-- ===== src/Cia402/StateMachine/Commands.antt =====
-- The transitions of `CiA402StateMachine`, and the log of what they send to the drive.
use dryve_d.Base.{
  Option, ◌%◌, some, ℕ, suc, ◌*◌, ◌≤◌, ◌≡◌, refl, Bool, true, false, ◌⊎◌, inl, inr, List, [], ◌∷◌,
  ◌++◌, sym, ap, ◌∙◌, subst, max,
}
use dryve_d.Base.Int.{pos}
use dryve_d.Base.Errors.{Result, ok, err}
use dryve_d.Io.{Plant, IsTimely, World, Action, Sent, pure, sleep, ◌>>=◌, ◌>>◌}
use dryve_d.Io.Rules.{
  Ends, ends, bind-Ends, weaken-Ends, raise_if-Ends, if-Ends, Returned, sleep-Ends, Grows, same,
  more, trans-Grows,
}
use dryve_d.Od.Controlword.{cw_set_bits}
use dryve_d.Od.Statusword.{Cia402State, SwBit, position}
use dryve_d.Cia402.Bits.{bit_is_set}
use dryve_d.Cia402.StateMachine.{
  Config, current_state, write_controlword, wait_for_states, shutdown, switch_on, enable_operation,
  reset_sequence, fault_reset, ensure_hold_bits,
}
use dryve_d.Cia402.StateMachine.Wait.{read-Quiet, read-Word, wait_for_states-Ends}

-- A word written to the controlword object.
abbrev pub command : ℕ → Sent
command word = record { index = 0x6040; value = pos word; subindex = 0 }

-- The controlwords that lead from any state to `Operation enabled`.
pub data Enabling : Sent → Type 0 where
  resets : Enabling (command 0x80)
  shuts_down : Enabling (command 0x06)
  halts : Enabling (command 0x0106)
  switches_on : Enabling (command 0x07)
  enables : Enabling (command 0x0F)

-- The time limits fit in `n` polls.
pub record EnoughRounds (cfg : Config) (n : ℕ) : Type 0 where
  pub step : cfg.step_timeout ≤ n * cfg.poll_interval
  pub reset : cfg.fault_reset_timeout ≤ n * cfg.poll_interval

-- Only such words were sent, and a value that is returned satisfies `P` with the final log.
pub record Run {S A : Type 0} (P : A → List Sent → Type 0) (w : World S) (r : Result A)
    (v : World S) : Type 0 where
  pub grown : Grows Enabling w.sent v.sent
  pub returned : Returned (λ a. P a v.sent) r

abbrev pub Anything : {A : Type 0} → A → List Sent → Type 0
Anything a log = Unit

pub kept : {l m : List Sent} → m ≡ l → Grows Enabling l m
kept q = subst (Grows Enabling _) (sym q) same

pub map-Run :
    {S A : Type 0} {P R : A → List Sent → Type 0} {w : World S} {o : Option (Result A × World S)}
    → ((a : A) (l : List Sent) → P a l → R a l)
    → Ends (Run P w) o
    → Ends (Run R w) o
map-Run f (ends {r = ok a} {v = v} q) =
    ends (record { grown = q.grown; returned = f a v.sent q.returned })
map-Run f (ends {r = err e} q) = ends (record { grown = q.grown; returned = tt })

module _ {S A B : Type 0} {P : A → List Sent → Type 0} {R : B → List Sent → Type 0} where
  pub seq-Run :
      (m : Action S A) {f : A → Action S B} {w : World S}
      → Ends (Run P w) (m w)
      → ((a : A) (v : World S) → P a v.sent → Ends (Run R v) (f a v))
      → Ends (Run R w) ((m >>= f) w)
  seq-Run m h k =
      bind-Ends m h
        (λ a v q.
          weaken-Ends (k a v q.returned)
            (λ r u x. record { grown = trans-Grows q.grown x.grown; returned = x.returned }))
        (λ e v q. record { grown = q.grown; returned = tt })

module _ {S : Type 0} where
  -- A run that starts from the same log.
  pub from :
      {A : Type 0} {P : A → List Sent → Type 0} {w u : World S} {o : Option (Result A × World S)}
      → u.sent ≡ w.sent
      → Ends (Run P u) o
      → Ends (Run P w) o
  from q h =
      weaken-Ends h
        (λ r v x. record { grown = trans-Grows (kept q) x.grown; returned = x.returned })

  pub outcome-Run :
      {P : Unit {0} → List Sent → Type 0} {w v : World S} (r : Result (Unit {0}))
      → Grows Enabling w.sent v.sent
      → P tt v.sent
      → Ends (Run P w) (some (r, v))
  outcome-Run (ok a) g q = ends (record { grown = g; returned = q })
  outcome-Run (err e) g q = ends (record { grown = g; returned = tt })

  pub done-Run :
      {P : Unit {0} → List Sent → Type 0} {w : World S} → P tt w.sent → Ends (Run P w) (pure tt w)
  done-Run q = ends (record { grown = same; returned = q })

module _ {S : Type 0} (p : Plant S) where
  -- Time passes, and nothing is sent.
  pub sleep-Run :
      {P : Unit {0} → List Sent → Type 0} (d : ℕ) (f : Unit {0} → Action S (Unit {0})) {w : World S}
      → Ends
          (Run P (record w { plant = p.sleep d w.plant }))
          (f tt (record w { plant = p.sleep d w.plant }))
      → Ends (Run P w) ((sleep p d >>= f) w)
  sleep-Run d f h =
      sleep-Ends p d f (weaken-Ends h (λ r u x. record { grown = x.grown; returned = x.returned }))

module _ {S : Type 0} (p : Plant S) (cfg : Config) (t : IsTimely p) (n : ℕ)
    (enough : EnoughRounds cfg n) where
  pub write-Run :
      (word : ℕ) (w : World S)
      → Enabling (command (word % 65536))
      → Ends
          (Run (λ _ l. l ≡ w.sent ++ (command (word % 65536) ∷ [])) w)
          (write_controlword p cfg word w)
  write-Run word w e = outcome-Run _ (more same e) refl

  pub state-Run : (w : World S) → Ends (Run Anything w) (current_state p cfg w)
  unfolding current_state
  state-Run w =
      bind-Ends _ (read-Quiet p cfg t w)
        (λ sw v q. ends (record { grown = kept q.same_log; returned = tt }))
        (λ e v q. record { grown = kept q.same_log; returned = tt })

  pub wait-Run :
      (desired : Cia402State → Bool) (timeout : ℕ) (w : World S)
      → timeout ≤ n * cfg.poll_interval
      → Ends
          (Run (λ _ l. l ≡ w.sent) w)
          ((wait_for_states p cfg (suc n) desired timeout >> pure tt) w)
  wait-Run desired timeout w h =
      bind-Ends _ (wait_for_states-Ends p cfg t n desired timeout h w)
        (λ st v q. ends (record { grown = kept q.0; returned = q.0 }))
        (λ e v q. record { grown = kept q.0; returned = tt })

  -- A word, and then a wait.
  transition-Run :
      (word : ℕ) (desired : Cia402State → Bool) (timeout : ℕ) (w : World S)
      → Enabling (command (word % 65536))
      → timeout ≤ n * cfg.poll_interval
      → Ends (Run (λ _ l. l ≡ w.sent ++ (command (word % 65536) ∷ [])) w) (
          (write_controlword p cfg word
              >> (wait_for_states p cfg (suc n) desired timeout >> pure tt))
            w)
  transition-Run word desired timeout w e h =
      seq-Run _ (write-Run word w e)
        (λ _ v q. map-Run (λ _ l x. x ∙ q) (wait-Run desired timeout v h))

  pub shutdown-Run :
      (w : World S)
      → Ends (Run (λ _ l. l ≡ w.sent ++ (command 6 ∷ [])) w) (shutdown p cfg (suc n) w)
  unfolding shutdown
  shutdown-Run w = transition-Run 6 _ cfg.step_timeout w shuts_down enough.step

  pub switch_on-Run :
      (w : World S)
      → Ends (Run (λ _ l. l ≡ w.sent ++ (command 7 ∷ [])) w) (switch_on p cfg (suc n) w)
  unfolding switch_on
  switch_on-Run w = transition-Run 7 _ cfg.step_timeout w switches_on enough.step

  pub enable_operation-Run :
      (w : World S)
      → Ends (Run (λ _ l. l ≡ w.sent ++ (command 15 ∷ [])) w) (enable_operation p cfg (suc n) w)
  unfolding enable_operation ensure_hold_bits
  enable_operation-Run w = transition-Run 15 _ cfg.step_timeout w enables enough.step

  pub reset_sequence-Run :
      (w : World S)
      → Ends
          (Run
            (λ _ l.
              l ≡ ((w.sent ++ (command 0x80 ∷ [])) ++ (command 6 ∷ [])) ++ (command 0x0106 ∷ []))
            w)
          (reset_sequence p cfg (suc n) w)
  unfolding reset_sequence cw_set_bits
  reset_sequence-Run w = seq-Run _ (write-Run 0x80 w resets) λ _ v q.
      let slept : World S = record v { plant = p.sleep (max 100000 cfg.poll_interval) v.plant } in
      sleep-Run p (max 100000 cfg.poll_interval) _ {w = v} (
        seq-Run _ {w = slept} (write-Run 6 slept shuts_down) (λ _ v' q'.
          let log : v'.sent ≡ (w.sent ++ (command 0x80 ∷ [])) ++ (command 6 ∷ []) =
            q' ∙ ap (λ k. k ++ (command 6 ∷ [])) q in
          seq-Run _ (write-Run 0x0106 v' halts) (λ _ v'' q''.
            map-Run (λ _ l x. x ∙ q'' ∙ ap (λ k. k ++ (command 0x0106 ∷ [])) log)
              (wait-Run _ cfg.fault_reset_timeout v'' enough.reset))))

  -- What a fault reset that returns has sent: by the fault bit of the statusword that it reads first.
  abbrev pub Reset : World S → List Sent → Type 0
  Reset w l =
      (raw : ℕ) × ((p.read_u16 0x6041 0 w.plant).0 ≡ ok raw)
      × (((bit_is_set (raw % 65536) 3 ≡ false) × (l ≡ w.sent))
          ⊎ ((bit_is_set (raw % 65536) 3 ≡ true)
              × (l
                  ≡ ((w.sent ++ (command 0x80 ∷ [])) ++ (command 6 ∷ []))
                    ++ (command 0x0106 ∷ []))))

  -- A fault reset ends. If it returns, and the statusword that it read first has no fault bit, it
  -- sent nothing. If it returns and that word has the fault bit, it sent the three words of the
  -- reset, the last of which holds the drive.
  pub fault_reset-Run :
      (w : World S) → Ends (Run (λ _ l. Reset w l) w) (fault_reset p cfg (suc n) w)
  unfolding fault_reset
  fault_reset-Run w =
      bind-Ends _ (read-Word p cfg w)
        (λ sw v q.
          let (log, found) = q in
          let (raw, answer, word, _) = found in
          if-Ends (bit_is_set sw (position SwBit.fault)) _ _
            (λ fault.
              bind-Ends _ (raise_if-Ends _ _ v)
                (λ _ u e.
                  let same_log : u.sent ≡ w.sent = ap (λ x. x.sent) e ∙ log in
                  from same_log (
                    map-Run
                      (λ _ l x. (
                        raw,
                        answer,
                        inr (
                          ap (λ b. bit_is_set b 3) (sym word) ∙ fault,
                          x
                              ∙ ap
                                  (λ k.
                                    ((k ++ (command 0x80 ∷ [])) ++ (command 6 ∷ []))
                                    ++ (command 0x0106 ∷ []))
                                  same_log,
                        ),
                      ))
                      (reset_sequence-Run u)))
                (λ e' u e. record { grown = kept (ap (λ x. x.sent) e ∙ log); returned = tt }))
            (λ healthy. ends (record {
              grown = kept log;
              returned = (raw, answer, inl (ap (λ b. bit_is_set b 3) (sym word) ∙ healthy, log));
            })))
        (λ e v q. record { grown = kept q.0; returned = tt })
