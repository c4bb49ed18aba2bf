-- ===== src/Cia402/Fault/Diagnostics.antt =====
-- `read_fault_info` of the fault manager, and the reads that it makes.
use dryve_d.Base.{
  ℕ, zero, suc, ◌+◌, ◌%◌, ◌≤◌, ◌≡◌, refl, subst, ◌∙◌, min, Bool, true, false, Option, none, some,
  List, [], ◌∷◌, length, arith, if◌then◌else◌,
}
use dryve_d.Base.Errors.{Error, Result, ok, err}
use dryve_d.Io.{read_u16, Plant, World, Action, pure, ◌>>=◌}
use dryve_d.Io.Rules.{Ends, ends, bind-Ends, weaken-Ends, if-Ends, Returned}
use dryve_d.Cia402.Bits.{bit_is_set}
use dryve_d.Cia402.Fault.{
  FaultInfo, best_effort, read_statusword, read_entries, read_error_history, read_error_code,
  read_error_register, read_fault_info, nonempty,
}

abbrev Value : {A : Type 0} → (A → Type 0) → Result A → Type 0
Value P (ok a) = P a
Value P (err e) = ⊥

-- Nothing was sent, no exception was raised, and the value satisfies `P`.
record Harmless {S A : Type 0} (P : A → Type 0) (w : World S) (r : Result A) (v : World S)
    : Type 0 where
  same_log : v.sent ≡ w.sent
  value : Value P r

-- Nothing was sent, and a value that is returned satisfies `P`.
abbrev Quiet : {S A : Type 0} → (A → Type 0) → World S → Result A → World S → Type 0
Quiet P w r v = (v.sent ≡ w.sent) × Returned P r

abbrev Perhaps : {A : Type 0} → (A → Type 0) → Option A → Type 0
Perhaps P none = Unit
Perhaps P (some a) = P a

module _ {S A : Type 0} {P : A → Type 0} where
  attempt :
      {o : Option (Result A × World S)} {w : World S}
      → Ends (Quiet P w) o
      → Ends (Harmless (Perhaps P) w) (elim o [
        | none ↦ none
        | some (ok a, v) ↦ some (ok (some a), v)
        | some (err e, v) ↦ some (ok none, v)
      ])
  attempt (ends {r = ok a} q) = ends (record { same_log = q.0; value = q.1 })
  attempt (ends {r = err e} q) = ends (record { same_log = q.0; value = tt })

  best_effort-Ends :
      (m : Action S A) (w : World S)
      → Ends (Quiet P w) (m w)
      → Ends (Harmless (Perhaps P) w) (best_effort m w)
  unfolding best_effort
  best_effort-Ends m w h = attempt h

  from :
      {o : Option (Result A × World S)} {v w : World S}
      → v.sent ≡ w.sent
      → Ends (Harmless P v) o
      → Ends (Harmless P w) o
  from q h = weaken-Ends h (λ r u x. record { same_log = x.same_log ∙ q; value = x.value })

  to_quiet :
      {o : Option (Result A × World S)} {w : World S} → Ends (Harmless P w) o → Ends (Quiet P w) o
  to_quiet (ends {r = ok a} q) = ends (q.same_log, q.value)
  to_quiet (ends {r = err e} q) = elim q.value [ ]

module _ {S A B : Type 0} {P : A → Type 0} {R : B → Type 0} where
  and_then :
      (m : Action S A) {f : A → Action S B} {w : World S}
      → Ends (Harmless P w) (m w)
      → ((a : A) (v : World S) → P a → Ends (Harmless R v) (f a v))
      → Ends (Harmless R w) ((m >>= f) w)
  and_then m h k =
      bind-Ends m h (λ a v q. from q.same_log (k a v q.value)) (λ e v q. elim q.value [ ])

abbrev Anything : {A : Type 0} → A → Type 0
Anything a = Unit

whatever : {A : Type 0} (r : Result A) → Returned Anything r
whatever (ok a) = tt
whatever (err e) = tt

-- The history has between one and eight entries, if there is one.
abbrev pub IsHistory : Option (List ℕ) → Type 0
IsHistory none = Unit
IsHistory (some l) = (1 ≤ length l) × (length l ≤ 8)

-- From what the read of the statusword gave: its exception, or the word and its diagnostics.
pub data Diagnosed : Result ℕ → Result FaultInfo → Type 0 where
  unreadable : {e : Error} → Diagnosed (err e) (err e)
  shown :
      {sw : ℕ} {info : FaultInfo}
      → info.statusword ≡ sw % 65536
      → IsHistory info.history
      → Diagnosed (ok sw) (ok info)

nonempty-IsHistory : (l : Option (List ℕ)) → Perhaps (λ h. length h ≤ 8) l → IsHistory (nonempty l)
nonempty-IsHistory none h = tt
nonempty-IsHistory (some []) h = tt
nonempty-IsHistory (some (x ∷ l)) h = (omega arith, h)

map-Value :
    {A : Type 0} {P R : A → Type 0} → ((a : A) → P a → R a) → (r : Result A) → Value P r → Value R r
map-Value f (ok a) q = f a q
map-Value f (err e) q = elim q [ ]

-- What `read_statusword` makes of the word it was given.
data Masked : Result ℕ → Result ℕ → Type 0 where
  refused : {e : Error} → Masked (err e) (err e)
  masked : {sw : ℕ} → Masked (ok sw) (ok (sw % 65536))

diagnose :
    {raw : Result ℕ} {sw : ℕ}
    → Masked raw (ok sw)
    → (r : Result FaultInfo)
    → Value (λ (i : FaultInfo). (i.statusword ≡ sw) × IsHistory i.history) r
    → Diagnosed raw r
diagnose masked (ok info) q = shown q.0 q.1
diagnose masked (err e) q = elim q [ ]

undiagnosed : {raw : Result ℕ} {e : Error} → Masked raw (err e) → Diagnosed raw (err e)
undiagnosed refused = unreadable

module _ {S : Type 0} (p : Plant S) where
  read-Quiet : (index si : ℕ) (w : World S) → Ends (Quiet Anything w) (read_u16 p index si w)
  read-Quiet index si w = ends (refl, whatever _)

  map-Quiet :
      (f : ℕ → ℕ) (index si : ℕ) (w : World S)
      → Ends (Quiet Anything w) ((read_u16 p index si >>= λ x. pure (f x)) w)
  map-Quiet f index si w =
      bind-Ends _ (read-Quiet index si w) (λ a v q. ends (q.0, tt)) (λ e v q. (q.0, tt))

  read_entries-Harmless :
      (count si : ℕ) (w : World S)
      → Ends (Harmless (λ l. length l ≤ count) w) (read_entries p count si w)
  unfolding read_entries
  read_entries-Harmless zero si w = ends (record { same_log = refl; value = omega arith })
  read_entries-Harmless (suc count) si w =
      and_then _ (best_effort-Ends _ w (read-Quiet 0x1003 si w)) (elim [
        | none ↦ λ v x. ends (record { same_log = refl; value = omega arith })
        | some code ↦ λ v x.
            and_then _ (read_entries-Harmless count (si + 1) v)
              (λ hist u h. ends (record { same_log = refl; value = omega arith }))
      ])

  read_error_history-Harmless :
      (max_entries : ℕ) (w : World S)
      → Ends (Harmless (λ l. length l ≤ max_entries) w) (read_error_history p max_entries w)
  unfolding read_error_history
  read_error_history-Harmless max_entries w =
      and_then _ (best_effort-Ends _ w (read-Quiet 0x1003 0 w)) (elim [
        | none ↦ λ v x. ends (record { same_log = refl; value = omega arith })
        | some code ↦ λ v x.
            weaken-Ends (read_entries-Harmless (min (code % 256) max_entries) 1 v) (λ r u h.
              record { same_log = h.same_log; value = map-Value (λ l q. omega arith) r h.value })
      ])

  statusword-Masked :
      (w : World S)
      → Ends
          (λ r v. (v.sent ≡ w.sent) × Masked (p.read_u16 0x6041 0 w.plant).0 r)
          (read_statusword p w)
  unfolding read_statusword
  statusword-Masked w =
      bind-Ends {Q = λ r v. (v.sent ≡ w.sent) × (r ≡ (p.read_u16 0x6041 0 w.plant).0)} _
        (ends (refl, refl)) (λ a v q. ends (q.0, subst (λ x. Masked x (ok (a % 65536))) q.1 masked))
        (λ e v q. (q.0, subst (λ x. Masked x (err e)) q.1 refused))

  history-Harmless :
      (include_history : Bool) (w : World S)
      → Ends
          (Quiet (λ l. length l ≤ 8) w)
          ((if include_history then read_error_history p 8 else pure []) w)
  history-Harmless true w = to_quiet (read_error_history-Harmless 8 w)
  history-Harmless false w = ends (refl, omega arith)

  details-Harmless :
      (include_history : Bool) (sw : ℕ) (w : World S)
      → Ends (Harmless (λ (i : FaultInfo). (i.statusword ≡ sw) × IsHistory i.history) w) (
          (best_effort (read_error_code p) >>= λ ec. best_effort (read_error_register p) >>= λ er.
          best_effort (if include_history then read_error_history p 8 else pure []) >>= λ hist.
          pure (record {
            statusword = sw;
            error_code = ec;
            error_register = er;
            history = nonempty hist;
          }))
            w)
  unfolding read_error_code read_error_register
  details-Harmless include_history sw w =
      and_then _ (best_effort-Ends _ w (map-Quiet _ 0x603F 0 w)) (λ ec v _.
        and_then _ (best_effort-Ends _ v (map-Quiet _ 0x1001 0 v)) (λ er u _.
          and_then _ (best_effort-Ends _ u (history-Harmless include_history u)) (λ hist x h.
            ends (record { same_log = refl; value = (refl, nonempty-IsHistory hist h) }))))

  -- `read_fault_info` ends and sends nothing. It raises only what the read of the statusword
  -- raised; else it returns that word, with a history that is missing or of one to eight entries.
  pub read_fault_info-Diagnosed :
      (include_history : Bool) (w : World S)
      → Ends
          (λ r v. (v.sent ≡ w.sent) × Diagnosed (p.read_u16 0x6041 0 w.plant).0 r)
          (read_fault_info p include_history w)
  unfolding read_fault_info
  read_fault_info-Diagnosed include_history w =
      bind-Ends _ (statusword-Masked w)
        (λ sw v q.
          if-Ends (bit_is_set sw 3) _ _
            (λ fault.
              weaken-Ends (details-Harmless include_history sw v)
                (λ r u h. (h.same_log ∙ q.0, diagnose q.1 r h.value)))
            (λ healthy. ends (q.0, diagnose q.1 _ (refl, tt))))
        (λ e v q. (q.0, undiagnosed q.1))
