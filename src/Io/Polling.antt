-- ===== src/Io/Polling.antt =====
-- Loops that poll the drive up to a deadline and send nothing meanwhile.
use dryve_d.Base.{
  ℕ, suc, ◌+◌, ◌*◌, ◌≤◌, ◌<◌, ◌≡◌, Option, none, List, [], leb, arith, if◌then◌else◌,
}
use dryve_d.Base.Errors.{Error, Result, ok, err}
use dryve_d.Io.{Plant, IsTimely, World, Action, Sent, pure, ◌>>=◌, ◌>>◌, now, sleep, repeat}
use dryve_d.Io.Rules.{Ends, ends, if-Ends, now-Ends, sleep-Ends, Returned}
use dryve_d.Io.Log.{Sends, returned-Sends, nothing-Sends}
use dryve_d.Io.Steps.{Turn, repeat-Ends}

-- Nothing was sent after `log`, and a value that is returned satisfies `P`.
pub record Listens {S A : Type 0} (log : List Sent) (P : A → World S → Type 0) (r : Result A)
    (v : World S) : Type 0 where
  pub same_log : v.sent ≡ log
  pub found : Returned (λ a. P a v) r

pub Listens-Sends :
    {S A : Type 0} {log : List Sent} {P : A → World S → Type 0} {o : Option (Result A × World S)}
    → Ends (Listens log P) o
    → Ends (Sends [] P log) o
Listens-Sends (ends {r = ok a} q) = ends (returned-Sends q.same_log q.found)
Listens-Sends (ends {r = err e} q) = ends (nothing-Sends q.same_log)

-- One round of such a loop.
abbrev pub Polls :
    {S A : Type 0}
    → Plant S
    → List Sent
    → (A → World S → Type 0)
    → ℕ
    → ℕ
    → World S
    → Result (Option A)
    → World S
    → Type 0
Polls p log P deadline interval = Turn p (λ v. v.sent ≡ log) (Listens log P) deadline interval

module _ {S A : Type 0} (p : Plant S) (t : IsTimely p) (log : List Sent) (P : A → World S → Type 0)
    (deadline interval : ℕ) where
  -- The end of a round: give up after the deadline, or sleep.
  pub pause-Polls :
      (w v : World S)
      → v.sent ≡ log
      → p.clock w.plant ≤ p.clock v.plant
      → p.clock w.plant < deadline
      → Ends (Polls p log P deadline interval w) ((sleep p interval >> pure none) v)
  pause-Polls w v q l b =
      sleep-Ends p interval _ (ends (q, b, omega (arith, t.sleeps interval v.plant)))

  pub tail-Polls :
      (giveup : Action S (Option A)) (w v : World S)
      → v.sent ≡ log
      → p.clock w.plant ≤ p.clock v.plant
      → Ends (Polls p log P deadline interval w) (giveup v)
      → Ends (Polls p log P deadline interval w) (
          (now p >>= λ time. if leb deadline time then giveup else (sleep p interval >> pure none))
            v)
  tail-Polls giveup w v q l g = now-Ends p _ (
      if-Ends (leb deadline (p.clock v.plant)) _ _ (λ late. g)
        (λ early. pause-Polls w v q l (ground arith)))

  pub stop-Polls :
      (w : World S) {v : World S} {e : Error}
      → v.sent ≡ log
      → Polls p log P deadline interval w (err e) v
  stop-Polls w q = record { same_log = q; found = tt }

-- A loop that polls from now on, with rounds for its timeout, ends and has sent nothing.
pub polling-Listens :
    {S A : Type 0} (p : Plant S) (P : A → World S → Type 0) (interval timeout n : ℕ)
    (body : ℕ → Action S (Option A))
    → timeout ≤ n * interval
    → (log : List Sent)
    → ((deadline : ℕ) (w : World S)
        → w.sent ≡ log
        → Ends (Polls p log P deadline interval w) (body deadline w))
    → (w : World S) → w.sent ≡ log
    → Ends (Listens log P) ((now p >>= λ start. repeat (suc n) (body (start + timeout))) w)
polling-Listens p P interval timeout n body h log rounds w q = now-Ends p _ (
    repeat-Ends p (λ v. v.sent ≡ log) (p.clock w.plant + timeout) interval
      (body (p.clock w.plant + timeout)) (rounds (p.clock w.plant + timeout)) n w q (omega arith))
