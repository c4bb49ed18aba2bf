-- ===== src/Io/Log.antt =====
-- Coroutines that send a list of writes, one after the other: an exception cuts the list short.
use dryve_d.Base.{
  Bool, true, false, ℕ, ◌≡◌, refl, sym, ap, ◌∙◌, some, List, [], ◌∷◌, ◌++◌, append-nil,
  append_assoc,
}
use dryve_d.Base.Int.{ℤ}
use dryve_d.Base.Errors.{Error, Result, ok, err}
use dryve_d.Io.{Plant, reading, writing, sleep, World, Action, Sent, raise_if, ◌>>=◌}
use dryve_d.Io.Rules.{Ends, ends, bind-Ends, weaken-Ends}

-- A value with `P` comes after the whole list was sent, and an exception after a part of it.
pub data Sends {S A : Type 0} (l : List Sent) (P : A → World S → Type 0) (before : List Sent)
    : Result A → World S → Type 0 where
  all_sent : {a : A} {v : World S} → v.sent ≡ before ++ l → P a v → Sends l P before (ok a) v
  cut_short :
      {e : Error} {v : World S} (first rest : List Sent)
      → first ++ rest ≡ l
      → v.sent ≡ before ++ first
      → Sends l P before (err e) v

-- Of a value about which nothing is claimed.
abbrev pub Any : {S A : Type 0} → A → World S → Type 0
Any a v = Unit

nothing : {before log : List Sent} → log ≡ before → log ≡ before ++ []
nothing {before = before} q = q ∙ sym (append-nil before)

module _ {S B : Type 0} {R : B → World S → Type 0} where
  -- What is sent after a list that was sent.
  pub later :
      (before l k : List Sent) {log : List Sent} {r : Result B} {u : World S}
      → log ≡ before ++ l
      → Sends k R log r u
      → Sends (l ++ k) R before r u
  later before l k q (all_sent x y) = all_sent (x ∙ ap (λ s. s ++ k) q ∙ append_assoc before l k) y
  later before l k q (cut_short first rest x y) =
      cut_short (l ++ first) rest (append_assoc l first rest ∙ ap (λ s. l ++ s) x)
        (y ∙ ap (λ s. s ++ first) q ∙ append_assoc before l first)

  pub kept-Sends :
      {before log : List Sent} {r : Result B} {u : World S} (l : List Sent)
      → log ≡ before
      → Sends l R log r u
      → Sends l R before r u
  kept-Sends {before = before} l q (all_sent x y) = all_sent (x ∙ ap (λ s. s ++ l) q) y
  kept-Sends l q (cut_short first rest x y) = cut_short first rest x (y ∙ ap (λ s. s ++ first) q)

  pub nothing-Sends :
      {l before : List Sent} {e : Error} {v : World S}
      → v.sent ≡ before
      → Sends l R before (err e) v
  nothing-Sends {l = l} q = cut_short [] l refl (nothing q)

  pub returned-Sends :
      {before : List Sent} {a : B} {v : World S}
      → v.sent ≡ before
      → R a v
      → Sends [] R before (ok a) v
  returned-Sends q x = all_sent (nothing q) x

-- What holds of a value that is returned.
pub value-Sends :
    {S A : Type 0} {P : A → World S → Type 0} {l before : List Sent} {a : A} {v : World S}
    → Sends l P before (ok a) v
    → P a v
value-Sends (all_sent q x) = x

pub sent-Sends :
    {S A : Type 0} {P : A → World S → Type 0} {l before : List Sent} {a : A} {v : World S}
    → Sends l P before (ok a) v
    → v.sent ≡ before ++ l
sent-Sends (all_sent q x) = q

-- The same was sent, in another world.
pub whole :
    {S T A B : Type 0} {P : A → World S → Type 0} {R : B → World T → Type 0} {l before : List Sent}
    {a : A} {b : B} {v : World S} (u : World T)
    → u.sent ≡ v.sent
    → (P a v → R b u)
    → Sends l P before (ok a) v
    → Sends l R before (ok b) u
whole u q f (all_sent x y) = all_sent (q ∙ x) (f y)

pub part :
    {S T A B : Type 0} {P : A → World S → Type 0} {R : B → World T → Type 0} {l before : List Sent}
    {e : Error} {v : World S} (u : World T)
    → u.sent ≡ v.sent
    → Sends l P before (err e) v
    → Sends l R before (err e) u
part u q (cut_short first rest x y) = cut_short first rest x (q ∙ y)

module _ {S A B : Type 0} {P : A → World S → Type 0} {R : B → World S → Type 0}
    (l k : List Sent) where
  onward :
      {f : A → Action S B} {before : List Sent}
      → ((a : A) (v : World S) → P a v → Ends (Sends k R v.sent) (f a v))
      → (a : A) (v : World S) → Sends l P before (ok a) v
      → Ends (Sends (l ++ k) R before) (f a v)
  onward {before = before} h a v (all_sent x y) =
      weaken-Ends (h a v y) (λ r u s. later before l k x s)

  stopped :
      {before : List Sent} (e : Error) (v : World S)
      → Sends l P before (err e) v
      → Sends (l ++ k) R before (err e) v
  stopped e v (cut_short first rest x y) =
      cut_short first (rest ++ k) (sym (append_assoc first rest k) ∙ ap (λ s. s ++ k) x) y

  -- One coroutine after the other sends one list after the other.
  pub seq-Sends :
      (m : Action S A) {f : A → Action S B} {before : List Sent} {w : World S}
      → Ends (Sends l P before) (m w)
      → ((a : A) (v : World S) → P a v → Ends (Sends k R v.sent) (f a v))
      → Ends (Sends (l ++ k) R before) ((m >>= f) w)
  seq-Sends m h n = bind-Ends m h (onward n) stopped

module _ {S : Type 0} (p : Plant S) where
  -- One write, one read, and a pause.
  pub write-Sends :
      (g : ℕ → ℤ → ℕ → S → Result (Unit {0}) × S) (i : ℕ) (x : ℤ) (sub : ℕ) (w : World S)
      → Ends
          (Sends (record { index = i; value = x; subindex = sub } ∷ []) Any w.sent)
          (writing p g i x sub w)
  write-Sends g i x sub w = written_outcome (g i x sub w.plant).0
    where
      written_outcome :
          (r : Result (Unit {0}))
          → Ends (Sends (record { index = i; value = x; subindex = sub } ∷ []) Any w.sent) (
              some (
                r,
                record {
                  plant = (g i x sub w.plant).1;
                  sent = w.sent ++ (record { index = i; value = x; subindex = sub } ∷ []);
                },
              ))
      written_outcome (ok a) = ends (all_sent refl tt)
      written_outcome (err e) = ends (cut_short _ [] (append-nil _) refl)

  pub read-Sends :
      {A : Type 0} (g : S → Result A × S) (w : World S) → Ends (Sends [] Any w.sent) (reading p g w)
  read-Sends g w = read_outcome (g w.plant).0
    where
      read_outcome :
          {A : Type 0} (r : Result A)
          → Ends (Sends [] Any w.sent) (some (r, record w { plant = (g w.plant).1 }))
      read_outcome (ok a) = ends (returned-Sends refl tt)
      read_outcome (err e) = ends (nothing-Sends refl)

  pub sleep-Sends : (d : ℕ) (w : World S) → Ends (Sends [] Any w.sent) (sleep p d w)
  sleep-Sends d w = ends (returned-Sends refl tt)

-- A check that only raises.
pub raise_if-Sends :
    {S : Type 0} {P : Unit {0} → World S → Type 0} (b : Bool) (e : Error) (w : World S)
    → (b ≡ false → P tt w)
    → Ends (Sends [] P w.sent) (raise_if b e w)
unfolding raise_if
raise_if-Sends true e w h = ends (nothing-Sends refl)
raise_if-Sends false e w h = ends (returned-Sends refl (h refl))
