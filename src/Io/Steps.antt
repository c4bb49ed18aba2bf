-- ===== src/Io/Steps.antt =====
-- Rules for the single accesses of a coroutine, and for its loops.
use dryve_d.Base.{
  Bool, true, false, ℕ, zero, suc, ◌+◌, ◌*◌, ◌≤◌, ◌<◌, ◌≡◌, refl, Option, none, some, [], ◌∷◌, ◌++◌,
  arith,
}
use dryve_d.Base.Int.{ℤ}
use dryve_d.Base.Errors.{Error, Result, ok, err}
use dryve_d.Io.{
  Plant, World, Action, Sent, pure, raise_if, ◌>>=◌, reading, writing, attempt, finally, repeat,
}
use dryve_d.Io.Rules.{Ends, ends, bind-Ends}

module _ {S : Type 0} (p : Plant S) where
  -- The world after an access that changed the plant, and after a write.
  abbrev pub moved : World S → S → World S
  moved w s = record w { plant = s }

  abbrev pub written : World S → Sent → S → World S
  written w x s = record { plant = s; sent = w.sent ++ (x ∷ []) }

  module _ {A B : Type 0} {R : Result B → World S → Type 0} where
    from_result :
        (r : Result A) (v : World S) (f : A → Action S B)
        → ((a : A) → r ≡ ok a → Ends R (f a v))
        → ((e : Error) → r ≡ err e → R (err e) v)
        → Ends R (
            (elim r as (λ _. World S → Option (Result B × World S)) [
              | ok a ↦ λ u. f a u
              | err e ↦ λ u. some (err e, u)
            ])
              v)
    from_result (ok a) v f h k = h a refl
    from_result (err e) v f h k = ends (k e refl)

    pub reading-Ends :
        (g : S → Result A × S) (f : A → Action S B) (w : World S)
        → ((a : A) → (g w.plant).0 ≡ ok a → Ends R (f a (moved w (g w.plant).1)))
        → ((e : Error) → (g w.plant).0 ≡ err e → R (err e) (moved w (g w.plant).1))
        → Ends R ((reading p g >>= f) w)
    unfolding ◌>>=◌
    reading-Ends g f w h k = from_result (g w.plant).0 (moved w (g w.plant).1) f h k

  module _ {B : Type 0} {R : Result B → World S → Type 0} where
    pub writing-Ends :
        (g : ℕ → ℤ → ℕ → S → Result (Unit {0}) × S) (i : ℕ) (x : ℤ) (sub : ℕ)
        (f : Unit {0} → Action S B) (w : World S)
        → (let v =
              written w (record { index = i; value = x; subindex = sub }) (g i x sub w.plant).1 in
            ((g i x sub w.plant).0 ≡ ok tt → Ends R (f tt v))
            × ((e : Error) → (g i x sub w.plant).0 ≡ err e → R (err e) v))
        → Ends R ((writing p g i x sub >>= f) w)
    unfolding ◌>>=◌
    writing-Ends g i x sub f w h =
        from_result (g i x sub w.plant).0
          (written w (record { index = i; value = x; subindex = sub }) (g i x sub w.plant).1) f
          (λ a. h.0) h.1

-- `if condition: raise e`, and what follows it.
pub raising-Ends :
    {S B : Type 0} {R : Result B → World S → Type 0} (b : Bool) (e : Error)
    (f : Unit {0} → Action S B) (w : World S)
    → (b ≡ false → Ends R (f tt w))
    → (b ≡ true → R (err e) w)
    → Ends R ((raise_if b e >>= f) w)
unfolding ◌>>=◌ raise_if
raising-Ends true e f w h k = ends (k refl)
raising-Ends false e f w h k = h refl

module _ {S A : Type 0} where
  outcome-Ends :
      {Q : Result (Result A) → World S → Type 0} {o : Option (Result A × World S)}
      → Ends (λ r v. Q (ok r) v) o
      → Ends Q (elim o as (λ _. Option (Result (Result A) × World S)) [
        | none ↦ none
        | some (r, v) ↦ some (ok r, v)
      ])
  outcome-Ends (ends q) = ends q

  pub attempt-Ends :
      {Q : Result (Result A) → World S → Type 0} (m : Action S A) (w : World S)
      → Ends (λ r v. Q (ok r) v) (m w)
      → Ends Q (attempt m w)
  unfolding attempt
  attempt-Ends m w h = outcome-Ends h

  closing-Ends :
      {R : Result A → World S → Type 0} (r : Result A) {o : Option (Result (Unit {0}) × World S)}
      → Ends (λ c u. elim c [ ok _ ↦ R r u | err e ↦ R (err e) u ]) o
      → Ends R (elim o as (λ _. Option (Result A × World S)) [
        | none ↦ none
        | some (ok _, u) ↦ some (r, u)
        | some (err e, u) ↦ some (err e, u)
      ])
  closing-Ends r (ends {r = ok a} q) = ends q
  closing-Ends r (ends {r = err e} q) = ends q

  finally_outcome :
      {Q R : Result A → World S → Type 0} (cleanup : Action S (Unit {0}))
      {o : Option (Result A × World S)}
      → Ends Q o
      → ((r : Result A) (v : World S)
          → Q r v
          → Ends (λ c u. elim c [ ok _ ↦ R r u | err e ↦ R (err e) u ]) (cleanup v))
      → Ends R (elim o as (λ _. Option (Result A × World S)) [
        | none ↦ none
        | some (r, v) ↦ elim (cleanup v) as (λ _. Option (Result A × World S)) [
          | none ↦ none
          | some (ok _, u) ↦ some (r, u)
          | some (err e, u) ↦ some (err e, u)
        ]
      ])
  finally_outcome cleanup (ends {r = r} {v = v} q) h = closing-Ends r (h r v q)

  -- The cleanup is made at every end of the action.
  pub finally-Ends :
      {Q R : Result A → World S → Type 0} (m : Action S A) (cleanup : Action S (Unit {0}))
      (w : World S)
      → Ends Q (m w)
      → ((r : Result A) (v : World S)
          → Q r v
          → Ends (λ c u. elim c [ ok _ ↦ R r u | err e ↦ R (err e) u ]) (cleanup v))
      → Ends R (finally m cleanup w)
  unfolding finally
  finally-Ends m cleanup w h k = finally_outcome cleanup h k

-- What one round of a loop does: it ends the loop, or leaves the invariant, before the deadline,
-- with a whole interval passed.
abbrev pub Turn :
    {S A : Type 0}
    → Plant S
    → (World S → Type 0)
    → (Result A → World S → Type 0)
    → ℕ
    → ℕ
    → World S
    → Result (Option A)
    → World S
    → Type 0
Turn p Inv R deadline interval w (ok (some a)) v = R (ok a) v
Turn p Inv R deadline interval w (ok none) v =
    Inv v × (p.clock w.plant < deadline) × (p.clock w.plant + interval ≤ p.clock v.plant)
Turn p Inv R deadline interval w (err e) v = R (err e) v

module _ {S A : Type 0} (p : Plant S) (Inv : World S → Type 0) {R : Result A → World S → Type 0}
    (deadline interval : ℕ) where
  turn-Ends :
      (rest : Action S A) (w : World S) (r : Option A) (v : World S)
      → Turn p Inv R deadline interval w (ok r) v
      → (Inv v
          → p.clock w.plant < deadline
          → p.clock w.plant + interval ≤ p.clock v.plant
          → Ends R (rest v))
      → Ends R ((elim r as (λ _. Action S A) [ none ↦ λ u. rest u | some a ↦ pure a ]) v)
  turn-Ends rest w none v t k = k t.0 t.1 t.2
  turn-Ends rest w (some a) v t k = ends t

  -- A loop with enough rounds ends, as one of its rounds ends it.
  pub repeat-Ends :
      (body : Action S (Option A))
      → ((w : World S) → Inv w → Ends (Turn p Inv R deadline interval w) (body w))
      → (n : ℕ) (w : World S) → Inv w
      → deadline ≤ p.clock w.plant + n * interval
      → Ends R (repeat (suc n) body w)
  unfolding repeat
  repeat-Ends body h zero w i d =
      bind-Ends _ (h w i)
        (λ r v t. turn-Ends (repeat 0 body) w r v t (λ _ before after'. absurd (omega arith)))
        (λ e v t. t)
  repeat-Ends body h (suc n) w i d =
      bind-Ends _ (h w i)
        (λ r v t.
          turn-Ends (repeat (suc n) body) w r v t
            (λ i' before after'. repeat-Ends body h n v i' (omega arith)))
        (λ e v t. t)

module _ {S A : Type 0} (Q : Result (Option A) → World S → Type 0)
    {R : Result A → World S → Type 0} where
  next_or_last :
      (rest : Action S A) (r : Option A) (v : World S)
      → Q (ok r) v
      → ((a : A) (u : World S) → Q (ok (some a)) u → R (ok a) u)
      → ((u : World S) → Q (ok none) u → Ends R (rest u))
      → Ends R ((elim r as (λ _. Action S A) [ none ↦ λ u. rest u | some a ↦ pure a ]) v)
  next_or_last rest none v q h k = k v q
  next_or_last rest (some a) v q h k = ends (h a v q)

  -- One round of a loop, and then the rounds that are left.
  pub round-Ends :
      (body : Action S (Option A)) (n : ℕ) (w : World S)
      → Ends Q (body w)
      → ((a : A) (v : World S) → Q (ok (some a)) v → R (ok a) v)
      → ((v : World S) → Q (ok none) v → Ends R (repeat n body v))
      → ((e : Error) (v : World S) → Q (err e) v → R (err e) v)
      → Ends R (repeat (suc n) body w)
  unfolding repeat
  round-Ends body n w h last again stop =
      bind-Ends _ h (λ r v q. next_or_last (repeat n body) r v q last again) stop
