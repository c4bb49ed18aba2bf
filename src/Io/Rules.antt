-- ===== src/Io/Rules.antt =====
-- Rules for the coroutines: what holds at every end of one, and how the log of what was sent grows.
use dryve_d.Base.{
  ℕ, ◌≡◌, refl, Bool, true, false, Option, none, some, List, [], ◌∷◌, ◌++◌, if◌then◌else◌,
}
use dryve_d.Base.Errors.{Error, Result, ok, err}
use dryve_d.Io.{Plant, World, Action, Sent, raise_if, ◌>>=◌, now, sleep}

-- A coroutine ends, and `Q` holds of its result and of the world that it leaves.
pub data Ends {S A : Type 0} (Q : Result A → World S → Type 0)
    : Option (Result A × World S) → Type 0 where
  ends : {r : Result A} {v : World S} → Q r v → Ends Q (some (r, v))

module _ {S A B : Type 0} {Q : Result A → World S → Type 0} {R : Result B → World S → Type 0} where
  after :
      {o : Option (Result A × World S)} (f : A → Action S B)
      → Ends Q o
      → ((a : A) (v : World S) → Q (ok a) v → Ends R (f a v))
      → ((e : Error) (v : World S) → Q (err e) v → R (err e) v)
      → Ends R (elim o [ none ↦ none | some (ok a, v) ↦ f a v | some (err e, v) ↦ some (err e, v) ])
  after f (ends {r = ok a} {v = v} q) k l = k a v q
  after f (ends {r = err e} {v = v} q) k l = ends (l e v q)

  pub bind-Ends :
      (m : Action S A) {f : A → Action S B} {w : World S}
      → Ends Q (m w)
      → ((a : A) (v : World S) → Q (ok a) v → Ends R (f a v))
      → ((e : Error) (v : World S) → Q (err e) v → R (err e) v)
      → Ends R ((m >>= f) w)
  unfolding ◌>>=◌
  bind-Ends m {f = f} {w = w} h k l = after f h k l

module _ {S A : Type 0} {Q R : Result A → World S → Type 0} where
  pub weaken-Ends :
      {o : Option (Result A × World S)}
      → Ends Q o
      → ((r : Result A) (v : World S) → Q r v → R r v)
      → Ends R o
  weaken-Ends (ends {r = r} {v = v} q) k = ends (k r v q)

  pub catch-Ends :
      (h : Error → Option (Action S A)) {o : Option (Result A × World S)}
      → Ends Q o
      → ((a : A) (v : World S) → Q (ok a) v → R (ok a) v)
      → ((e : Error) (v : World S)
          → Q (err e) v
          → Ends R (elim (h e) [ none ↦ some (err e, v) | some g ↦ g v ]))
      → Ends R (elim o [
        | none ↦ none
        | some (ok a, v) ↦ some (ok a, v)
        | some (err e, v) ↦ elim (h e) [ none ↦ some (err e, v) | some g ↦ g v ]
      ])
  catch-Ends h (ends {r = ok a} {v = v} q) k l = ends (k a v q)
  catch-Ends h (ends {r = err e} {v = v} q) k l = l e v q

pub Ends-result :
    {S A : Type 0} {Q : Result A → World S → Type 0} {o : Option (Result A × World S)}
    → Ends Q o
    → (r : Result A) × (v : World S) × (o ≡ some (r, v)) × Q r v
Ends-result (ends {r = r} {v = v} q) = (r, v, refl, q)

-- The log grew by entries with `P`, or not at all.
pub data Grows (P : Sent → Type 0) (before : List Sent) : List Sent → Type 0 where
  same : Grows P before before
  more : {l : List Sent} {x : Sent} → Grows P before l → P x → Grows P before (l ++ (x ∷ []))

pub trans-Grows : {P : Sent → Type 0} {k l m : List Sent} → Grows P k l → Grows P l m → Grows P k m
trans-Grows g same = g
trans-Grows g (more h p) = more (trans-Grows g h) p

-- A check that only raises leaves the world as it is.
pub raise_if-Ends :
    {S : Type 0} (b : Bool) (e : Error) (w : World S) → Ends (λ _ v. v ≡ w) (raise_if b e w)
unfolding raise_if
raise_if-Ends true e w = ends refl
raise_if-Ends false e w = ends refl

pub if-Ends :
    {S A : Type 0} {Q : Result A → World S → Type 0} (b : Bool) (x y : Action S A) {w : World S}
    → (b ≡ true → Ends Q (x w))
    → (b ≡ false → Ends Q (y w))
    → Ends Q ((if b then x else y) w)
if-Ends true x y h k = h refl
if-Ends false x y h k = k refl

-- Of a value that is returned; nothing is claimed of an exception.
abbrev pub Returned : {A : Type 0} → (A → Type 0) → Result A → Type 0
Returned P (ok a) = P a
Returned P (err e) = Unit

module _ {S A : Type 0} (p : Plant S) {R : Result A → World S → Type 0} where
  pub now-Ends :
      (f : ℕ → Action S A) {w : World S} → Ends R (f (p.clock w.plant) w) → Ends R ((now p >>= f) w)
  unfolding ◌>>=◌
  now-Ends f h = h

  pub sleep-Ends :
      (d : ℕ) (f : Unit {0} → Action S A) {w : World S}
      → Ends R (f tt (record w { plant = p.sleep d w.plant }))
      → Ends R ((sleep p d >>= f) w)
  unfolding ◌>>=◌
  sleep-Ends d f h = h

-- The same for a loop's test, which is an `elim`.
pub test-Ends :
    {S A : Type 0} {Q : Result A → World S → Type 0} (b : Bool) (x y : Action S A) {w : World S}
    → (b ≡ true → Ends Q (x w))
    → (b ≡ false → Ends Q (y w))
    → Ends Q ((elim b as (λ _. Action S A) [ true ↦ x | false ↦ y ]) w)
test-Ends true x y h k = h refl
test-Ends false x y h k = k refl

pub at-Ends :
    {S A : Type 0} {Q : Result A → World S → Type 0} {r : Result A} {v : World S}
    → Ends Q (some (r, v))
    → Q r v
at-Ends (ends q) = q
