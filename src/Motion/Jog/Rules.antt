-- ===== src/Motion/Jog/Rules.antt =====
-- Rules for the coroutines of the jog controller.
use dryve_d.Base.{
  if◌then◌else◌, not, ℕ, ◌≡◌, refl, ◌∙◌, Bool, true, false, Option, none, some, List, ◌++◌,
  append_assoc, ap, sym,
}
use dryve_d.Base.Errors.{Error, Result, ok, err}
use dryve_d.Io.{Plant, World, Action, Sent, pure, ◌>>=◌, now, sleep}
use dryve_d.Io.Rules.{Ends, ends, weaken-Ends, bind-Ends}
use dryve_d.Io.Log.{Sends, all_sent, cut_short, later}
use dryve_d.Motion.Jog.{Controller, on_drive, controller, update}

module _ {S : Type 0} where
  -- The drive alone, and the controller with the drive that was left.
  abbrev pub its_drive : World (Controller S) → World S
  its_drive w = record { plant = w.plant.drive; sent = w.sent }

  abbrev pub driven : World (Controller S) → World S → World (Controller S)
  driven w v = record { plant = record w.plant { drive = v.plant }; sent = v.sent }

  module _ {A B : Type 0} {Q : Result A → World S → Type 0}
      {R : Result B → World (Controller S) → Type 0} where
    after_drive :
        {o : Option (Result A × World S)} (w : World (Controller S))
        (f : A → Action (Controller S) B)
        → Ends Q o
        → ((a : A) (v : World S) → Q (ok a) v → Ends R (f a (driven w v)))
        → ((e : Error) (v : World S) → Q (err e) v → R (err e) (driven w v))
        → Ends R
            (elim (elim o as (λ _. Option (Result A × World (Controller S))) [
              | none ↦ none
              | some (r, v) ↦ some (r, driven w v)
            ])
              as (λ _. Option (Result B × World (Controller S))) [
                | none ↦ none
                | some (ok a, w') ↦ f a w'
                | some (err e, w') ↦ some (err e, w')
              ])
    after_drive w f (ends {r = ok a} {v = v} q) h k = h a v q
    after_drive w f (ends {r = err e} {v = v} q) h k = ends (k e v q)

    -- A coroutine of the drive, and what follows it: the controller's own fields are as they were.
    pub driving-Ends :
        (m : Action S A) (f : A → Action (Controller S) B) (w : World (Controller S))
        → Ends Q (m (its_drive w))
        → ((a : A) (v : World S) → Q (ok a) v → Ends R (f a (driven w v)))
        → ((e : Error) (v : World S) → Q (err e) v → R (err e) (driven w v))
        → Ends R ((on_drive m >>= f) w)
    unfolding ◌>>=◌ on_drive
    driving-Ends m f w h k l = after_drive w f h k l

  module _ {A : Type 0} {Q : Result A → World S → Type 0}
      {R : Result A → World (Controller S) → Type 0} where
    lone_drive :
        {o : Option (Result A × World S)} (w : World (Controller S))
        → Ends Q o
        → ((r : Result A) (v : World S) → Q r v → R r (driven w v))
        → Ends R (elim o as (λ _. Option (Result A × World (Controller S))) [
          | none ↦ none
          | some (r, v) ↦ some (r, driven w v)
        ])
    lone_drive w (ends {r = r} {v = v} q) h = ends (h r v q)

    -- A coroutine of the drive alone.
    pub on_drive-Ends :
        (m : Action S A) (w : World (Controller S))
        → Ends Q (m (its_drive w))
        → ((r : Result A) (v : World S) → Q r v → R r (driven w v))
        → Ends R (on_drive m w)
    unfolding on_drive
    on_drive-Ends m w h k = lone_drive w h k

  -- An exception leaves the state and the watchdog as they were in `c`.
  abbrev pub Kept : {A : Type 0} → Controller S → Result A → Controller S → Type 0
  Kept c (ok a) d = Unit
  Kept c (err e) d = (d.state ≡ c.state) × (d.watch_task ≡ c.watch_task)

  pub record Outcome {A : Type 0} (c : Controller S) (l : List Sent)
      (P : A → World (Controller S) → Type 0) (before : List Sent) (r : Result A)
      (v : World (Controller S)) : Type 0 where
    pub sends : Sends l P before r v
    pub kept : Kept c r v.plant

  module _ {B : Type 0} {P : B → World (Controller S) → Type 0} (c : Controller S)
      (l k : List Sent) where
    onward :
        {before log : List Sent} {r : Result B} {u : World (Controller S)}
        → log ≡ before ++ l
        → Outcome c k P log r u
        → Outcome c (l ++ k) P before r u
    onward {before = before} q x = record { sends = later before l k q x.sends; kept = x.kept }

    cut :
        {A : Type 0} {Q : A → World S → Type 0} {before : List Sent} {e : Error} {v : World S}
        (w : World (Controller S))
        → w.plant.state ≡ c.state
        → w.plant.watch_task ≡ c.watch_task
        → Sends l Q before (err e) v
        → Outcome c (l ++ k) P before (err e) (driven w v)
    cut w q h (cut_short first rest x y) = record {
      sends = cut_short first (rest ++ k) (sym (append_assoc first rest k) ∙ ap (λ s. s ++ k) x) y;
      kept = (q, h);
    }

    next :
        {A : Type 0} {Q : A → World S → Type 0} (f : A → Action (Controller S) B)
        (w : World (Controller S))
        → ((a : A) (v : World S) → Q a v → Ends (Outcome c k P v.sent) (f a (driven w v)))
        → (a : A) (v : World S) → Sends l Q w.sent (ok a) v
        → Ends (Outcome c (l ++ k) P w.sent) (f a (driven w v))
    next f w g a v (all_sent x z) = weaken-Ends (g a v z) (λ r u y. onward x y)

    -- A coroutine of the drive that sends `l`, and then one that sends `k`.
    pub driving-Outcome :
        {A : Type 0} {Q : A → World S → Type 0} (m : Action S A) (f : A → Action (Controller S) B)
        (w : World (Controller S))
        → w.plant.state ≡ c.state
        → w.plant.watch_task ≡ c.watch_task
        → Ends (Sends l Q w.sent) (m (its_drive w))
        → ((a : A) (v : World S) → Q a v → Ends (Outcome c k P v.sent) (f a (driven w v)))
        → Ends (Outcome c (l ++ k) P w.sent) ((on_drive m >>= f) w)
    driving-Outcome m f w q h n g = driving-Ends m f w n (next f w g) (λ e v x. cut w q h x)

    passed :
        {A : Type 0} {Q : A → World (Controller S) → Type 0} {before : List Sent}
        (f : A → Action (Controller S) B)
        → ((a : A) (v : World (Controller S)) → Q a v → Ends (Outcome c k P v.sent) (f a v))
        → (a : A) (v : World (Controller S)) → Outcome c l Q before (ok a) v
        → Ends (Outcome c (l ++ k) P before) (f a v)
    passed f g a v x = sent_all f g a v x.sends
      where
        sent_all :
            {A : Type 0} {Q : A → World (Controller S) → Type 0} {before : List Sent}
            (f : A → Action (Controller S) B)
            → ((a : A) (v : World (Controller S)) → Q a v → Ends (Outcome c k P v.sent) (f a v))
            → (a : A) (v : World (Controller S)) → Sends l Q before (ok a) v
            → Ends (Outcome c (l ++ k) P before) (f a v)
        sent_all f g a v (all_sent x z) = weaken-Ends (g a v z) (λ r u y. onward x y)

    cut_sends :
        {A : Type 0} {Q : A → World (Controller S) → Type 0} {before : List Sent} {e : Error}
        {v : World (Controller S)}
        → Sends l Q before (err e) v
        → Sends (l ++ k) P before (err e) v
    cut_sends (cut_short first rest x y) =
        cut_short first (rest ++ k) (sym (append_assoc first rest k) ∙ ap (λ s. s ++ k) x) y

    -- The same for two coroutines of the controller.
    pub seq-Outcome :
        {A : Type 0} {Q : A → World (Controller S) → Type 0} (m : Action (Controller S) A)
        (f : A → Action (Controller S) B) (w : World (Controller S))
        → Ends (Outcome c l Q w.sent) (m w)
        → ((a : A) (v : World (Controller S)) → Q a v → Ends (Outcome c k P v.sent) (f a v))
        → Ends (Outcome c (l ++ k) P w.sent) ((m >>= f) w)
    seq-Outcome m f w h g =
        bind-Ends m h (passed f g) (λ e v x. record { sends = cut_sends x.sends; kept = x.kept })

  module _ {B : Type 0} {R : Result B → World (Controller S) → Type 0} where
    -- The update of a field, and a look at the fields.
    pub updating-Ends :
        (f : Controller S → Controller S) (rest : Unit {0} → Action (Controller S) B)
        (w : World (Controller S))
        → Ends R (rest tt (record w { plant = f w.plant }))
        → Ends R ((update f >>= rest) w)
    unfolding ◌>>=◌
    updating-Ends f rest w h = h

    pub asking-Ends :
        (f : Controller S → Action (Controller S) B) (w : World (Controller S))
        → Ends R (f w.plant w)
        → Ends R ((controller >>= f) w)
    unfolding ◌>>=◌
    asking-Ends f w h = h

module _ {S B : Type 0} (p : Plant S) {R : Result B → World (Controller S) → Type 0} where
  pub timing-Ends :
      (f : ℕ → Action (Controller S) B) (w : World (Controller S))
      → Ends R (f (p.clock w.plant.drive) w)
      → Ends R ((on_drive (now p) >>= f) w)
  unfolding ◌>>=◌ on_drive
  timing-Ends f w h = h

  pub resting-Ends :
      (d : ℕ) (f : Unit {0} → Action (Controller S) B) (w : World (Controller S))
      → Ends R (f tt (driven w (record { plant = p.sleep d w.plant.drive; sent = w.sent })))
      → Ends R ((on_drive (sleep p d) >>= f) w)
  unfolding ◌>>=◌ on_drive
  resting-Ends d f w h = h

-- An operation that does nothing unless a jog is on.
pub while_on-Ends :
    {S : Type 0} (R : Bool → Result (Unit {0}) → World S → Type 0) (b : Bool)
    (x : Action S (Unit {0})) (w : World S)
    → (b ≡ false → R false (ok tt) w)
    → (b ≡ true → Ends (R true) (x w))
    → Ends (R b) ((if not b then pure tt else x) w)
while_on-Ends R true x w h k = k refl
while_on-Ends R false x w h k = ends (h refl)
