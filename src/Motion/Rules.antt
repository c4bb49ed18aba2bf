-- ===== src/Motion/Rules.antt =====
-- Rules for the statements that the motion helpers share.
use dryve_d.Base.{
  if◌then◌else◌, ℕ, suc, ◌+◌, ◌*◌, ◌≤◌, ◌≡◌, refl, Bool, true, false, Option, none, some, List, [],
  ◌∷◌,
}
use dryve_d.Base.Int.{ℤ, pos, eqb_ℤ}
use dryve_d.Base.Errors.{Error, Result, ok, err}
use dryve_d.Io.{Plant, IsTimely, World, Action, Sent, writing, ◌>>=◌, pure, raise, now, repeat}
use dryve_d.Io.Rules.{Ends, ends, if-Ends}
use dryve_d.Io.Steps.{reading-Ends}
use dryve_d.Io.Log.{Sends, Any, returned-Sends, write-Sends, seq-Sends}
use dryve_d.Io.Polling.{Polls, tail-Polls, polling-Listens, Listens-Sends}
use dryve_d.Od.Controlword.{cw_pulse_new_set_point}
use dryve_d.Motion.{if_given, raise_if_aborted, pulse_start, mode_shown_round}

-- What follows the test of the abort event.
pub aborting-Ends :
    {S B : Type 0} {R : Result B → World S → Type 0} (aborted : S → Bool) (e : Error)
    (f : Unit {0} → Action S B) (w : World S)
    → Ends R (f tt w)
    → (aborted w.plant ≡ true → R (err e) w)
    → Ends R ((raise_if_aborted aborted e >>= f) w)
unfolding ◌>>=◌ raise_if_aborted
aborting-Ends {S = S} {B = B} {R = R} aborted e f w h k = decided (aborted w.plant) k
  where
    decided :
        (b : Bool)
        → (b ≡ true → R (err e) w)
        → Ends R (elim ((if b then raise {A = Unit {0}} e else pure tt) w) [
          | none ↦ none
          | some (ok a, v) ↦ f a v
          | some (err x, v) ↦ some (err x, v)
        ])
    decided true k = ends (k refl)
    decided false k = h

-- The write of an optional value, and the list that it sends.
abbrev pub given : ℕ → ℕ → Option ℤ → List Sent
given i sub none = []
given i sub (some x) = record { index = i; value = x; subindex = sub } ∷ []

pub given-Sends :
    {S : Type 0} (p : Plant S) (g : ℕ → ℤ → ℕ → S → Result (Unit {0}) × S) (i sub : ℕ)
    (x : Option ℤ) (w : World S)
    → Ends (Sends (given i sub x) Any w.sent) (if_given x (λ a. writing p g i a sub) w)
unfolding if_given
given-Sends p g i sub none w = ends (returned-Sends refl tt)
given-Sends p g i sub (some x) w = write-Sends p g i x sub w

-- The two controlwords of a start, with the hold bits.
abbrev pub pulse_log : List Sent
pulse_log =
    record { index = 0x6040; value = pos 0x1F; subindex = 0 }
    ∷ record { index = 0x6040; value = pos 0x0F; subindex = 0 }
    ∷ []

module _ {S : Type 0} (p : Plant S) where
  pub pulse_start-Sends : (w : World S) → Ends (Sends pulse_log Any w.sent) (pulse_start p w)
  unfolding pulse_start cw_pulse_new_set_point
  pulse_start-Sends w =
      seq-Sends (_ ∷ []) (_ ∷ []) _ (write-Sends p p.write_u16 _ _ _ w)
        λ _ v _. write-Sends p p.write_u16 _ _ _ v

  module _ (t : IsTimely p) where
    mode_shown-Polls :
        (log : List Sent) (poll_interval : ℕ) (mode : ℤ) (deadline : ℕ) (w : World S)
        → w.sent ≡ log
        → Ends
            (Polls p log Any deadline poll_interval w)
            (mode_shown_round p poll_interval mode deadline w)
    unfolding mode_shown_round
    mode_shown-Polls log poll_interval mode deadline w q =
        reading-Ends p _ _ w
          (λ shown _.
            if-Ends (eqb_ℤ shown mode) _ _ (λ _. ends (record { same_log = q; found = tt }))
              (λ _.
                tail-Polls p t log Any deadline poll_interval _ w _ q
                  (t.read_i8_later 0x6061 0 w.plant) (ends (record { same_log = q; found = tt }))))
          (λ e _. record { same_log = q; found = tt })

    pub mode_shown-Sends :
        (poll_interval n timeout : ℕ) (mode : ℤ)
        → timeout ≤ n * poll_interval
        → (w : World S)
        → Ends (Sends [] Any w.sent) (
            (now p >>= λ start.
            repeat (suc n) (mode_shown_round p poll_interval mode (start + timeout)))
              w)
    mode_shown-Sends poll_interval n timeout mode h w = Listens-Sends (
        polling-Listens p Any poll_interval timeout n (mode_shown_round p poll_interval mode) h
          w.sent (mode_shown-Polls w.sent poll_interval mode) w refl)
