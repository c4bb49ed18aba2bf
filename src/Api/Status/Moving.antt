-- ===== src/Api/Status/Moving.antt =====
-- What `is_moving` answers.
use dryve_d.Base.{
  ℕ, ◌≤◌, ◌≡◌, ◌⊎◌, refl, ◌∙◌, Bool, true, false, ◌&&◌, ltb, Option, none, some, arith,
}
use dryve_d.Base.Int.{ℤ, pos, eqb_ℤ}
use dryve_d.Base.Errors.{Error, Result, ok, err}
use dryve_d.Io.{Plant, IsTimely, World, Action, pure, ◌>>=◌, read_i32, read_i8}
use dryve_d.Io.Rules.{Ends, ends, bind-Ends, if-Ends}
use dryve_d.Io.Steps.{attempt-Ends, reading-Ends}
use dryve_d.Od.Statusword.{Flags}
use dryve_d.Motion.Jog.{Controller}
use dryve_d.Motion.Jog.Rules.{
  driving-Ends, on_drive-Ends, asking-Ends, timing-Ends, its_drive, driven,
}
use dryve_d.Api.Status.{
  Snapshot, field_of, read_velocity_or_none, is_motion_pp, is_motion_pv, by_mode, mode_or_read,
  decoded_or_read, is_moving,
}

-- How the query ends, for a jog with the deadline given: with an exception of the statusword's read,
-- which no snapshot spared; with a yes; or with a no, and then no jog is on or its deadline has
-- passed.
pub data MovingEnd {S : Type 0} (p : Plant S) (has_jog : Bool) (snapshot : Option Snapshot)
    (w : World (Controller S)) : Result Bool → World (Controller S) → Type 0 where
  unread :
      {e : Error} {v : World (Controller S)}
      → v.sent ≡ w.sent
      → field_of (λ s. s.decoded_status) snapshot ≡ none
      → MovingEnd p has_jog snapshot w (err e) v
  moving : {v : World (Controller S)} → v.sent ≡ w.sent → MovingEnd p has_jog snapshot w (ok true) v
  still :
      {v : World (Controller S)}
      → v.sent ≡ w.sent
      → (has_jog && w.plant.state.active ≡ false) ⊎ (w.plant.state.deadline ≤ p.clock v.plant.drive)
      → MovingEnd p has_jog snapshot w (ok false) v

module _ {S : Type 0} (p : Plant S) (t : IsTimely p) where
  abbrev Answers : {A : Type 0} → Result A → Type 0
  Answers (ok a) = Unit
  Answers (err e) = ⊥

  -- Nothing is sent, and no exception gets out.
  abbrev Looks : {A : Type 0} → World S → Result A → World S → Type 0
  Looks w r v = (v.sent ≡ w.sent) × (p.clock w.plant ≤ p.clock v.plant) × (Answers r)

  looked :
      {A B : Type 0} {w : World S} (m : Action S A) (f : A → B)
      → Ends (Looks w) (m w)
      → Ends (Looks w) ((m >>= λ a. pure (f a)) w)
  looked m f h = bind-Ends m h (λ a v q. ends (q.0, q.1, tt)) (λ e v q. absurd q.2)

  velocity-Looks : (o : Option ℤ) (w : World S) → Ends (Looks w) (read_velocity_or_none p o w)
  unfolding read_velocity_or_none
  velocity-Looks (some velocity) w = ends (refl, omega arith, tt)
  velocity-Looks none w = looked _ _ (
      attempt-Ends {Q = Looks w} (read_i32 p 0x606C 0) w
        (ends (refl, t.read_i32_later 0x606C 0 w.plant, tt)))

  mode-Looks : (o : Option ℤ) (w : World S) → Ends (Looks w) (mode_or_read p 0 o w)
  mode-Looks (some mode_disp) w = ends (refl, omega arith, tt)
  mode-Looks none w =
      attempt-Ends {Q = Looks w} (read_i8 p 0x6061 0) w
        (ends (refl, t.read_i8_later 0x6061 0 w.plant, tt))

  by_mode-Looks :
      (threshold : ℕ) (flags : Flags) (velocity : Option ℤ) (r : Result ℤ) (w : World S)
      → Ends (Looks w) (by_mode p threshold flags velocity r w)
  unfolding by_mode is_motion_pp is_motion_pv
  by_mode-Looks threshold flags velocity (err e) w = ends (refl, omega arith, tt)
  by_mode-Looks threshold flags velocity (ok mode_disp) w =
      if-Ends (eqb_ℤ mode_disp (pos 1)) _ _
        (λ _.
          if-Ends flags.target_reached _ _ (λ _. ends (refl, omega arith, tt))
            (λ _. looked _ _ (velocity-Looks velocity w)))
        (λ _.
          if-Ends (eqb_ℤ mode_disp (pos 3)) _ _ (λ _. looked _ _ (velocity-Looks velocity w))
            (λ _. ends (refl, omega arith, tt)))

  abbrev Unless : {A B : Type 0} → Option A → Result B → Type 0
  Unless none r = Unit
  Unless (some a) r = Answers r

  Unless-none : (o : Option Flags) (e : Error) → Unless {B = Flags × Option ℤ} o (err e) → o ≡ none
  Unless-none none e u = refl
  Unless-none (some a) e u = absurd u

  decoded-Unless :
      (snapshot : Option Snapshot) (o : Option Flags) (w : World S)
      → Ends
          (λ r v. (v.sent ≡ w.sent) × (p.clock w.plant ≤ p.clock v.plant) × Unless o r)
          (decoded_or_read p 0 snapshot o w)
  decoded-Unless snapshot (some flags) w = ends (refl, omega arith, tt)
  decoded-Unless snapshot none w =
      let later = t.read_later 0x6041 0 w.plant in
      reading-Ends p _ _ w (λ a h. ends (refl, later, tt)) (λ e h. (refl, later, tt))

  passed :
      (has_jog active : Bool) (time deadline clock : ℕ)
      → has_jog && (active && ltb time deadline) ≡ false
      → time ≤ clock
      → (has_jog && active ≡ false) ⊎ (deadline ≤ clock)
  passed has_jog active time deadline clock off later = ground arith

  answered :
      {has_jog : Bool} {snapshot : Option Snapshot} {w : World (Controller S)} {time : ℕ}
      (r : Result Bool) (x : World S)
      → Answers r
      → x.sent ≡ w.sent
      → has_jog && (w.plant.state.active && ltb time w.plant.state.deadline) ≡ false
      → time ≤ p.clock x.plant
      → MovingEnd p has_jog snapshot w r (driven w x)
  answered (ok true) x a s off later = moving s
  answered {has_jog = has_jog} {w = w} {time = time} (ok false) x a s off later =
      still s (
        passed has_jog w.plant.state.active time w.plant.state.deadline (p.clock x.plant) off later)
  answered (err e) x a s off later = absurd a

  -- Whatever the drive answers, `is_moving` ends and sends nothing. It raises only if the telemetry
  -- has no decoded statusword. It never says that the drive stands still while a jog is on whose
  -- deadline has not passed.
  pub is_moving-MovingEnd :
      (velocity_threshold : ℕ) (has_jog : Bool) (snapshot : Option Snapshot)
      (w : World (Controller S))
      → Ends (MovingEnd p has_jog snapshot w) (is_moving p velocity_threshold has_jog snapshot w)
  unfolding is_moving
  is_moving-MovingEnd threshold has_jog snapshot w =
      let status = field_of (λ s. s.decoded_status) snapshot in
      driving-Ends _ _ w (decoded-Unless snapshot status (its_drive w))
        (λ d v q. asking-Ends _ _ (
          timing-Ends p _ _ (
            if-Ends
              (has_jog && (w.plant.state.active && ltb (p.clock v.plant) w.plant.state.deadline)) _
              _ (λ _. ends (moving q.0))
              (λ off.
                driving-Ends _ _ _ (mode-Looks d.1 v)
                  (λ mode u a.
                    on_drive-Ends _ _
                      (by_mode-Looks threshold d.0 (field_of (λ s. s.velocity) snapshot) mode u)
                      (λ r x b. answered r x b.2 (b.0 ∙ a.0 ∙ q.0) off (omega (arith, a.1, b.1))))
                  (λ e u a. absurd a.2)))))
        (λ e v q. unread q.0 (Unless-none status e q.2))
