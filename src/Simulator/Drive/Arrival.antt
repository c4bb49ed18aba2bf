-- ===== src/Simulator/Drive/Arrival.antt =====
-- A profile position move of the simulated drive, round by round.
use dryve_d.Base.{
  ℕ, zero, suc, ◌-◌, ◌*◌, ◌+◌, ◌/◌, ◌<◌, ◌≡◌, refl, sym, ap, subst, ◌∙◌, Bool, true, false, not,
  ◌&&◌, ◌||◌, ◌⊎◌, inl, inr, List, [], ◌∷◌, length, min, arith, Bool-cases, if◌then◌else◌,
}
use dryve_d.Base.Int.{ℤ, pos, negsuc, ltb_ℤ, eqb_ℤ, ◌≤ℤ◌, ◌+ℤ◌, pos_part, neg_part, +ℤ_parts}
use dryve_d.Simulator.Drive.{FakeDrive, is_operation_enabled, speed, clamp_position}
use dryve_d.Simulator.Drive.Engine.{
  times, negate, travel, step_size, not_past, next_position, after_step, position_round, move,
  Engine, engine_round,
}

-- The distance of two positions.
abbrev pub distance : ℤ → ℤ → ℕ
distance a b =
    (pos_part a + neg_part b - (pos_part b + neg_part a))
    + (pos_part b + neg_part a - (pos_part a + neg_part b))

-- A move towards a goal within the soft limits.
abbrev pub Moving : FakeDrive → Type 0
Moving d =
    (d.emergency_active ≡ false)
    × (is_operation_enabled d.state ≡ true)
    × (d.op_mode ≡ pos 1)
    × (d.homing_active ≡ false)
    × (d.pv_active ≡ false)
    × (d.pp_active ≡ true)
    × (d.soft_limit_min ≤ℤ d.pp_goal)
    × (d.pp_goal ≤ℤ d.soft_limit_max)
    × (d.soft_limit_min ≤ℤ d.position)
    × (d.position ≤ℤ d.soft_limit_max)

-- The end of the move at the goal.
abbrev pub ArrivedAt : ℤ → FakeDrive → Type 0
ArrivedAt goal d =
    (d.emergency_active ≡ false)
    × (is_operation_enabled d.state ≡ true)
    × (d.homing_active ≡ false)
    × (d.pv_active ≡ false)
    × (d.pp_active ≡ false)
    × (d.position ≡ goal)
    × (d.velocity ≡ pos 0)
    × (d.is_moving ≡ false)
    × (d.target_reached ≡ true)

step_size-up : (v dt : ℕ) → (k : ℕ) × (step_size (pos 1) v dt ≡ pos (suc k))
step_size-up v dt = chosen (1 * v * dt / 1000000)
  where
    chosen : (w : ℕ) → (k : ℕ) × ((if eqb_ℤ (pos w) (pos 0) then pos 1 else pos w) ≡ pos (suc k))
    chosen zero = (0, refl)
    chosen (suc w) = (w, ground arith)

step_size-down : (v dt : ℕ) → (k : ℕ) × (step_size (negsuc 0) v dt ≡ negsuc k)
step_size-down v dt = by_speed ((0 + 1) * v)
  where
    chosen :
        (w : ℕ) → (k : ℕ) × ((if eqb_ℤ (negate w) (pos 0) then negsuc 0 else negate w) ≡ negsuc k)
    chosen zero = (0, refl)
    chosen (suc w) = (w, ground arith)

    by_speed :
        (n : ℕ)
        → (k : ℕ) × ((if eqb_ℤ (travel (negate n) dt) (pos 0)
              then negsuc 0
              else travel (negate n) dt)
            ≡ negsuc k)
    by_speed zero = (0, ground arith)
    by_speed (suc n) = chosen ((n + 1) * dt / 1000000)

-- A step towards the goal ends between the old position and the goal, and closer to it.
Closer : ℤ → ℤ → ℤ → Type 0
Closer cur goal nxt =
    (((cur ≤ℤ nxt) × (nxt ≤ℤ goal)) ⊎ ((goal ≤ℤ nxt) × (nxt ≤ℤ cur)))
    × (distance goal nxt < distance goal cur)

up-Closer :
    (cur goal : ℤ) (k : ℕ)
    → ltb_ℤ cur goal ≡ true
    → Closer cur goal (not_past (pos 1) goal (cur +ℤ pos (suc k)))
unfolding Closer
up-Closer cur goal k u = ground (arith, +ℤ_parts cur (pos (suc k)))

down-Closer :
    (cur goal : ℤ) (k : ℕ)
    → ltb_ℤ cur goal ≡ false
    → eqb_ℤ cur goal ≡ false
    → Closer cur goal (not_past (negsuc 0) goal (cur +ℤ negsuc k))
unfolding Closer
down-Closer cur goal k u n = ground (arith, +ℤ_parts cur (negsuc k))

next_position-Closer :
    (cur goal : ℤ) (v dt : ℕ)
    → eqb_ℤ cur goal ≡ false
    → Closer cur goal (next_position cur goal v dt)
next_position-Closer cur goal v dt n = elim (Bool-cases (ltb_ℤ cur goal)) [
  | inl u ↦
      let (k, e) = step_size-up v dt in
      subst
        (λ b. Closer cur goal (
          not_past (if b then pos 1 else negsuc 0) goal
            (cur +ℤ step_size (if b then pos 1 else negsuc 0) v dt)))
        (sym u)
        (subst (λ x. Closer cur goal (not_past (pos 1) goal (cur +ℤ x))) (sym e)
          (up-Closer cur goal k u))
  | inr d ↦
      let (k, e) = step_size-down v dt in
      subst
        (λ b. Closer cur goal (
          not_past (if b then pos 1 else negsuc 0) goal
            (cur +ℤ step_size (if b then pos 1 else negsuc 0) v dt)))
        (sym d)
        (subst (λ x. Closer cur goal (not_past (negsuc 0) goal (cur +ℤ x))) (sym e)
          (down-Closer cur goal k d n))
]

clamp-inside : (low high x : ℤ) → low ≤ℤ x → x ≤ℤ high → clamp_position low high x ≡ x
clamp-inside low high x l h = ground arith

between-inside :
    (low high cur goal nxt : ℤ)
    → low ≤ℤ goal
    → goal ≤ℤ high
    → low ≤ℤ cur
    → cur ≤ℤ high
    → Closer cur goal nxt
    → (low ≤ℤ nxt) × (nxt ≤ℤ high)
unfolding Closer
between-inside low high cur goal nxt a b c d (inl (p, q), r) = omega arith
between-inside low high cur goal nxt a b c d (inr (p, q), r) = omega arith

Closer-shorter : (cur goal nxt : ℤ) → Closer cur goal nxt → distance goal nxt < distance goal cur
unfolding Closer
Closer-shorter cur goal nxt c = c.1

-- What a round of a move leaves.
abbrev Progress : FakeDrive → FakeDrive → Type 0
Progress d d' =
    ArrivedAt d.pp_goal d'
    ⊎ (Moving d'
        × (d'.pp_goal ≡ d.pp_goal)
        × (distance d'.pp_goal d'.position < distance d.pp_goal d.position))

if-true : {A : Type 0} (b : Bool) (x y : A) → b ≡ true → (if b then x else y) ≡ x
if-true true x y h = refl
if-true false x y h = cc

if-false : {A : Type 0} (b : Bool) (x y : A) → b ≡ false → (if b then x else y) ≡ y
if-false true x y h = cc
if-false false x y h = refl

eqb-eq : (a b : ℤ) → eqb_ℤ a b ≡ true → a ≡ b
eqb-eq a b h = ground arith

move-eq-position_round :
    (now dt : ℕ) (d : FakeDrive) → Moving d → move now dt d ≡ position_round dt d
unfolding move
move-eq-position_round now dt d (calm, enabled, mode, no_homing, no_pv, pp, _, _, _, _) =
    if-false (d.emergency_active || not (is_operation_enabled d.state)) _ _
      (rw (calm, enabled) refl)
    ∙ if-false (d.homing_active && eqb_ℤ d.op_mode (pos 6)) _ _ (rw no_homing refl)
    ∙ if-true (d.pp_active && eqb_ℤ d.op_mode (pos 1)) _ _ (rw (pp, mode) refl)

after_step-Progress :
    (d : FakeDrive) (nxt v : ℤ) (reached : Bool)
    → Moving d
    → Closer d.position d.pp_goal nxt
    → eqb_ℤ nxt d.pp_goal ≡ reached
    → Progress d (after_step d nxt v reached)
after_step-Progress d nxt v true (calm, enabled, mode, no_homing, no_pv, pp, gl, gh, pl, ph) c e =
    let there : nxt ≡ d.pp_goal = eqb-eq nxt d.pp_goal e in
    let kept = clamp-inside d.soft_limit_min d.soft_limit_max d.pp_goal gl gh in
    inl (
      calm,
      enabled,
      no_homing,
      no_pv,
      refl,
      ap (clamp_position d.soft_limit_min d.soft_limit_max) there ∙ kept,
      refl,
      refl,
      refl,
    )
after_step-Progress d nxt v false (calm, enabled, mode, no_homing, no_pv, pp, gl, gh, pl, ph) c e =
    let (l, h) =
      between-inside d.soft_limit_min d.soft_limit_max d.position d.pp_goal nxt gl gh pl ph c in
    let kept = sym (clamp-inside d.soft_limit_min d.soft_limit_max nxt l h) in
    inr (
      (
        calm,
        enabled,
        mode,
        no_homing,
        no_pv,
        pp,
        gl,
        gh,
        subst (λ x. d.soft_limit_min ≤ℤ x) kept l,
        subst (λ x. x ≤ℤ d.soft_limit_max) kept h,
      ),
      refl,
      subst (λ x. distance d.pp_goal x < distance d.pp_goal d.position) kept (shorter c),
    )
  where
    shorter :
        Closer d.position d.pp_goal nxt → distance d.pp_goal nxt < distance d.pp_goal d.position
    shorter k = Closer-shorter d.position d.pp_goal nxt k

position_round-Progress : (dt : ℕ) (d : FakeDrive) → Moving d → Progress d (position_round dt d)
unfolding position_round
position_round-Progress dt d m = elim (Bool-cases (eqb_ℤ d.position d.pp_goal)) [
  | inl here ↦
      subst (Progress d) (sym (if-true _ _ _ here))
        (inl (m.0, m.1, m.3, m.4, refl, eqb-eq d.position d.pp_goal here, refl, refl, refl))
  | inr there ↦ subst (Progress d) (sym (if-false _ _ _ there)) (
      after_step-Progress d _ _ _ m (next_position-Closer d.position d.pp_goal (speed d) dt there)
        refl)
]

-- A drive that arrived rests: no motion is active.
move-ArrivedAt :
    (now dt : ℕ) (goal : ℤ) (d : FakeDrive) → ArrivedAt goal d → ArrivedAt goal (move now dt d)
unfolding move
move-ArrivedAt now dt goal d (calm, enabled, no_homing, no_pv, no_pp, there, _, _, _) =
    subst (ArrivedAt goal)
      (sym (
        if-false (d.emergency_active || not (is_operation_enabled d.state)) _ _
          (rw (calm, enabled) refl)
        ∙ if-false (d.homing_active && eqb_ℤ d.op_mode (pos 6)) _ _ (rw no_homing refl)
        ∙ if-false (d.pp_active && eqb_ℤ d.op_mode (pos 1)) _ _ (rw no_pp refl)
        ∙ if-false (d.pv_active && eqb_ℤ d.op_mode (pos 3)) _ _ (rw no_pv refl)))
      (calm, enabled, no_homing, no_pv, no_pp, there, refl, refl, refl)

-- The rounds of the engine at the times given.
abbrev pub rounds : List ℕ → Engine → Engine
rounds [] e = e
rounds (now ∷ times) e = rounds times (engine_round now e)

rounds-ArrivedAt :
    (times : List ℕ) (goal : ℤ) (e : Engine)
    → ArrivedAt goal e.drive
    → ArrivedAt goal (rounds times e).drive
unfolding engine_round
rounds-ArrivedAt [] goal e a = a
rounds-ArrivedAt (now ∷ times) goal e a =
    rounds-ArrivedAt times goal (engine_round now e) (move-ArrivedAt now _ goal e.drive a)

-- A profile position move to a goal within the soft limits ends: after more rounds of the engine
-- than the distance has units, at whatever times they come, the drive stands at exactly the goal
-- and reports that it has reached its target.
pub rounds-arrive :
    (times : List ℕ) (e : Engine)
    → Moving e.drive
    → distance e.drive.pp_goal e.drive.position < length times
    → ArrivedAt e.drive.pp_goal (rounds times e).drive
unfolding engine_round
rounds-arrive [] e m h = absurd (omega arith)
rounds-arrive (now ∷ times) e m h =
    let dt : ℕ = min (now - e.last) 100000 in
    elim (subst (Progress e.drive) (sym (move-eq-position_round now dt e.drive m))
      (position_round-Progress dt e.drive m)) [
        | inl arrived ↦ rounds-ArrivedAt times e.drive.pp_goal (engine_round now e) arrived
        | inr (m', same, shorter) ↦
            subst (λ g. ArrivedAt g (rounds times (engine_round now e)).drive) same
              (rounds-arrive times (engine_round now e) m' (omega arith))
      ]
