-- ===== src/Io.antt =====
-- The driver's coroutines. A plant is what they act on: the object dictionary accessor of
-- src/dryve_d1/protocol/accessor.py with the drive behind it, and the clock of the event loop. It
-- may answer anything, raise anything, and change between any two operations.
pub mod Rules
pub mod Steps
pub mod Log
pub mod Polling
use dryve_d.Base.{
  zero, suc, ℕ, ◌+◌, ◌≤◌, Bool, true, false, Option, none, some, List, [], ◌∷◌, ◌++◌, if◌then◌else◌,
}
use dryve_d.Base.Int.{ℤ, pos}
use dryve_d.Base.Errors.{Error, Result, ok, err}

-- `AsyncODAccessor`, `asyncio.sleep` and `monotonic_s`; times are whole microseconds.
pub record Plant (S : Type 0) : Type 0 where
  pub read_u16 : ℕ → ℕ → S → Result ℕ × S
  pub read_i8 : ℕ → ℕ → S → Result ℤ × S
  pub read_i32 : ℕ → ℕ → S → Result ℤ × S
  pub write_u8 : ℕ → ℤ → ℕ → S → Result (Unit {0}) × S
  pub write_u16 : ℕ → ℤ → ℕ → S → Result (Unit {0}) × S
  pub write_u32 : ℕ → ℤ → ℕ → S → Result (Unit {0}) × S
  pub write_i32 : ℕ → ℤ → ℕ → S → Result (Unit {0}) × S
  pub sleep : ℕ → S → S
  pub clock : S → ℕ

-- What the loops rely on: the clock does not go back, and sleeping takes the time asked for.
pub record IsTimely {S : Type 0} (p : Plant S) : Type 0 where
  pub read_later : (i sub : ℕ) (s : S) → p.clock s ≤ p.clock (p.read_u16 i sub s).1
  pub read_i8_later : (i sub : ℕ) (s : S) → p.clock s ≤ p.clock (p.read_i8 i sub s).1
  pub read_i32_later : (i sub : ℕ) (s : S) → p.clock s ≤ p.clock (p.read_i32 i sub s).1
  pub sleeps : (d : ℕ) (s : S) → p.clock s + d ≤ p.clock (p.sleep d s)

-- One write that was sent to the drive, whatever became of it.
pub record Sent : Type 0 where
  pub index : ℕ
  pub value : ℤ
  pub subindex : ℕ

-- The plant, and what was sent to it so far, in order.
pub record World (S : Type 0) : Type 0 where
  pub plant : S
  pub sent : List Sent

-- A coroutine ends with a value or an exception, in a new world; `none` is a loop that was given
-- too few rounds.
abbrev pub Action : Type 0 → Type 0 → Type 0
Action S A = World S → Option (Result A × World S)

module _ {S A : Type 0} where
  abbrev pub pure : A → Action S A
  pure a w = some (ok a, w)

  abbrev pub raise : Error → Action S A
  raise e w = some (err e, w)

infixl 5 ◌>>=◌ ◌>>◌
unfoldable pub ◌>>=◌ : {S A B : Type 0} → Action S A → (A → Action S B) → Action S B
◌>>=◌ action next w = elim (action w) [
  | none ↦ none
  | some (ok a, w') ↦ next a w'
  | some (err e, w') ↦ some (err e, w')
]

abbrev pub ◌>>◌ : {S A B : Type 0} → Action S A → Action S B → Action S B
action >> next = action >>= λ _. next

-- `try: action  except: handler`, where the handler takes some exceptions and raises the others on.
abbrev pub catch : {S A : Type 0} → Action S A → (Error → Option (Action S A)) → Action S A
catch action handler w = elim (action w) [
  | none ↦ none
  | some (ok a, w') ↦ some (ok a, w')
  | some (err e, w') ↦ elim (handler e) [ none ↦ some (err e, w') | some h ↦ h w' ]
]

-- `if condition: action`
unfoldable pub when : {S : Type 0} → Bool → Action S (Unit {0}) → Action S (Unit {0})
when condition action = if condition then action else pure tt

-- `if condition: raise e`
unfoldable pub raise_if : {S : Type 0} → Bool → Error → Action S (Unit {0})
raise_if condition e = if condition then raise e else pure tt

module _ {S : Type 0} (p : Plant S) where
  -- A read, and its effect on the plant.
  abbrev pub reading : {A : Type 0} → (S → Result A × S) → Action S A
  reading f w = let (r, s) = f w.plant in some (r, record w { plant = s })

  abbrev pub read_u16 : ℕ → ℕ → Action S ℕ
  read_u16 i sub = reading (p.read_u16 i sub)

  abbrev pub read_i8 : ℕ → ℕ → Action S ℤ
  read_i8 i sub = reading (p.read_i8 i sub)

  abbrev pub read_i32 : ℕ → ℕ → Action S ℤ
  read_i32 i sub = reading (p.read_i32 i sub)

  -- A write is sent, and then succeeds or raises.
  abbrev pub writing : (ℕ → ℤ → ℕ → S → Result (Unit {0}) × S) → ℕ → ℤ → ℕ → Action S (Unit {0})
  writing f i v sub w =
      let (r, s) = f i v sub w.plant in
      some (
        r,
        record {
          plant = s;
          sent = w.sent ++ (record { index = i; value = v; subindex = sub } ∷ []);
        },
      )

  abbrev pub write_u8 : ℕ → ℤ → ℕ → Action S (Unit {0})
  write_u8 = writing p.write_u8

  abbrev pub write_u16 : ℕ → ℤ → ℕ → Action S (Unit {0})
  write_u16 = writing p.write_u16

  abbrev pub write_u32 : ℕ → ℤ → ℕ → Action S (Unit {0})
  write_u32 = writing p.write_u32

  abbrev pub write_i32 : ℕ → ℤ → ℕ → Action S (Unit {0})
  write_i32 = writing p.write_i32

  abbrev pub sleep : ℕ → Action S (Unit {0})
  sleep d w = some (ok tt, record w { plant = p.sleep d w.plant })

  abbrev pub now : Action S ℕ
  now w = some (ok (p.clock w.plant), w)

-- `try: action  except Exception as e: ...`, where the result is looked at afterwards.
unfoldable pub attempt : {S A : Type 0} → Action S A → Action S (Result A)
attempt action w = elim (action w) [ none ↦ none | some (r, v) ↦ some (ok r, v) ]

-- `try: action  finally: cleanup`. An exception of the cleanup takes the place of the result.
unfoldable pub finally : {S A : Type 0} → Action S A → Action S (Unit {0}) → Action S A
finally action cleanup w = elim (action w) [
  | none ↦ none
  | some (r, v) ↦ elim (cleanup v) [
    | none ↦ none
    | some (ok _, u) ↦ some (r, u)
    | some (err e, u) ↦ some (err e, u)
  ]
]

-- `while True: body`, where the body returns a value, or comes to its end with `none`. The number of
-- rounds bounds the loop.
unfoldable pub repeat : {S A : Type 0} → ℕ → Action S (Option A) → Action S A
repeat zero body w = none
repeat (suc rounds) body w =
    (body >>= λ r. elim r [ none ↦ repeat rounds body | some a ↦ pure a ]) w
