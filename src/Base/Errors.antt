-- ===== src/Base/Errors.antt =====
-- Python exceptions as values: the exceptions that the driver raises, without their texts.
use Prim.Native.Nat.{ℕ}
use mathlib.Core.Path.{◌≡◌, refl, subst}
use mathlib.Core.Logic.{◌⊎◌, inl, inr}
use mathlib.Core.Bool.{Bool, true, false, ◌||◌}
use mathlib.Core.Option.{Option}
use dryve_d.Base.Tests.{if◌then◌else◌}

pub data Error : Type 0 where
  -- built-in exceptions
  value_error type_error index_error runtime_error : Error
  timeout_error connection_error os_error struct_error : Error
  -- protocol/exceptions.py
  telegram_format telegram_validation response_mismatch motion_aborted : Error
  modbus_gateway : ℕ → ℕ → Option ℕ → Option ℕ → Error
  -- cia402
  state_machine_error state_machine_timeout invalid_boot_state : Error
  precondition_failed fault_reset_error : Error

pub data Result {ℓ} (A : Type ℓ) : Type ℓ where
  ok : A → Result A
  err : Error → Result A

-- What follows a statement that may raise.
infixl 5 ◌>>=◌ ◌>>◌
abbrev pub ◌>>=◌ {ℓ κ} : {A : Type ℓ} {B : Type κ} → Result A → (A → Result B) → Result B
◌>>=◌ statement rest = elim statement [ err raised ↦ err raised | ok value ↦ rest value ]

abbrev pub ◌>>◌ {κ} : {B : Type κ} → Result (Unit {0}) → Result B → Result B
◌>>◌ statement rest = elim statement [ err raised ↦ err raised | ok _ ↦ rest ]

-- `if not condition: raise e`
abbrev pub guard : Bool → Error → Result (Unit {0})
guard condition e = if condition then ok tt else err e

-- Every end of a computation: a value with `P`, or an exception with `E`.
pub data Ensures {ℓ} {A : Type 0} (E : Error → Type 0) (P : A → Type ℓ) : Result A → Type ℓ where
  returns : {a : A} → P a → Ensures E P (ok a)
  raises : {e : Error} → E e → Ensures E P (err e)

err-injective : {A : Type 0} {d e : Error} (r : Result A) → r ≡ err d → r ≡ err e → d ≡ e
err-injective r p q = cc

pub ok-injective : {A : Type 0} {a b : A} → ok a ≡ ok b → a ≡ b
ok-injective q = cc

module _ {ℓ} {A : Type 0} {E : Error → Type 0} {P : A → Type ℓ} where
  pub bind-Ensures :
      {B : Type 0} {Q : B → Type 0} {m : Result B} {f : B → Result A}
      → Ensures E Q m
      → ((b : B) → Q b → Ensures E P (f b))
      → Ensures E P (m >>= f)
  bind-Ensures (returns {a = b} q) k = k b q
  bind-Ensures (raises h) k = raises h

  pub guard-Ensures :
      (b : Bool) (e : Error) {k : Result A}
      → E e
      → (b ≡ true → Ensures E P k)
      → Ensures E P (guard b e >> k)
  guard-Ensures true e h k = k refl
  guard-Ensures false e h k = raises h

  pub or-Ensures :
      (b c : Bool) (e : Error) {k : Result A}
      → E e
      → ((b ≡ true) ⊎ (c ≡ true) → Ensures E P k)
      → Ensures E P (guard (b || c) e >> k)
  or-Ensures true c e h k = k (inl refl)
  or-Ensures false true e h k = k (inr refl)
  or-Ensures false false e h k = raises h

  pub if-Ensures :
      (b : Bool) {x y : Result A}
      → (b ≡ true → Ensures E P x)
      → (b ≡ false → Ensures E P y)
      → Ensures E P (if b then x else y)
  if-Ensures true h k = h refl
  if-Ensures false h k = k refl

  pub Ensures-error : {r : Result A} {e : Error} → Ensures E P r → r ≡ err e → E e
  Ensures-error (returns p) q = cc
  Ensures-error (raises {e = d} h) q = subst E (err-injective _ refl q) h

  pub Ensures-value : {r : Result A} {a : A} → Ensures E P r → r ≡ ok a → P a
  Ensures-value (returns {a = b} p) q = subst P (ok-injective q) p
  Ensures-value (raises h) q = cc

-- A check that ends a function.
pub last-Ensures {ℓ} :
    {E : Error → Type 0} {P : Unit {0} → Type ℓ} (b : Bool) (e : Error)
    → E e
    → (b ≡ true → P tt)
    → Ensures E P (guard b e)
last-Ensures true e h k = returns (k refl)
last-Ensures false e h k = raises h

pub weaken-Ensures {ℓ κ} :
    {A : Type 0} {E : Error → Type 0} {P : A → Type ℓ} {Q : A → Type κ} {r : Result A}
    → ((a : A) → P a → Q a)
    → Ensures E P r
    → Ensures E Q r
weaken-Ensures f (returns {a = a} p) = returns (f a p)
weaken-Ensures f (raises h) = raises h
