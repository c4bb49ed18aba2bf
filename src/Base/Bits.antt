-- ===== src/Base/Bits.antt =====
-- Single bits of a word, and what `|`, `& ~` and `1 << b` do to them, at every width.
use Prim.Native.Nat.{
  ℕ, zero, suc, ◌+◌, ◌-◌, ◌*◌, ◌/◌, ◌%◌, ◌^◌, ◌≤◌, ◌<◌, min, max, bit_and, bit_or, digits,
  bit_and-bitwise, bit_or-bitwise,
}
use mathlib.Core.Path.{◌≡◌, refl, sym, ap, ap₂, ◌∙◌}
use mathlib.Core.Bool.{Bool, false, not, ◌&&◌, ◌||◌}
use native.Mathlib.Omega.{arith}
use native.Mathlib.Nat.{
  div-div-eq-div-mul, pow-succ', zero-div, one-le-pow, div-add-mod, mod-lt, mod-eq_of_lt,
  add-mul-mod_self_right,
}
use dryve_d.Base.Tests.{◌==◌}

-- `(x >> k) & 1`, as a truth value.
abbrev pub test_bit : ℕ → ℕ → Bool
test_bit x k = x / 2 ^ k % 2 == 1

-- `x & ~y` on words that are not negative: `x` without the bits that it shares with `y`.
abbrev pub and_not : ℕ → ℕ → ℕ
and_not x y = x - bit_and x y

test_bit-suc : (x k : ℕ) → test_bit x (suc k) ≡ test_bit (x / 2) k
test_bit-suc x k =
    ap (λ t. t % 2 == 1) (ap (λ t. x / t) (pow-succ' 2 k) ∙ sym (div-div-eq-div-mul x 2 (2 ^ k)))

-- The native operations stand for a recursion on binary digits whose fuel is its first operand;
-- more fuel changes nothing.
module _ (done : ℕ → ℕ) (op : ℕ → ℕ → ℕ) where
  more_fuel : (x y n m : ℕ) → x ≤ n → x ≤ m → digits done op n x y ≡ digits done op m x y
  more_fuel zero y zero zero h k = refl
  more_fuel zero y zero (suc m) h k = refl
  more_fuel zero y (suc n) zero h k = refl
  more_fuel zero y (suc n) (suc m) h k = refl
  more_fuel (suc x) y zero m h k = absurd (omega arith)
  more_fuel (suc x) y (suc n) zero h k = absurd (omega arith)
  more_fuel (suc x) y (suc n) (suc m) h k =
      ap (λ (t : ℕ). t * 2 + op (suc x % 2) (y % 2))
        (more_fuel (suc x / 2) (y / 2) n m (omega arith) (omega arith))

-- One digit of `|` and of `&`.
bit_or-digit : (x y : ℕ) → bit_or x y ≡ bit_or (x / 2) (y / 2) * 2 + max (x % 2) (y % 2)
bit_or-digit zero y = omega (arith, bit_or-bitwise 0 y, bit_or-bitwise 0 (y / 2))
bit_or-digit (suc x) y = omega (
  arith,
  bit_or-bitwise (suc x) y,
  bit_or-bitwise (suc x / 2) (y / 2),
  more_fuel (λ d. d) max (suc x / 2) (y / 2) x (suc x / 2) (omega arith) (omega arith),
)

bit_and-digit : (x y : ℕ) → bit_and x y ≡ bit_and (x / 2) (y / 2) * 2 + min (x % 2) (y % 2)
bit_and-digit zero y = omega (arith, bit_and-bitwise 0 y, bit_and-bitwise 0 (y / 2))
bit_and-digit (suc x) y = omega (
  arith,
  bit_and-bitwise (suc x) y,
  bit_and-bitwise (suc x / 2) (y / 2),
  more_fuel (λ d. 0) min (suc x / 2) (y / 2) x (suc x / 2) (omega arith) (omega arith),
)

bit_and-le_below : (n x y : ℕ) → x ≤ n → bit_and x y ≤ x
bit_and-le_below n zero y h = omega (arith, bit_and-bitwise 0 y)
bit_and-le_below zero (suc x) y h = absurd (omega arith)
bit_and-le_below (suc n) (suc x) y h =
    omega (arith, bit_and-digit (suc x) y, bit_and-le_below n (suc x / 2) (y / 2) (omega arith))

pub bit_and-le : (x y : ℕ) → bit_and x y ≤ x
bit_and-le x y = bit_and-le_below x x y (omega arith)

-- A bit of `x | y` is set exactly if it is set in `x` or in `y`.
pub test_bit-or : (x y k : ℕ) → test_bit (bit_or x y) k ≡ (test_bit x k || test_bit y k)
test_bit-or x y zero = ground (arith, bit_or-digit x y)
test_bit-or x y (suc k) =
    test_bit-suc (bit_or x y) k
    ∙ ap (λ t. test_bit t k) (omega (arith, bit_or-digit x y))
    ∙ test_bit-or (x / 2) (y / 2) k
    ∙ sym (ap₂ ◌||◌ (test_bit-suc x k) (test_bit-suc y k))

-- A bit of `x & ~y` is set exactly if it is set in `x` and not in `y`.
pub test_bit-and_not : (x y k : ℕ) → test_bit (and_not x y) k ≡ (test_bit x k && not (test_bit y k))
test_bit-and_not x y zero = ground (arith, bit_and-digit x y, bit_and-le (x / 2) (y / 2))
test_bit-and_not x y (suc k) =
    test_bit-suc (and_not x y) k
    ∙ ap (λ t. test_bit t k) (omega (arith, bit_and-digit x y, bit_and-le (x / 2) (y / 2)))
    ∙ test_bit-and_not (x / 2) (y / 2) k
    ∙ sym (ap₂ (λ b c. b && not c) (test_bit-suc x k) (test_bit-suc y k))

pub test_bit-zero : (k : ℕ) → test_bit 0 k ≡ false
test_bit-zero k = ap (λ t. t % 2 == 1) (zero-div (2 ^ k))

-- `1 << j` has the bit `j` and no other.
pub test_bit-pow : (j k : ℕ) → test_bit (2 ^ j) k ≡ (j == k)
test_bit-pow zero zero = refl
test_bit-pow zero (suc k) = test_bit-suc 1 k ∙ test_bit-zero k ∙ ground arith
test_bit-pow (suc j) zero = ground (arith, pow-succ' 2 j)
test_bit-pow (suc j) (suc k) =
    test_bit-suc (2 ^ suc j) k
    ∙ ap (λ t. test_bit t k) (omega (arith, pow-succ' 2 j))
    ∙ test_bit-pow j k
    ∙ ground arith

bit_and-le_right_below : (n x y : ℕ) → x ≤ n → bit_and x y ≤ y
bit_and-le_right_below n zero y h = omega (arith, bit_and-bitwise 0 y)
bit_and-le_right_below zero (suc x) y h = absurd (omega arith)
bit_and-le_right_below (suc n) (suc x) y h =
    omega
      (arith, bit_and-digit (suc x) y, bit_and-le_right_below n (suc x / 2) (y / 2) (omega arith))

pub bit_and-le_right : (x y : ℕ) → bit_and x y ≤ y
bit_and-le_right x y = bit_and-le_right_below x x y (omega arith)

halve_sum : (x p : ℕ) → 0 < p → x / 2 ≡ x % (2 * p) / 2 + x / (2 * p) * p
halve_sum x p h = omega (arith, div-add-mod x (2 * p))

halve_mod : (x p : ℕ) → 0 < p → x % (2 * p) / 2 ≡ x / 2 % p
halve_mod x p h =
    sym (mod-eq_of_lt (halved_lt (mod-lt x (omega arith))))
    ∙ sym (add-mul-mod_self_right (x % (2 * p) / 2) (x / (2 * p)) p)
    ∙ ap (λ t. t % p) (sym (halve_sum x p h))
  where
    halved_lt : x % (2 * p) < 2 * p → x % (2 * p) / 2 < p
    halved_lt b = omega arith

mod_even : (x p : ℕ) → x % (2 * p) % 2 ≡ x % 2
mod_even x p = omega (arith, div-add-mod x (2 * p))

-- A mask of `n` bits sees only the low `n` bits of a word.
pub bit_and-low : (n x m : ℕ) → m < 2 ^ n → bit_and x m ≡ bit_and (x % 2 ^ n) m
bit_and-low zero x m h = omega (arith, bit_and-le_right x m, bit_and-le_right (x % 2 ^ zero) m)
bit_and-low (suc n) x m h = rw (pow-succ' 2 n) (
    omega (
      arith,
      bit_and-digit x m,
      bit_and-digit (x % (2 * 2 ^ n)) m,
      bit_and-low n (x / 2) (m / 2) (omega (arith, pow-succ' 2 n)),
      ap (λ (t : ℕ). bit_and t (m / 2)) (halve_mod x (2 ^ n) (one-le-pow n 2 (omega arith))),
      mod_even x (2 ^ n),
    ))
