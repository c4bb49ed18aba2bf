-- ===== src/Transport/TransactionId/Cycle.antt =====
-- The order in which the transaction ids are handed out.
use native.Mathlib.Nat.{mod-lt, zero-lt-suc, mod-eq_of_lt, mod_self}
use dryve_d.Base.{
  dec_lt, ℕ, zero, suc, ◌+◌, ◌-◌, ◌%◌, ◌≤◌, ◌<◌, ◌≡◌, ◌≢◌, refl, sym, ◌∙◌, subst, leb, arith,
  if◌then◌else◌,
}
use dryve_d.Transport.TransactionId.{Generator, or_one, new, next, align}

-- The next id is one that can be sent.
pub record IsValid (g : Generator) : Type 0 where
  pub not_zero : 1 ≤ g.next_id
  pub not_beyond : g.next_id ≤ g.max_value

-- The state after `k` calls of `next`.
unfoldable pub after : ℕ → Generator → Generator
unfolding next
after zero g = g
after (suc k) g = (next (after k g)).1

wrapped : (value m : ℕ) → 1 ≤ m → (1 ≤ or_one (value % suc m)) × (or_one (value % suc m) ≤ m)
wrapped value m h = ground (arith, mod-lt value (zero-lt-suc m))

-- A generator starts with an id between 1 and its limit.
pub new-IsValid : (start max_value : ℕ) → 1 ≤ max_value → IsValid (new start max_value)
unfolding new
new-IsValid start m h = let w = wrapped start m h in record { not_zero = w.0; not_beyond = w.1 }

-- `align` and `next` keep the next id between 1 and the limit.
pub align-IsValid :
    (next_value : ℕ) (g : Generator) → 1 ≤ g.max_value → IsValid (align next_value g)
unfolding align
align-IsValid value g h =
    let w = wrapped value g.max_value h in record { not_zero = w.0; not_beyond = w.1 }

pub next-IsValid : (g : Generator) → IsValid g → IsValid (next g).1
unfolding next
next-IsValid g v =
    let w = wrapped (suc g.next_id) g.max_value (omega arith) in
    record { not_zero = w.0; not_beyond = w.1 }

step-id : (t m : ℕ) → 1 ≤ t → t ≤ m → or_one (suc t % suc m) ≡ (if leb (suc t) m then suc t else 1)
step-id t m h k = elim (dec_lt t m) [
  | yes l ↦ rw (mod-eq_of_lt {n = suc t} {m = suc m} (omega arith)) (ground arith)
  | no l ↦
      let q : t ≡ m = omega arith in
      subst (λ x. or_one (suc x % suc m) ≡ (if leb (suc x) m then suc x else 1)) (sym q)
        (rw (mod_self (suc m)) (ground arith))
]

same-limit : (k : ℕ) (g : Generator) → (after k g).max_value ≡ g.max_value
unfolding after
same-limit zero g = refl
same-limit (suc k) g = same-limit k g

after-IsValid : (k : ℕ) (g : Generator) → IsValid g → IsValid (after k g)
unfolding after
after-IsValid zero g v = v
after-IsValid (suc k) g v = next-IsValid (after k g) (after-IsValid k g v)

-- The id after `k` calls, for `k` up to the limit: it counts up, and starts again at 1.
pub after-id :
    (k : ℕ) (g : Generator)
    → IsValid g
    → k ≤ g.max_value
    → (after k g).next_id
      ≡ (if leb (g.next_id + k) g.max_value then g.next_id + k else g.next_id + k - g.max_value)
unfolding after
after-id zero g v h = ground arith
after-id (suc k) g v h =
    let x = after-IsValid k g v in
    let limit = same-limit k g in
    let here = after-id k g v (omega arith) in
    let q = step-id (after k g).next_id (after k g).max_value x.not_zero x.not_beyond in
    q ∙ ground arith

-- Every id that `next` hands out is between 1 and the limit, and it comes again only after all
-- the ids of the range were handed out.
pub next-distinct :
    (k : ℕ) (g : Generator)
    → IsValid g
    → 1 ≤ k
    → k < g.max_value
    → (next (after k g)).0 ≢ (next g).0
unfolding next
next-distinct k g v h l = λ q. ground (arith, after-id k g v (omega arith))
