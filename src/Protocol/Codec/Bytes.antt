-- ===== src/Protocol/Codec/Bytes.antt =====
-- The loops of `to_bytes` and `from_bytes`.
use mathlib.Core.List.{reverse-reverse, reverse-cons}
use dryve_d.Base.{
  ℕ, zero, suc, ◌+◌, ◌*◌, ◌/◌, ◌^◌, ◌<◌, ◌≡◌, refl, sym, ap, ◌∙◌, List, [], ◌∷◌, ◌++◌, reverse,
  length, length-reverse, All, IsByte, IsBytes, arith,
}
use dryve_d.Protocol.Codec.{Endian, to_bytes_le, to_bytes, from_bytes_le, from_bytes}
use native.Mathlib.Nat.{pow-succ'}

length-to_bytes_le : (k n : ℕ) → length (to_bytes_le k n) ≡ k
unfolding to_bytes_le
length-to_bytes_le zero n = refl
length-to_bytes_le (suc k) n = ap suc (length-to_bytes_le k (n / 256))

to_bytes_le-IsBytes : (k n : ℕ) → IsBytes (to_bytes_le k n)
unfolding to_bytes_le
to_bytes_le-IsBytes zero n = tt
to_bytes_le-IsBytes (suc k) n = (omega arith, to_bytes_le-IsBytes k (n / 256))

All-append {ℓ κ} :
    {A : Type ℓ} (P : A → Type κ) (xs ys : List A) → All P xs → All P ys → All P (xs ++ ys)
All-append P [] ys h k = k
All-append P (x ∷ xs) ys (p, h) k = (p, All-append P xs ys h k)

pub All-reverse {ℓ κ} : {A : Type ℓ} (P : A → Type κ) (xs : List A) → All P xs → All P (reverse xs)
All-reverse P [] h = h
All-reverse P (x ∷ xs) (p, h) =
    rw reverse-cons (All-append P (reverse xs) (x ∷ []) (All-reverse P xs h) (p, tt))

from_bytes_le-to_bytes_le : (k n : ℕ) → n < 256 ^ k → from_bytes_le (to_bytes_le k n) ≡ n
unfolding to_bytes_le from_bytes_le
from_bytes_le-to_bytes_le zero n h = omega arith
from_bytes_le-to_bytes_le (suc k) n h =
    omega (
      arith,
      pow-succ' 256 k,
      from_bytes_le-to_bytes_le k (n / 256) (omega (arith, pow-succ' 256 k)),
    )

to_bytes_le-from_bytes_le :
    (bs : List ℕ) → IsBytes bs → to_bytes_le (length bs) (from_bytes_le bs) ≡ bs
unfolding to_bytes_le from_bytes_le
to_bytes_le-from_bytes_le [] h = refl
to_bytes_le-from_bytes_le (b ∷ bs) (p, h) = ground (arith, to_bytes_le-from_bytes_le bs h, split)
  where
    split : (b + 256 * from_bytes_le bs) / 256 ≡ from_bytes_le bs
    split = omega arith

from_bytes_le-lt : (bs : List ℕ) → IsBytes bs → from_bytes_le bs < 256 ^ length bs
unfolding from_bytes_le
from_bytes_le-lt [] h = omega arith
from_bytes_le-lt (b ∷ bs) (p, h) = omega (arith, pow-succ' 256 (length bs), from_bytes_le-lt bs h)

pub length-to_bytes : (k : ℕ) (e : Endian) (n : ℕ) → length (to_bytes k e n) ≡ k
unfolding to_bytes
length-to_bytes k Endian.little n = length-to_bytes_le k n
length-to_bytes k Endian.big n = length-reverse (to_bytes_le k n) ∙ length-to_bytes_le k n

pub to_bytes-IsBytes : (k : ℕ) (e : Endian) (n : ℕ) → IsBytes (to_bytes k e n)
unfolding to_bytes
to_bytes-IsBytes k Endian.little n = to_bytes_le-IsBytes k n
to_bytes-IsBytes k Endian.big n = All-reverse IsByte _ (to_bytes_le-IsBytes k n)

pub from_bytes-to_bytes :
    (k : ℕ) (e : Endian) (n : ℕ) → n < 256 ^ k → from_bytes e (to_bytes k e n) ≡ n
unfolding to_bytes from_bytes
from_bytes-to_bytes k Endian.little n h = from_bytes_le-to_bytes_le k n h
from_bytes-to_bytes k Endian.big n h = rw reverse-reverse (from_bytes_le-to_bytes_le k n h)

pub to_bytes-from_bytes :
    (e : Endian) (bs : List ℕ) → IsBytes bs → to_bytes (length bs) e (from_bytes e bs) ≡ bs
unfolding to_bytes from_bytes
to_bytes-from_bytes Endian.little bs h = to_bytes_le-from_bytes_le bs h
to_bytes-from_bytes Endian.big bs h =
    ap (λ k. reverse (to_bytes_le k (from_bytes_le (reverse bs)))) (sym (length-reverse bs))
    ∙ ap reverse (to_bytes_le-from_bytes_le (reverse bs) (All-reverse IsByte bs h))
    ∙ reverse-reverse bs

pub from_bytes-lt : (e : Endian) (bs : List ℕ) → IsBytes bs → from_bytes e bs < 256 ^ length bs
unfolding from_bytes
from_bytes-lt Endian.little bs h = from_bytes_le-lt bs h
from_bytes-lt Endian.big bs h =
    rw length-reverse at (from_bytes_le-lt (reverse bs) (All-reverse IsByte bs h))
