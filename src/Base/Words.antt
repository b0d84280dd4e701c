-- ===== src/Base/Words.antt =====
-- Fixed-width integers as byte strings.
use arm_multisig_application.Base.Lists.{length, length-append, replicate, All}
use arm_multisig_application.Base.Bytes.{Bytes, IsByte}
use Prim.Native.Nat.{ℕ, zero, suc, ◌+◌, ◌*◌, ◌/◌, ◌%◌, ◌^◌, ◌<◌}
use mathlib.Core.Path.{◌≡◌, refl, ◌∙◌, ap₂}
use mathlib.Core.Logic.{inl, inr}
use mathlib.Core.List.{[], ◌∷◌, ◌++◌}
use native.Mathlib.Omega.{arith}
use native.Mathlib.Nat.{
  pow-suc, mul_comm, mul_assoc, mul-le-mul_right, add-mul, one-le-pow, lt_of_lt_of_le,
  eq-zero-or-pos,
}

-- `u32::to_le_bytes`
unfoldable pub to_le_bytes : ℕ → Bytes
to_le_bytes n = n % 256 ∷ n / 256 % 256 ∷ n / 65536 % 256 ∷ n / 16777216 % 256 ∷ []

-- The number that a byte string stands for, its first byte the most significant: on 16 bytes this
-- is `u128::from_be_bytes`.
from_be : ℕ → Bytes → ℕ
from_be acc [] = acc
from_be acc (b ∷ bs) = from_be (acc * 256 + b) bs

unfoldable pub from_be_bytes : Bytes → ℕ
unfolding from_be
from_be_bytes bs = from_be 0 bs

-- The last `k` bytes of `n`, most significant first: `u128::to_be_bytes` is `k = 16`.
unfoldable pub to_be : ℕ → ℕ → Bytes
to_be zero n = []
to_be (suc k) n = to_be k (n / 256) ++ n % 256 ∷ []

pub length-to_le_bytes : (n : ℕ) → length (to_le_bytes n) ≡ 4
unfolding to_le_bytes
length-to_le_bytes n = refl

pub to_le_bytes_inj : (a b : ℕ) → a < 2 ^ 32 → b < 2 ^ 32 → to_le_bytes a ≡ to_le_bytes b → a ≡ b
unfolding to_le_bytes
to_le_bytes_inj a b ha hb h = ground arith

pub length-to_be : (k n : ℕ) → length (to_be k n) ≡ k
unfolding to_be
length-to_be zero n = refl
length-to_be (suc k) n =
    omega (arith, length-append (to_be k (n / 256)) (n % 256 ∷ []), length-to_be k (n / 256))

from_be-append : (acc : ℕ) (xs ys : Bytes) → from_be acc (xs ++ ys) ≡ from_be (from_be acc xs) ys
unfolding from_be
from_be-append acc [] ys = refl
from_be-append acc (x ∷ xs) ys = from_be-append (acc * 256 + x) xs ys

from_be-to_be : (k n : ℕ) → n < 256 ^ k → from_be 0 (to_be k n) ≡ n
unfolding from_be to_be
from_be-to_be zero n h = omega arith
from_be-to_be (suc k) n h =
    rw from_be-append (rw (from_be-to_be k (n / 256) (omega (arith, pow-suc 256 k))) (omega arith))

shifted-lt : (acc b p x : ℕ) → b < 256 → x < (acc * 256 + b + 1) * p → x < (acc + 1) * (p * 256)
shifted-lt acc b p x hb h =
    lt_of_lt_of_le h (rw (mul_comm p 256, ← mul_assoc) (mul-le-mul_right p (omega arith)))

from_be-lt : (acc : ℕ) (bs : Bytes) → All IsByte bs → from_be acc bs < (acc + 1) * 256 ^ length bs
unfolding from_be
from_be-lt acc [] h = omega arith
from_be-lt acc (b ∷ bs) (hb, hs) =
    rw pow-suc (shifted-lt acc b (256 ^ length bs) _ hb (from_be-lt (acc * 256 + b) bs hs))

-- The number that `k` bytes stand for is below `256 ^ k`.
pub from_be_bytes-lt : (bs : Bytes) → All IsByte bs → from_be_bytes bs < 256 ^ length bs
unfolding from_be_bytes
from_be_bytes-lt bs h = omega (arith, from_be-lt 0 bs h)

-- Writing a number in `k` bytes and reading it back gives the number.
pub from_be_bytes-to_be : (k n : ℕ) → n < 256 ^ k → from_be_bytes (to_be k n) ≡ n
unfolding from_be_bytes
from_be_bytes-to_be k n h = from_be-to_be k n h

from_be-shift : (acc : ℕ) (bs : Bytes) → from_be acc bs ≡ acc * 256 ^ length bs + from_be 0 bs
unfolding from_be
from_be-shift acc [] = omega arith
from_be-shift acc (b ∷ bs) =
    let p = 256 ^ length bs in
    let shifted : acc * 256 ^ suc (length bs) ≡ acc * 256 * p =
      rw (pow-suc, mul_comm p 256, ← mul_assoc) refl in
    omega (
      arith,
      shifted,
      from_be-shift (acc * 256 + b) bs,
      from_be-shift (0 * 256 + b) bs,
      add-mul (acc * 256) b p,
      add-mul (0 * 256) b p,
    )

-- A byte string is a number of its first bytes and a number of its last ones.
pub from_be_bytes-append :
    (xs ys : Bytes)
    → from_be_bytes (xs ++ ys) ≡ from_be_bytes xs * 256 ^ length ys + from_be_bytes ys
unfolding from_be_bytes
from_be_bytes-append xs ys = from_be-append 0 xs ys ∙ from_be-shift (from_be 0 xs) ys

pub from_be_bytes-zeros : from_be_bytes (replicate 16 0) ≡ 0
unfolding from_be_bytes from_be
from_be_bytes-zeros = refl

-- Only zeros stand for 0.
pub from_be_bytes-eq-zero : (bs : Bytes) → from_be_bytes bs ≡ 0 → bs ≡ replicate (length bs) 0
unfolding from_be_bytes from_be
from_be_bytes-eq-zero [] h = refl
from_be_bytes-eq-zero (b ∷ bs) h =
    let p = 256 ^ length bs in
    let pos = one-le-pow (length bs) 256 (omega arith) in
    let whole = from_be-shift (0 * 256 + b) bs in
    let zero_b : b ≡ 0 = elim (eq-zero-or-pos b) [
      | inl e ↦ e
      | inr k ↦
          absurd
            (omega (arith, whole, pos, mul-le-mul_right {m = 1} {n = 0 * 256 + b} p (omega arith)))
    ] in
    let zero_bs : from_be 0 bs ≡ 0 = omega (arith, whole) in
    ap₂ ◌∷◌ zero_b (from_be_bytes-eq-zero bs zero_bs)
