-- ===== src/Base/Bits.antt =====
-- Bit operations on numbers that are written as fields of bits.
use Prim.Native.Nat.{
  ℕ, zero, suc, ◌+◌, ◌-◌, ◌*◌, ◌/◌, ◌%◌, ◌^◌, ◌≤◌, ◌<◌, min, max, digits, bitwise, bit_and, bit_or,
  bit_and-bitwise, bit_or-bitwise,
}
use mathlib.Core.Path.{◌≡◌, refl, ap, ap₂, ◌∙◌}
use native.Mathlib.Omega.{arith}
use native.Mathlib.Nat.{pow-suc, one-le-pow, mul_assoc}

module _ (z : ℕ → ℕ) (f : ℕ → ℕ → ℕ) (low : (b : ℕ) → z b ≡ z (b / 2) * 2 + f 0 (b % 2)) where
  -- All fuels that reach the first number are alike.
  same_digits :
      (fuel other a b : ℕ) → a ≤ fuel → a ≤ other → digits z f fuel a b ≡ digits z f other a b
  same_digits zero zero zero b h k = refl
  same_digits zero (suc other) zero b h k = refl
  same_digits (suc fuel) zero zero b h k = refl
  same_digits (suc fuel) (suc other) zero b h k = refl
  same_digits zero other (suc a) b h k = absurd (omega arith)
  same_digits (suc fuel) zero (suc a) b h k = absurd (omega arith)
  same_digits (suc fuel) (suc other) (suc a) b h k =
      ap (λ n. n * 2 + f (suc a % 2) (b % 2))
        (same_digits fuel other (suc a / 2) (b / 2) (omega arith) (omega arith))

  -- The lowest digit, and the rest.
  bitwise-low : (a b : ℕ) → bitwise z f a b ≡ bitwise z f (a / 2) (b / 2) * 2 + f (a % 2) (b % 2)
  bitwise-low zero b = low b
  bitwise-low (suc a) b =
      ap (λ n. n * 2 + f (suc a % 2) (b % 2))
        (same_digits a (suc a / 2) (suc a / 2) (b / 2) (omega arith) (omega arith))

twice : (x k : ℕ) → x * 2 ^ suc k ≡ x * 2 ^ k * 2
twice x k = omega (arith, ap (λ (n : ℕ). x * n) (pow-suc 2 k), mul_assoc x (2 ^ k) 2)

-- An operation that goes digit by digit goes field by field.
module _ (op f : ℕ → ℕ → ℕ) (none : op 0 0 ≡ 0)
    (low : (a b : ℕ) → op a b ≡ op (a / 2) (b / 2) * 2 + f (a % 2) (b % 2)) where
  op-fields :
      (k x y r s : ℕ)
      → r < 2 ^ k
      → s < 2 ^ k
      → op (x * 2 ^ k + r) (y * 2 ^ k + s) ≡ op x y * 2 ^ k + op r s
  op-fields zero x y r s hr hs =
      let r0 : r ≡ 0 = omega arith in
      let s0 : s ≡ 0 = omega arith in
      let same_x : x * 2 ^ 0 + 0 ≡ x = omega arith in
      let same_y : y * 2 ^ 0 + 0 ≡ y = omega arith in
      rw (r0, s0, none) (ap₂ op same_x same_y ∙ omega arith)
  op-fields (suc k) x y r s hr hs =
      let upper =
        op-fields k x y (r / 2) (s / 2) (omega (arith, pow-suc 2 k)) (omega (arith, pow-suc 2 k)) in
      let half_x : (x * 2 ^ suc k + r) / 2 ≡ x * 2 ^ k + r / 2 = omega (arith, twice x k) in
      let half_y : (y * 2 ^ suc k + s) / 2 ≡ y * 2 ^ k + s / 2 = omega (arith, twice y k) in
      let odd_x : (x * 2 ^ suc k + r) % 2 ≡ r % 2 = omega (arith, twice x k) in
      let odd_y : (y * 2 ^ suc k + s) % 2 ≡ s % 2 = omega (arith, twice y k) in
      let whole : op (x * 2 ^ suc k + r) (y * 2 ^ suc k + s)
          ≡ op (x * 2 ^ k + r / 2) (y * 2 ^ k + s / 2) * 2 + f (r % 2) (s % 2) =
        low (x * 2 ^ suc k + r) (y * 2 ^ suc k + s)
        ∙ ap₂ (λ m n. m * 2 + n) (ap₂ op half_x half_y) (ap₂ f odd_x odd_y) in
      omega (arith, whole, upper, low r s, twice (op x y) k)

pub bit_and-low : (a b : ℕ) → bit_and a b ≡ bit_and (a / 2) (b / 2) * 2 + min (a % 2) (b % 2)
bit_and-low a b = simp bit_and-bitwise (bitwise-low (λ n. 0) min (λ b. omega arith) a b)

pub bit_or-low : (a b : ℕ) → bit_or a b ≡ bit_or (a / 2) (b / 2) * 2 + max (a % 2) (b % 2)
bit_or-low a b = simp bit_or-bitwise (bitwise-low (λ n. n) max (λ b. omega arith) a b)

-- With no ones, and with `k` ones.
and_zero : (k a : ℕ) → a < 2 ^ k → bit_and a 0 ≡ 0
and_zero zero a h = let z : a ≡ 0 = omega arith in rw z refl
and_zero (suc k) a h =
    omega (arith, bit_and-low a 0, and_zero k (a / 2) (omega (arith, pow-suc 2 k)))

and_ones : (k a : ℕ) → a < 2 ^ k → bit_and a (2 ^ k - 1) ≡ a
and_ones zero a h = let z : a ≡ 0 = omega arith in rw z refl
and_ones (suc k) a h =
    let half : (2 ^ suc k - 1) / 2 ≡ 2 ^ k - 1 = omega (arith, pow-suc 2 k, one-le-pow k 2) in
    let odd : (2 ^ suc k - 1) % 2 ≡ 1 = omega (arith, pow-suc 2 k, one-le-pow k 2) in
    bit_and-low a (2 ^ suc k - 1)
    ∙ rw (half, odd) (omega (arith, and_ones k (a / 2) (omega (arith, pow-suc 2 k))))

or_zero : (k a : ℕ) → a < 2 ^ k → bit_or a 0 ≡ a
or_zero zero a h = let z : a ≡ 0 = omega arith in rw z refl
or_zero (suc k) a h = omega (arith, bit_or-low a 0, or_zero k (a / 2) (omega (arith, pow-suc 2 k)))

-- Byte by byte.
pub bit_and-byte :
    (x y r s : ℕ)
    → r < 256
    → s < 256
    → bit_and (x * 256 + r) (y * 256 + s) ≡ bit_and x y * 256 + bit_and r s
bit_and-byte x y r s hr hs = op-fields bit_and min refl bit_and-low 8 x y r s hr hs

pub bit_or-byte :
    (x y r s : ℕ)
    → r < 256
    → s < 256
    → bit_or (x * 256 + r) (y * 256 + s) ≡ bit_or x y * 256 + bit_or r s
bit_or-byte x y r s hr hs = op-fields bit_or max refl bit_or-low 8 x y r s hr hs

pub byte-and_zero : (a : ℕ) → a < 256 → bit_and a 0 ≡ 0
byte-and_zero a h = and_zero 8 a h

pub byte-and_ones : (a : ℕ) → a < 256 → bit_and a 255 ≡ a
byte-and_ones a h = and_ones 8 a h

pub byte-or_zero : (a : ℕ) → a < 256 → bit_or a 0 ≡ a
byte-or_zero a h = or_zero 8 a h

pub zero-or_byte : (a : ℕ) → bit_or 0 a ≡ a
zero-or_byte a = simp bit_or-bitwise refl
