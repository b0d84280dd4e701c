-- ===== src/Machine.antt =====
-- Machine integers as the build sees them: `usize` is 32 bits wide in the RISC Zero guest and 64
-- on the host, and a plain `+` that overflows panics in a debug build and wraps in a release build.
use arm_multisig_application.Base.{
  ℕ, ◌+◌, ◌-◌, ◌%◌, ◌^◌, Bool, ◌&&◌, List, Option, none, some, Outcome, ok, panic, ltb, leb,
  if◌then◌else◌, length, take, drop, get_elem?,
}

pub data Target : Type 0 where
  guest host : Target

pub record Build : Type 0 where
  pub target : Target
  pub overflow_checks : Bool

-- 2 to the width of `usize`
abbrev pub usize_mod : Target → ℕ
usize_mod guest = 2 ^ 32
usize_mod host = 2 ^ 64

abbrev pub u128_mod : ℕ
u128_mod = 2 ^ 128

-- `u128::checked_add`
unfoldable pub checked_add : ℕ → ℕ → ℕ → Option ℕ
checked_add modulus a b = if ltb (a + b) modulus then some (a + b) else none

module _ (b : Build) where
  -- `x as usize`
  unfoldable pub as_usize : ℕ → ℕ
  as_usize x = x % usize_mod b.target

  -- `x + y` on `usize`
  unfoldable pub add_usize : {E : Type 0} → ℕ → ℕ → Outcome E ℕ
  add_usize x y =
      if ltb (x + y) (usize_mod b.target)
      then ok (x + y)
      else if b.overflow_checks
      then panic
      else ok ((x + y) % usize_mod b.target)

  -- `x + y` on `u128`
  unfoldable pub add_u128 : {E : Type 0} → ℕ → ℕ → Outcome E ℕ
  add_u128 x y =
      if ltb (x + y) u128_mod
      then ok (x + y)
      else if b.overflow_checks
      then panic
      else ok ((x + y) % u128_mod)

  -- `x - y` on `u128`
  unfoldable pub sub_u128 : {E : Type 0} → ℕ → ℕ → Outcome E ℕ
  sub_u128 x y =
      if leb y x then ok (x - y) else if b.overflow_checks then panic else ok (x + u128_mod - y)

-- `&xs[start..end]`
unfoldable pub slice : {A E : Type 0} → List A → ℕ → ℕ → Outcome E (List A)
slice xs start end =
    if leb start end && leb end (length xs) then ok (take (end - start) (drop start xs)) else panic

-- `xs[i]`
unfoldable pub index : {A E : Type 0} → List A → ℕ → Outcome E A
index xs i = elim (get_elem? xs i) [ some x ↦ ok x | none ↦ panic ]
