-- ===== src/Base/Refusals.antt =====
-- Which errors a body can end with, guard by guard.
use arm_multisig_application.Base.Outcomes.{
  Outcome, ok, err, panic, ◌>>=◌, ◌>>◌, reject_if, ok_or, some_or,
}
use mathlib.Core.Path.{◌≡◌, refl, sym, subst}
use mathlib.Core.Logic.{◌≢◌, ◌⊎◌, inl, inr}
use mathlib.Core.Bool.{Bool, true, false}
use mathlib.Core.Option.{Option, none, some}

-- Every error that `m` ends with has the property.
abbrev pub AllErrors : {E A : Type 0} → (E → Type 0) → Outcome E A → Type 0
AllErrors {E = E} P m = (e : E) → m ≡ err e → P e

err_inj : {E A : Type 0} {d e : E} → ◌≡◌ {A = Outcome E A} (err d) (err e) → d ≡ e
err_inj h = cc

module _ {E : Type 0} (P : E → Type 0) where
  -- An error alone.
  pub err-AllErrors : {A : Type 0} (d : E) → P d → AllErrors {A = A} P (err d)
  err-AllErrors d h e k = subst P (err_inj k) h

  pub ok-AllErrors : {A : Type 0} (a : A) → AllErrors {A = A} P (ok a)
  ok-AllErrors a e k = cc k

  -- The errors of a call, and of what follows its value.
  pub >>=-AllErrors :
      {X Y : Type 0} (first : Outcome E X) (rest : X → Outcome E Y)
      → AllErrors P first
      → ((x : X) → first ≡ ok x → AllErrors P (rest x))
      → AllErrors P (first >>= rest)
  >>=-AllErrors panic rest h k e stopped = cc stopped
  >>=-AllErrors (err d) rest h k e stopped = subst P (err_inj stopped) (h d refl)
  >>=-AllErrors (ok x) rest h k e stopped = k x refl e stopped

  -- A guard's error where its condition holds, and the errors of what follows where it does not.
  pub reject_if-AllErrors :
      {A : Type 0} (b : Bool) (d : E) (m : Outcome E A)
      → (b ≡ true → P d)
      → (b ≡ false → AllErrors P m)
      → AllErrors P (reject_if b d >> m)
  reject_if-AllErrors true d m h k e stopped = subst P (err_inj stopped) (h refl)
  reject_if-AllErrors false d m h k e stopped = k refl e stopped

  -- The same for a guard that ends the body.
  pub last_reject_if-AllErrors : (b : Bool) (d : E) → (b ≡ true → P d) → AllErrors P (reject_if b d)
  last_reject_if-AllErrors true d h e stopped = subst P (err_inj stopped) (h refl)
  last_reject_if-AllErrors false d h e stopped = cc stopped

  pub some_or-AllErrors :
      {A : Type 0} (o : Option A) (d : E) → (o ≡ none → P d) → AllErrors P (some_or o d)
  some_or-AllErrors none d h e stopped = subst P (err_inj stopped) (h refl)
  some_or-AllErrors (some a) d h e stopped = cc stopped

  -- A parser has one error.
  pub ok_or-AllErrors :
      {A : Type 0} (m : Outcome (Unit {0}) A) (d : E) → (m ≡ err tt → P d) → AllErrors P (ok_or m d)
  ok_or-AllErrors panic d h e stopped = cc stopped
  ok_or-AllErrors (err tt) d h e stopped = subst P (err_inj stopped) (h refl)
  ok_or-AllErrors (ok a) d h e stopped = cc stopped

  -- A step with one error fails with it where it does not pass.
  pub one_error-AllErrors :
      {m : Outcome E (Unit {0})} (d : E)
      → (m ≡ ok tt) ⊎ (m ≡ err d)
      → (m ≢ ok tt → P d)
      → AllErrors P m
  one_error-AllErrors d (inl passed) h = subst (AllErrors P) (sym passed) (ok-AllErrors tt)
  one_error-AllErrors d (inr failed) h =
      subst (AllErrors P) (sym failed) (err-AllErrors d (h (λ k. cc (failed, k))))

pub fails :
    {E : Type 0} {m : Outcome E (Unit {0})} {d : E}
    → (m ≡ ok tt) ⊎ (m ≡ err d)
    → m ≢ ok tt
    → m ≡ err d
fails (inl passed) h = absurd (h passed)
fails (inr failed) h = failed
