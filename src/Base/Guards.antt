-- ===== src/Base/Guards.antt =====
-- The guards of the branches that compare two values, and the errors that they make.
use arm_multisig_application.Base.{
  ℕ, ◌≡◌, ◌≢◌, ◌↔◌, Bool, true, not, Outcome, ◌>>◌, reject_if, AllErrors, reject_if-AllErrors,
  last_reject_if-AllErrors, not-eq_true, not-eq_false, ◌==◌, ==_iff,
}
use arm_multisig_application.Base.Bytes.{Bytes, bytes_eq, not-bytes_eq, not-bytes_eq-ne}

module _ {E : Type 0} (P : E → Type 0) where
  -- `if a != b { return Err(d) }` with a test that decides equality
  pub test-AllErrors :
      {A X : Type 0} {a b : X} {test : Bool} (d : E) (m : Outcome E A)
      → (test ≡ true) ↔ (a ≡ b)
      → (a ≢ b → P d)
      → (a ≡ b → AllErrors P m)
      → AllErrors P (reject_if (not test) d >> m)
  test-AllErrors d m decides h k =
      reject_if-AllErrors P (not _) d m (λ differs. h (λ e. cc (not-eq_true differs, decides.1 e)))
        (λ same. k (decides.0 (not-eq_false same)))

  -- The same for byte arrays.
  pub bytes_test-AllErrors :
      {A : Type 0} (xs ys : Bytes) (d : E) (m : Outcome E A)
      → (xs ≢ ys → P d)
      → (xs ≡ ys → AllErrors P m)
      → AllErrors P (reject_if (not (bytes_eq xs ys)) d >> m)
  bytes_test-AllErrors xs ys d m h k =
      reject_if-AllErrors P (not (bytes_eq xs ys)) d m
        (λ differs. h (not-bytes_eq-ne xs ys differs)) (λ same. k (not-bytes_eq xs ys same))

  -- The same at the end of a body.
  pub last_bytes_test-AllErrors :
      (xs ys : Bytes) (d : E) → (xs ≢ ys → P d) → AllErrors P (reject_if (not (bytes_eq xs ys)) d)
  last_bytes_test-AllErrors xs ys d h =
      last_reject_if-AllErrors P (not (bytes_eq xs ys)) d
        (λ differs. h (not-bytes_eq-ne xs ys differs))

  -- The same for numbers.
  pub number_test-AllErrors :
      {A : Type 0} (x y : ℕ) (d : E) (m : Outcome E A)
      → (x ≢ y → P d)
      → (x ≡ y → AllErrors P m)
      → AllErrors P (reject_if (not (x == y)) d >> m)
  number_test-AllErrors x y d m = test-AllErrors d m (==_iff x y)
