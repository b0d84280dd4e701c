-- ===== src/Label/Refusal.antt =====
-- Which policies `LabelPreimage::new` refuses, and with which error.
use arm_multisig_application.Base.{
  ℕ, ◌≤◌, ◌<◌, ◌≡◌, ◌≢◌, ◌↔◌, refl, true, false, not, ◌&&◌, ◌||◌, List, ok, err, AllErrors,
  one_error-AllErrors, fails, ok-AllErrors, >>=-AllErrors, reject_if-AllErrors, ne_false, length,
  replicate, ltb, leb, ◌==◌, arith,
}
use arm_multisig_application.Base.Bytes.{
  Bytes, bytes_eq, bytes_eq→eq, bytes_eq→ne, eq→bytes_eq, ne→bytes_eq,
}
use arm_multisig_application.Constrain.Consumed.Spec.{Ascending}
use arm_multisig_application.Constrain.Consumed.Steps.{
  check_sorted-cases, check_sorted-Ascending, Ascending-check_sorted,
}
use arm_multisig_application.Label.{
  LabelError, LabelPreimage, invalid_n, invalid_k, zero_salt, unsorted_pubkeys, new, check_sorted,
}
use arm_multisig_application.Label.New.{IsPolicy, new-IsPolicy}
use arm_multisig_application.Platform.{Platform}

-- One rule for each place that returns an error, with what is in order where the code gets there.
pub data NoLabel (k : ℕ) (pubkeys : List Bytes) (salt : Bytes) : LabelError → Type 0 where
  too_many : 256 ≤ length pubkeys → NoLabel k pubkeys salt (invalid_n 0)
  bad_n :
      length pubkeys < 256
      → ¬ ((1 ≤ length pubkeys) × (length pubkeys ≤ 32))
      → NoLabel k pubkeys salt (invalid_n (length pubkeys))
  bad_k :
      1 ≤ length pubkeys
      → length pubkeys ≤ 32
      → ¬ ((1 ≤ k) × (k ≤ length pubkeys))
      → NoLabel k pubkeys salt (invalid_k k (length pubkeys))
  salt_is_zero :
      1 ≤ k
      → k ≤ length pubkeys
      → length pubkeys ≤ 32
      → salt ≡ replicate 32 0
      → NoLabel k pubkeys salt zero_salt
  unsorted :
      1 ≤ k
      → k ≤ length pubkeys
      → length pubkeys ≤ 32
      → salt ≢ replicate 32 0
      → ¬ Ascending pubkeys
      → NoLabel k pubkeys salt unsorted_pubkeys

module _ (p : Platform) (token_addr : Bytes) (k : ℕ) (pubkeys : List Bytes) (salt : Bytes) where
  NoLabel-sound : AllErrors (NoLabel k pubkeys salt) (new p token_addr k pubkeys salt)
  unfolding new
  NoLabel-sound =
      let P = NoLabel k pubkeys salt in
      let n = length pubkeys in
      let zeros : Bytes = replicate 32 0 in
      reject_if-AllErrors P (leb 256 n) _ _ (λ h. too_many (ground arith))
        (λ small.
          reject_if-AllErrors P (not (leb 1 n && leb n 32)) _ _
            (λ h. bad_n (ground arith) (λ (lo, hi). ground arith))
            (λ range.
              reject_if-AllErrors P (k == 0 || ltb n k) _ _
                (λ h. bad_k (ground arith) (ground arith) (λ (lo, hi). ground arith))
                (λ threshold.
                  let k1 : 1 ≤ k = ground arith in
                  let kn : k ≤ n = ground arith in
                  let n32 : n ≤ 32 = ground arith in
                  reject_if-AllErrors P (bytes_eq salt zeros) _ _
                    (λ h. salt_is_zero k1 kn n32 (bytes_eq→eq salt zeros h))
                    (λ h.
                      >>=-AllErrors P (check_sorted unsorted_pubkeys pubkeys) _
                        (one_error-AllErrors P _ (check_sorted-cases unsorted_pubkeys pubkeys)
                          (λ fails.
                            unsorted k1 kn n32 (bytes_eq→ne salt zeros h)
                              (λ a. fails (Ascending-check_sorted unsorted_pubkeys pubkeys a))))
                        (λ _ _. ok-AllErrors P _)))))

  -- Where K of N holds, salt and keys decide.
  threshold-new :
      1 ≤ k
      → k ≤ length pubkeys
      → length pubkeys ≤ 32
      → ((leb 256 (length pubkeys) ≡ false)
          × (not (leb 1 (length pubkeys) && leb (length pubkeys) 32) ≡ false)
          × ((k == 0 || ltb (length pubkeys) k) ≡ false))
  threshold-new k1 kn n32 = (ground arith, ground arith, ground arith)

  NoLabel-complete :
      {e : LabelError} → NoLabel k pubkeys salt e → new p token_addr k pubkeys salt ≡ err e
  unfolding new
  NoLabel-complete (too_many h) =
      let many : leb 256 (length pubkeys) ≡ true = ground arith in rw many refl
  NoLabel-complete (bad_n h out) =
      let n = length pubkeys in
      let small : leb 256 n ≡ false = ground arith in
      let bad : not (leb 1 n && leb n 32) ≡ true =
        ne_false (λ k. out (ground arith, ground arith)) in
      rw (small, bad) refl
  NoLabel-complete (bad_k lo hi out) =
      let n = length pubkeys in
      let small : leb 256 n ≡ false = ground arith in
      let range : not (leb 1 n && leb n 32) ≡ false = ground arith in
      let bad : (k == 0 || ltb n k) ≡ true = ne_false (λ h. out (ground arith, ground arith)) in
      rw (small, range, bad) refl
  NoLabel-complete (salt_is_zero k1 kn n32 h) =
      let (small, range, threshold) = threshold-new k1 kn n32 in
      rw (small, range, threshold, eq→bytes_eq salt (replicate 32 0) h) refl
  NoLabel-complete (unsorted k1 kn n32 nonzero h) =
      let (small, range, threshold) = threshold-new k1 kn n32 in
      rw
        (
          small,
          range,
          threshold,
          ne→bytes_eq salt (replicate 32 0) nonzero,
          fails (check_sorted-cases unsorted_pubkeys pubkeys)
              (λ e. h (check_sorted-Ascending unsorted_pubkeys pubkeys e)),
        )
        refl

  -- `LabelPreimage::new` returns a label exactly where 1 ≤ K ≤ N ≤ 32 for the N keys, the salt is
  -- not zero and the keys are strictly ascending, and it is the label of that policy; and it
  -- returns an error exactly where that error's rule holds, which says what is wrong and that what
  -- is checked before is in order.
  pub new-NoLabel :
      ((label : LabelPreimage)
        → (new p token_addr k pubkeys salt ≡ ok label) ↔ IsPolicy p token_addr k pubkeys salt label)
      × ((e : LabelError) → (new p token_addr k pubkeys salt ≡ err e) ↔ NoLabel k pubkeys salt e)
  new-NoLabel = (new-IsPolicy p token_addr k pubkeys salt, λ e. (NoLabel-sound e, NoLabel-complete))
