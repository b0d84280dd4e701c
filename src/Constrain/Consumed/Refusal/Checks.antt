-- ===== src/Constrain/Consumed/Refusal/Checks.antt =====
-- Steps 1 to 8 of `constrain_multisig_consumed` fail exactly with the errors of the rules.
use arm_multisig_application.Base.{
  reject_if, ◌>>◌, ℕ, ◌≡◌, ◌⊎◌, inl, false, not, Option, none, some, List, [], ◌∷◌, ok, err, refl,
  AllErrors, one_error-AllErrors, fails, >>=-AllErrors, reject_if-AllErrors,
  last_reject_if-AllErrors, ne_true, not-eq_true, length, ltb, ltb→lt, lt→ltb, ◌==◌, ==_iff, arith,
}
use arm_multisig_application.Base.Bytes.{eq→bytes_eq, ne→bytes_eq}
use arm_multisig_application.Base.Guards.{
  test-AllErrors, bytes_test-AllErrors, last_bytes_test-AllErrors, number_test-AllErrors,
}
use arm_multisig_application.Constrain.Errors.{
  CircuitError, wrong_signer_count, bad_signer_indices, unsorted_pubkeys,
  derive_nullifier_key_bytes, any_tag,
}
use arm_multisig_application.Constrain.Consumed.{
  check_identity, check_policy, check_change, check_indices,
}
use arm_multisig_application.Constrain.Consumed.Refusal.{
  label_key, Unidentified, other_key, other_commitment, other_label, PolicyBroken, key_count,
  unsorted, other_root, signer_count, bad_indices, ChangeBroken, leaves_vault, too_much,
  not_created,
}
use arm_multisig_application.Constrain.Consumed.Spec.{Ascending}
use arm_multisig_application.Constrain.Consumed.Steps.{
  check_sorted-cases, check_sorted-Ascending, Ascending-check_sorted, check_indices-AreSigners,
  AreSigners-check_indices, All-Passes-none, any_tag-Mem, Mem-any_tag,
}
use arm_multisig_application.Label
use arm_multisig_application.Label.{check_sorted, absorb, label_ref}
use arm_multisig_application.Label.Layout.{absorb-flatten}
use arm_multisig_application.Platform.{Platform, IsLawful}
use arm_multisig_application.Witness.{SignerSlot, MultisigConsumedWitness}
use mathlib.Core.List.{flatten}

-- The loop over the slots has one error.
check_indices-cases :
    (n : ℕ) (prev : Option ℕ) (slots : List SignerSlot)
    → (check_indices n prev slots ≡ ok tt) ⊎ (check_indices n prev slots ≡ err bad_signer_indices)
unfolding check_indices
check_indices-cases n prev [] = inl refl
check_indices-cases n prev (s ∷ slots) = ground (arith, check_indices-cases n (some s.idx) slots)

module _ (p : Platform) (law : IsLawful p) (w : MultisigConsumedWitness p) where
  pub Unidentified-sound : AllErrors (Unidentified p w) (check_identity p w)
  unfolding check_identity derive_nullifier_key_bytes label_ref
  Unidentified-sound =
      let P = Unidentified p w in
      let key = p.inner w.nf_key in
      let commitment = p.commit w.nf_key in
      let ref = p.as_bytes w.resource.label_ref in
      bytes_test-AllErrors P key (label_key p w) _ _ (λ h. other_key h)
        (λ k.
          test-AllErrors P _ _ (law.nk_commitment_eq_iff commitment w.resource.nk_commitment)
            (λ h. other_commitment k h)
            (λ c.
              last_bytes_test-AllErrors P ref (p.sha256 (Label.encode w.label_preimage)) _
                (λ h. other_label k c h)))

  pub Unidentified-complete : {e : CircuitError} → Unidentified p w e → check_identity p w ≡ err e
  unfolding check_identity derive_nullifier_key_bytes label_ref
  Unidentified-complete (other_key h) = rw (ne→bytes_eq (p.inner w.nf_key) (label_key p w) h) refl
  Unidentified-complete (other_commitment k h) =
      let decides = law.nk_commitment_eq_iff (p.commit w.nf_key) w.resource.nk_commitment in
      rw (eq→bytes_eq (p.inner w.nf_key) (label_key p w) k, ne_true (λ e. h (decides.0 e))) refl
  Unidentified-complete (other_label k c h) =
      let decides = law.nk_commitment_eq_iff (p.commit w.nf_key) w.resource.nk_commitment in
      let expected = p.sha256 (Label.encode w.label_preimage) in
      rw
        (
          eq→bytes_eq (p.inner w.nf_key) (label_key p w) k,
          decides.1 c,
          ne→bytes_eq (p.as_bytes w.resource.label_ref) expected h,
        )
        refl

  pub ChangeBroken-sound : AllErrors (ChangeBroken p w) (check_change p w)
  unfolding check_change
  ChangeBroken-sound =
      let P = ChangeBroken p w in
      let c = w.change_resource in
      test-AllErrors P _ _ (law.digest_eq_iff c.label_ref w.resource.label_ref)
        (λ h. leaves_vault h)
        (λ l.
          reject_if-AllErrors P (ltb w.resource.quantity c.quantity) _ _
            (λ h. too_much l (ltb→lt _ _ h))
            (λ q.
              last_reject_if-AllErrors P (not (any_tag p w.action_tags (p.commitment c))) _ (λ h.
                not_created l (ground arith)
                  (λ m. cc (not-eq_true h, Mem-any_tag p law w.action_tags (p.commitment c) m)))))

  pub ChangeBroken-complete : {e : CircuitError} → ChangeBroken p w e → check_change p w ≡ err e
  unfolding check_change
  ChangeBroken-complete (leaves_vault h) =
      rw
        (ne_true
          (λ e. h ((law.digest_eq_iff w.change_resource.label_ref w.resource.label_ref).0 e)))
        refl
  ChangeBroken-complete (too_much l h) =
      rw ((law.digest_eq_iff w.change_resource.label_ref w.resource.label_ref).1 l, lt→ltb _ _ h)
        refl
  ChangeBroken-complete (not_created l q h) =
      let fits : ltb w.resource.quantity w.change_resource.quantity ≡ false = ground arith in
      rw
        (
          (law.digest_eq_iff w.change_resource.label_ref w.resource.label_ref).1 l,
          fits,
          ne_true (λ m. h (any_tag-Mem p law w.action_tags (p.commitment w.change_resource) m)),
        )
        refl

module _ (p : Platform) (w : MultisigConsumedWitness p) where
  pub PolicyBroken-sound : AllErrors (PolicyBroken p w) (check_policy p w)
  unfolding check_policy
  PolicyBroken-sound =
      let P = PolicyBroken p w in
      let label = w.label_preimage in
      number_test-AllErrors P (length w.pubkeys) label.n _ _ (λ h. key_count h)
        (λ n.
          >>=-AllErrors P (check_sorted unsorted_pubkeys w.pubkeys) _
            (one_error-AllErrors P _ (check_sorted-cases unsorted_pubkeys w.pubkeys)
              (λ h. unsorted n (λ a. h (Ascending-check_sorted unsorted_pubkeys w.pubkeys a))))
            (λ _ h.
              let asc = check_sorted-Ascending unsorted_pubkeys w.pubkeys h in
              rw absorb-flatten (
                bytes_test-AllErrors P (p.sha256 (flatten w.pubkeys)) label.pubkey_root _ _
                  (λ h. other_root n asc h)
                  (λ r.
                    number_test-AllErrors P (length w.signatures) label.k _ _
                      (λ h. signer_count n asc r h)
                      (λ k.
                        one_error-AllErrors P _ (check_indices-cases label.n none w.signatures)
                          (λ h. bad_indices n asc r k (λ v. h (
                            AreSigners-check_indices label.n none w.signatures v
                              (All-Passes-none w.signatures)))))))))

  -- Where the keys are the policy's, the slots decide.
  keys-check_policy :
      length w.pubkeys ≡ w.label_preimage.n
      → Ascending w.pubkeys
      → p.sha256 (flatten w.pubkeys) ≡ w.label_preimage.pubkey_root
      → check_policy p w ≡ (do
        reject_if (not (length w.signatures == w.label_preimage.k)) wrong_signer_count
        check_indices w.label_preimage.n none w.signatures)
  unfolding check_policy
  keys-check_policy n a r = rw (
    (==_iff (length w.pubkeys) w.label_preimage.n).1 n,
    Ascending-check_sorted unsorted_pubkeys w.pubkeys a,
    absorb-flatten [] w.pubkeys,
    eq→bytes_eq (p.sha256 (flatten w.pubkeys)) w.label_preimage.pubkey_root r,
  )

  pub PolicyBroken-complete : {e : CircuitError} → PolicyBroken p w e → check_policy p w ≡ err e
  unfolding check_policy
  PolicyBroken-complete (key_count h) =
      rw (ne_true (λ e. h ((==_iff (length w.pubkeys) w.label_preimage.n).0 e))) refl
  PolicyBroken-complete (unsorted n h) =
      rw
        (
          (==_iff (length w.pubkeys) w.label_preimage.n).1 n,
          fails (check_sorted-cases unsorted_pubkeys w.pubkeys)
              (λ e. h (check_sorted-Ascending unsorted_pubkeys w.pubkeys e)),
        )
        refl
  PolicyBroken-complete (other_root n a h) =
      rw
        (
          (==_iff (length w.pubkeys) w.label_preimage.n).1 n,
          Ascending-check_sorted unsorted_pubkeys w.pubkeys a,
          absorb-flatten [] w.pubkeys,
          ne→bytes_eq (p.sha256 (flatten w.pubkeys)) w.label_preimage.pubkey_root h,
        )
        refl
  PolicyBroken-complete (signer_count n a r h) =
      rw
        (
          keys-check_policy n a r,
          ne_true (λ e. h ((==_iff (length w.signatures) w.label_preimage.k).0 e)),
        )
        refl
  PolicyBroken-complete (bad_indices n a r k h) =
      rw (keys-check_policy n a r, (==_iff (length w.signatures) w.label_preimage.k).1 k)
        (fails (check_indices-cases w.label_preimage.n none w.signatures)
          (λ e. h (check_indices-AreSigners w.label_preimage.n none w.signatures e).0))
