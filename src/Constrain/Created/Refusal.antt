-- ===== src/Constrain/Created/Refusal.antt =====
-- Which notes `constrain_multisig_created` refuses, and with which error.
use arm_multisig_application.Base.{
  ◌≡◌, ◌≢◌, ◌↔◌, ◌≤◌, false, not, ◌&&◌, ◌||◌, err, refl, Bool, ne_false, AllErrors,
  reject_if-AllErrors, replicate, ltb, leb, ◌==◌, arith,
}
use arm_multisig_application.Base.Bytes.{
  Bytes, bytes_eq, bytes_eq→eq, bytes_eq→ne, ne→bytes_eq, not-bytes_eq-ne, eq→bytes_eq,
}
use arm_multisig_application.Constrain.Created.{constrain_multisig_created}
use arm_multisig_application.Constrain.Errors.{
  CircuitError, zero_salt, invalid_k_n, wrong_label_ref,
}
use arm_multisig_application.Journal.Errors.{encode-AllErrors}
use arm_multisig_application.Label
use arm_multisig_application.Label.{LabelPreimage, label_ref}
use arm_multisig_application.Platform.{Platform}
use arm_multisig_application.Witness.{MultisigCreatedWitness}

-- 1 ≤ K ≤ N ≤ 32
abbrev pub IsThreshold : LabelPreimage → Type 0
IsThreshold label = (1 ≤ label.k) × (label.k ≤ label.n) × (label.n ≤ 32)

-- One rule for each error; each says that what is checked before is in order.
pub data NoteRefused (p : Platform) (w : MultisigCreatedWitness p) : CircuitError → Type 0 where
  salt_is_zero : w.label_preimage.salt ≡ replicate 32 0 → NoteRefused p w zero_salt
  no_policy :
      w.label_preimage.salt ≢ replicate 32 0
      → ¬ IsThreshold w.label_preimage
      → NoteRefused p w invalid_k_n
  other_label :
      w.label_preimage.salt ≢ replicate 32 0
      → IsThreshold w.label_preimage
      → p.as_bytes w.resource.label_ref ≢ p.sha256 (Label.encode w.label_preimage)
      → NoteRefused p w wrong_label_ref

abbrev out_of_range : LabelPreimage → Bool
out_of_range label = not (leb 1 label.n && leb label.n 32) || (label.k == 0 || ltb label.n label.k)

in_range_iff : (label : LabelPreimage) → (out_of_range label ≡ false) ↔ IsThreshold label
in_range_iff label =
    (λ h. (ground arith, ground arith, ground arith), λ (k1, kn, n32). ground arith)

module _ (p : Platform) (w : MultisigCreatedWitness p) where
  Refused-sound : AllErrors (NoteRefused p w) (constrain_multisig_created p w)
  unfolding constrain_multisig_created label_ref
  Refused-sound =
      let zero : Bytes = replicate 32 0 in
      let ref = p.as_bytes w.resource.label_ref in
      let expected = p.sha256 (Label.encode w.label_preimage) in
      reject_if-AllErrors (NoteRefused p w) (bytes_eq w.label_preimage.salt zero) zero_salt _
        (λ h. salt_is_zero (bytes_eq→eq w.label_preimage.salt zero h))
        (λ nonzero.
          let salted = bytes_eq→ne w.label_preimage.salt zero nonzero in
          reject_if-AllErrors (NoteRefused p w) (out_of_range w.label_preimage) invalid_k_n _
            (λ h. no_policy salted (λ t. cc (h, (in_range_iff w.label_preimage).1 t)))
            (λ h.
              reject_if-AllErrors (NoteRefused p w) (not (bytes_eq ref expected)) wrong_label_ref _
                (λ k.
                  other_label salted ((in_range_iff w.label_preimage).0 h)
                    (not-bytes_eq-ne ref expected k))
                (λ _. encode-AllErrors (NoteRefused p w) _)))

  Refused-complete : {e : CircuitError} → NoteRefused p w e → constrain_multisig_created p w ≡ err e
  unfolding constrain_multisig_created label_ref
  Refused-complete (salt_is_zero h) = rw (eq→bytes_eq w.label_preimage.salt (replicate 32 0) h) refl
  Refused-complete (no_policy h k) =
      rw
        (
          ne→bytes_eq w.label_preimage.salt (replicate 32 0) h,
          ne_false (λ h. k ((in_range_iff w.label_preimage).0 h)),
        )
        refl
  Refused-complete (other_label h k l) =
      rw
        (
          ne→bytes_eq w.label_preimage.salt (replicate 32 0) h,
          (in_range_iff w.label_preimage).1 k,
          ne→bytes_eq (p.as_bytes w.resource.label_ref) (p.sha256 (Label.encode w.label_preimage))
              l,
        )
        refl

-- `constrain_multisig_created` returns an error exactly where that error's rule holds: the salt is
-- zero; or it is not, and 1 ≤ K ≤ N ≤ 32 does not hold; or both are in order, and the note has
-- another label than the preimage's.
pub constrain_multisig_created-NoteRefused :
    (p : Platform) (w : MultisigCreatedWitness p) (e : CircuitError)
    → (constrain_multisig_created p w ≡ err e) ↔ NoteRefused p w e
constrain_multisig_created-NoteRefused p w e = (Refused-sound p w e, Refused-complete p w)
