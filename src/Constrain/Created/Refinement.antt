-- ===== src/Constrain/Created/Refinement.antt =====
-- `constrain_multisig_created` against a description of the notes it admits.
use arm_multisig_application.Base.{
  ◌≡◌, ◌≢◌, ◌↔◌, ◌≤◌, false, not, ◌&&◌, ◌||◌, ok, reject_if-bind, replicate, ltb, leb, ◌==◌, arith,
}
use arm_multisig_application.Base.Bytes.{
  Bytes, bytes_eq, bytes_eq→ne, ne→bytes_eq, not-bytes_eq, eq→bytes_eq,
}
use arm_multisig_application.Constrain.Created.{constrain_multisig_created}
use arm_multisig_application.Constrain.Errors.{created_instance, digest_to_array}
use arm_multisig_application.Journal.Layout.{layout, FitsAll, encode-layout, encode-eq_layout}
use arm_multisig_application.Label
use arm_multisig_application.Label.{label_ref}
use arm_multisig_application.Platform.{Platform}
use arm_multisig_application.Witness.{MultisigCreatedWitness}

-- The salt is not zero, the policy is K of N with 1 ≤ K ≤ N ≤ 32, the note has the label of the
-- preimage, and the journal is that of a created note tagged by its commitment.
pub record Admitted (p : Platform) (w : MultisigCreatedWitness p) (journal : Bytes) : Type 0 where
  pub salt : w.label_preimage.salt ≢ replicate 32 0
  pub some_signers : 1 ≤ w.label_preimage.k
  pub enough_keys : w.label_preimage.k ≤ w.label_preimage.n
  pub key_limit : w.label_preimage.n ≤ 32
  pub label_ref : p.as_bytes w.resource.label_ref ≡ p.sha256 (Label.encode w.label_preimage)
  pub fits : FitsAll w.app_data
  pub journal_layout :
      journal
      ≡ layout (record {
        tag = p.as_bytes (p.commitment w.resource);
        is_consumed = false;
        action_tree_root = p.as_bytes w.action_tree_root;
        app_data = w.app_data;
      })

-- `constrain_multisig_created` returns a journal exactly where the note is admitted with that
-- journal.
pub constrain_multisig_created-Admitted :
    (p : Platform) (w : MultisigCreatedWitness p) (journal : Bytes)
    → (constrain_multisig_created p w ≡ ok journal) ↔ Admitted p w journal
unfolding constrain_multisig_created created_instance digest_to_array label_ref
constrain_multisig_created-Admitted p w journal =
    let salt = w.label_preimage.salt in
    let n = w.label_preimage.n in
    let k = w.label_preimage.k in
    let ref = p.as_bytes w.resource.label_ref in
    let expected = p.sha256 (Label.encode w.label_preimage) in
    let bad = not (leb 1 n && leb n 32) || (k == 0 || ltb n k) in
    (
      λ h.
          let (nonzero, h₁) = reject_if-bind (bytes_eq salt (replicate 32 0)) _ _ h in
          let (policy, h₂) = reject_if-bind bad _ _ h₁ in
          let (same, h₃) = reject_if-bind (not (bytes_eq ref expected)) _ _ h₂ in
          let (fits, written) = encode-eq_layout _ h₃ in
          record {
            salt = bytes_eq→ne salt (replicate 32 0) nonzero;
            some_signers = ground arith;
            enough_keys = ground arith;
            key_limit = ground arith;
            label_ref = not-bytes_eq ref expected same;
            fits = fits;
            journal_layout = written;
          },
      λ a.
          let policy : bad ≡ false = ground (arith, a.some_signers, a.enough_keys, a.key_limit) in
          rw
            (
              ne→bytes_eq salt (replicate 32 0) a.salt,
              policy,
              eq→bytes_eq ref expected a.label_ref,
              a.journal_layout,
            )
            (encode-layout _ a.fits),
    )
