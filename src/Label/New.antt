-- ===== src/Label/New.antt =====
-- `LabelPreimage::new`: what it accepts, and that the circuits accept what it makes.
use arm_multisig_application.Base.{
  ℕ, ap, ◌≡◌, ◌≢◌, ◌↔◌, ◌≤◌, refl, false, not, ◌&&◌, ◌||◌, List, [], ok, >>=-eq-ok, reject_if-bind,
  length, replicate, ltb, leb, ◌==◌, arith,
}
use arm_multisig_application.Base.Bytes.{Bytes, bytes_eq, bytes_eq→ne, ne→bytes_eq}
use arm_multisig_application.Constrain.Consumed.Spec.{Ascending}
use arm_multisig_application.Constrain.Consumed.Steps.{
  check_sorted-Ascending, Ascending-check_sorted,
}
use arm_multisig_application.Constrain.Created.{constrain_multisig_created}
use arm_multisig_application.Constrain.Created.Refinement.{constrain_multisig_created-Admitted}
use arm_multisig_application.Constrain.Errors.{created_instance, digest_to_array}
use arm_multisig_application.Journal.Layout.{layout, FitsAll}
use arm_multisig_application.Label.{
  LabelPreimage, new, label_ref, check_sorted, pubkey_root_of, unsorted_pubkeys,
}
use arm_multisig_application.Label.Layout.{absorb-flatten}
use arm_multisig_application.Platform.{Platform}
use arm_multisig_application.Witness.{MultisigCreatedWitness}
use mathlib.Core.List.{flatten}

-- A policy of K among the keys `pubkeys`, and the label preimage that states it.
pub record IsPolicy (p : Platform) (token_addr : Bytes) (k : ℕ) (pubkeys : List Bytes)
    (salt : Bytes) (label : LabelPreimage) : Type 0 where
  pub some_signers : 1 ≤ k
  pub enough_keys : k ≤ length pubkeys
  pub key_limit : length pubkeys ≤ 32
  pub nonzero_salt : salt ≢ replicate 32 0
  pub keys_ascend : Ascending pubkeys
  pub label_eq : label ≡ record {
    token_addr = token_addr;
    n = length pubkeys;
    k = k;
    pubkey_root = p.sha256 (flatten pubkeys);
    salt = salt;
  }

module _ (p : Platform) (token_addr : Bytes) (k : ℕ) (pubkeys : List Bytes) (salt : Bytes) where
  pubkey_root_of-flatten : pubkey_root_of p pubkeys ≡ p.sha256 (flatten pubkeys)
  unfolding pubkey_root_of
  pubkey_root_of-flatten = ap p.sha256 (absorb-flatten [] pubkeys)

  -- `LabelPreimage::new` returns a label exactly where 1 ≤ K ≤ N ≤ 32 for the N keys, the salt is
  -- not zero and the keys are strictly ascending; the label's root is the hash of all the keys.
  pub new-IsPolicy :
      (label : LabelPreimage)
      → (new p token_addr k pubkeys salt ≡ ok label) ↔ IsPolicy p token_addr k pubkeys salt label
  unfolding new
  new-IsPolicy label =
      let n = length pubkeys in
      let zeros : Bytes = replicate 32 0 in
      (
        λ h.
            let (_, h₁) = reject_if-bind (leb 256 n) _ _ h in
            let (some_keys, h₂) = reject_if-bind (not (leb 1 n && leb n 32)) _ _ h₁ in
            let (threshold, h₃) = reject_if-bind (k == 0 || ltb n k) _ _ h₂ in
            let (nonzero, h₄) = reject_if-bind (bytes_eq salt zeros) _ _ h₃ in
            let (_, sorted, h₅) = >>=-eq-ok (check_sorted unsorted_pubkeys pubkeys) _ h₄ in
            record {
              some_signers = ground arith;
              enough_keys = ground arith;
              key_limit = ground arith;
              nonzero_salt = bytes_eq→ne salt zeros nonzero;
              keys_ascend = check_sorted-Ascending unsorted_pubkeys pubkeys sorted;
              label_eq = rw (← pubkey_root_of-flatten) (cc h₅);
            },
        λ a.
            let small : leb 256 n ≡ false = ground (arith, a.key_limit) in
            let some_keys : not (leb 1 n && leb n 32) ≡ false =
              ground (arith, a.key_limit, a.some_signers, a.enough_keys) in
            let threshold : (k == 0 || ltb n k) ≡ false =
              ground (arith, a.some_signers, a.enough_keys) in
            rw (
              small,
              some_keys,
              threshold,
              ne→bytes_eq salt zeros a.nonzero_salt,
              Ascending-check_sorted unsorted_pubkeys pubkeys a.keys_ascend,
              pubkey_root_of-flatten,
              a.label_eq,
            ),
      )

-- Where `LabelPreimage::new` made the label, a note with its reference is admitted by
-- `constrain_multisig_created`, which returns the journal of the created note.
pub constrain_multisig_created-new :
    (p : Platform) (token_addr : Bytes) (k : ℕ) (pubkeys : List Bytes) (salt : Bytes)
    (w : MultisigCreatedWitness p)
    → new p token_addr k pubkeys salt ≡ ok w.label_preimage
    → p.as_bytes w.resource.label_ref ≡ label_ref p w.label_preimage
    → FitsAll w.app_data
    → constrain_multisig_created p w
      ≡ ok (layout (created_instance p w.resource w.action_tree_root w.app_data))
unfolding label_ref created_instance digest_to_array
constrain_multisig_created-new p token_addr k pubkeys salt w made ref fits =
    let policy = (new-IsPolicy p token_addr k pubkeys salt w.label_preimage).0 made in
    let n : w.label_preimage.n ≡ length pubkeys = ap (λ l. l.n) policy.label_eq in
    let same_k : w.label_preimage.k ≡ k = ap (λ l. l.k) policy.label_eq in
    let same_salt : w.label_preimage.salt ≡ salt = ap (λ l. l.salt) policy.label_eq in
    (constrain_multisig_created-Admitted p w _).1 (record {
      salt = rw same_salt policy.nonzero_salt;
      some_signers = omega (arith, policy.some_signers);
      enough_keys = omega (arith, policy.enough_keys);
      key_limit = omega (arith, policy.key_limit);
      label_ref = ref;
      fits = fits;
      journal_layout = refl;
    })
