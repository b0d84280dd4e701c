-- ===== src/Constrain/Consumed.antt =====
-- `constrain_multisig_consumed` of `constrain.rs`: a vault note is spent. The numbers are those of
-- the source's comments.
pub mod Spec
pub mod Steps
pub mod Sums
pub mod Refinement
pub mod Authority
pub mod Binding
pub mod Conservation
pub mod Tags
pub mod Returns
pub mod Total
pub mod Refusal
pub mod Builds
use arm_multisig_application.Base.{
  ℕ, ◌+◌, ◌-◌, Bool, false, not, Option, none, some, List, [], ◌∷◌, ◌++◌, ok, ◌>>=◌, ◌>>◌,
  reject_if, ok_or, some_or, length, ltb, leb, ◌==◌, if◌then◌else◌,
}
use arm_multisig_application.Base.Bytes.{Bytes, bytes_eq}
use arm_multisig_application.Abi.{
  ParsedExternalCall, parse_external_call, parse_multisig_call_input,
}
use arm_multisig_application.Constrain.Errors.{
  Circuit, wrong_nullifier_key, wrong_nullifier_key_commitment, wrong_label_ref,
  pubkey_count_mismatch, unsorted_pubkeys, wrong_pubkey_root, wrong_signer_count,
  bad_signer_indices, change_label_mismatch, change_overflow, change_not_in_action,
  recipient_not_in_action, bad_external_payload, external_token_mismatch, conservation_broken,
  from_sig_error, derive_nullifier_key_bytes, digest_to_array, any_tag, consumed_instance,
}
use arm_multisig_application.Journal
use arm_multisig_application.Journal.{ExpirableBlob, LogicInstance}
use arm_multisig_application.Label
use arm_multisig_application.Label.{check_sorted, absorb}
use arm_multisig_application.Machine.{Build, u128_mod, checked_add, index}
use arm_multisig_application.Platform.{Platform}
use arm_multisig_application.Sig.{verify_secp256k1}
use arm_multisig_application.Spend
use arm_multisig_application.Spend.{spend_message}
use arm_multisig_application.Witness.{ResourceOf, SignerSlot, MultisigConsumedWitness}

-- The guard on the previous index: `if let Some(p) = prev { if p >= slot.idx { … } }`.
abbrev pub repeats : Option ℕ → ℕ → Bool
repeats none idx = false
repeats (some prev) idx = leb idx prev

-- 6. The loop over the slots, with the index of the slot before.
unfoldable pub check_indices : ℕ → Option ℕ → List SignerSlot → Circuit (Unit {0})
check_indices n prev [] = ok tt
check_indices n prev (slot ∷ slots) = do
  reject_if (leb n slot.idx) bad_signer_indices
  reject_if (repeats prev slot.idx) bad_signer_indices
  check_indices n (some slot.idx) slots

module _ (p : Platform) where
  -- 1 to 3. The nullifier key and the label reference derive from the label preimage.
  unfoldable pub check_identity : MultisigConsumedWitness p → Circuit (Unit {0})
  check_identity w = do
    reject_if (not (bytes_eq (p.inner w.nf_key) (derive_nullifier_key_bytes p w.label_preimage)))
        wrong_nullifier_key
    reject_if (not (p.nk_commitment_eq (p.commit w.nf_key) w.resource.nk_commitment))
        wrong_nullifier_key_commitment
    reject_if
        (not (bytes_eq (p.as_bytes w.resource.label_ref) (Label.label_ref p w.label_preimage)))
        wrong_label_ref

  -- 4 to 6. The keys are those of the policy, and the slots name K of them in order.
  unfoldable pub check_policy : MultisigConsumedWitness p → Circuit (Unit {0})
  check_policy w = do
    let n = w.label_preimage.n
    reject_if (not (length w.pubkeys == n)) pubkey_count_mismatch
    check_sorted unsorted_pubkeys w.pubkeys
    reject_if (not (bytes_eq (p.sha256 (absorb [] w.pubkeys)) w.label_preimage.pubkey_root))
        wrong_pubkey_root
    reject_if (not (length w.signatures == w.label_preimage.k)) wrong_signer_count
    check_indices n none w.signatures

  -- 7 and 8. The change stays in the vault, is no more than what is spent, and is in the action.
  unfoldable pub check_change : MultisigConsumedWitness p → Circuit (Unit {0})
  check_change w = do
    reject_if (not (p.digest_eq w.change_resource.label_ref w.resource.label_ref))
        change_label_mismatch
    reject_if (ltb w.resource.quantity w.change_resource.quantity) change_overflow
    reject_if (not (any_tag p w.action_tags (p.commitment w.change_resource))) change_not_in_action

  -- 9. The loop over the recipients, with the sum and the commitments so far.
  unfoldable pub gather_recipients :
      MultisigConsumedWitness p
      → ℕ
      → List Bytes
      → ℕ
      → List (ResourceOf p)
      → Circuit (ℕ × List Bytes)
  gather_recipients w sum commitments idx [] = ok (sum, commitments)
  gather_recipients w sum commitments idx (recipient ∷ rest) = do
    let cm = p.commitment recipient
    reject_if (not (any_tag p w.action_tags cm)) (recipient_not_in_action idx)
    sum ←
        some_or (checked_add u128_mod sum recipient.quantity)
          (conservation_broken 0 (u128_mod - 1) w.change_resource.quantity w.resource.quantity)
    gather_recipients w sum (commitments ++ digest_to_array p cm ∷ []) (idx + 1) rest

module _ (p : Platform) (b : Build) where
  -- 10. A call of the multisig forwarder adds its amount.
  unfoldable pub add_call : MultisigConsumedWitness p → ℕ → ℕ → ℕ → ParsedExternalCall → Circuit ℕ
  add_call w recipient_sum sum idx parsed = do
    inner ← ok_or (parse_multisig_call_input b parsed.input) (bad_external_payload idx)
    reject_if (not (bytes_eq inner.token w.label_preimage.token_addr)) (external_token_mismatch idx)
    some_or (checked_add u128_mod sum inner.amount) (
        conservation_broken (u128_mod - 1) recipient_sum w.change_resource.quantity
          w.resource.quantity)

  -- 10. The loop over the external payloads, with the sum so far.
  unfoldable pub walk_payloads :
      MultisigConsumedWitness p → Bytes → ℕ → ℕ → ℕ → List ExpirableBlob → Circuit ℕ
  walk_payloads w multisig_forwarder recipient_sum sum idx [] = ok sum
  walk_payloads w multisig_forwarder recipient_sum sum idx (blob ∷ rest) = do
    parsed ← ok_or (parse_external_call b blob.blob) (bad_external_payload idx)
    sum ←
        if bytes_eq parsed.forwarder multisig_forwarder
        then add_call w recipient_sum sum idx parsed
        else ok sum
    walk_payloads w multisig_forwarder recipient_sum sum (idx + 1) rest

module _ (p : Platform) where
  -- 11. Every unit that is spent goes to a withdrawal, to a recipient or to the change.
  unfoldable pub check_conservation : MultisigConsumedWitness p → ℕ → ℕ → Circuit (Unit {0})
  check_conservation w external_sum recipient_sum = do
    let broken =
        conservation_broken external_sum recipient_sum w.change_resource.quantity
          w.resource.quantity
    paid ← some_or (checked_add u128_mod external_sum recipient_sum) broken
    total ← some_or (checked_add u128_mod paid w.change_resource.quantity) broken
    reject_if (not (total == w.resource.quantity)) broken

  -- 14. The loop over the slots.
  unfoldable pub verify_slots : List Bytes → Bytes → List SignerSlot → Circuit (Unit {0})
  verify_slots pubkeys msg [] = ok tt
  verify_slots pubkeys msg (slot ∷ slots) = do
    pk ← index pubkeys slot.idx
    from_sig_error (verify_secp256k1 p pk msg slot.sig_der)
    verify_slots pubkeys msg slots

  -- 12 to 14. The journal, its digest, the message that the signers sign, and their signatures.
  unfoldable pub seal : MultisigConsumedWitness p → List Bytes → Circuit Bytes
  seal w commitments = do
    instance_ ← consumed_instance p w.resource w.nf_key w.action_tree_root w.app_data
    journal_bytes ← Journal.encode instance_
    let journal_digest = p.sha256 journal_bytes
    spend_msg ← spend_message p journal_digest (Spend.new commitments)
    verify_slots w.pubkeys spend_msg w.signatures
    ok journal_bytes

unfoldable pub constrain_multisig_consumed :
    (p : Platform) → Build → MultisigConsumedWitness p → Bytes → Circuit Bytes
constrain_multisig_consumed p b w multisig_forwarder = do
  check_identity p w
  check_policy p w
  check_change p w
  (recipient_sum, commitments) ← gather_recipients p w 0 [] 0 w.recipient_resources
  external_sum ←
      walk_payloads p b w multisig_forwarder recipient_sum 0 0 w.app_data.external_payload
  check_conservation p w external_sum recipient_sum
  seal p w commitments
