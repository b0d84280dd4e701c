-- ===== src/Constrain/Consumed/Refusal.antt =====
-- What `constrain_multisig_consumed` refuses, and with which error: one rule for each place that
-- returns one, with what is in order where the code gets there.
pub mod Checks
pub mod Recipients
pub mod Payloads
pub mod Seal
pub mod Passed
pub mod Branch
use arm_multisig_application.Base.{
  ◌^◌, ℕ, ◌+◌, ◌-◌, ◌<◌, ◌≤◌, ◌≡◌, ◌≢◌, true, some, none, List, [], ◌∷◌, ◌++◌, ok, err, length,
  get_elem?, All,
}
use arm_multisig_application.Base.Bytes.{Bytes}
use arm_multisig_application.Abi.{
  ParsedExternalCall, MultisigInput, parse_external_call, parse_multisig_call_input,
}
use arm_multisig_application.Constrain.Errors.{
  CircuitError, wrong_nullifier_key, wrong_nullifier_key_commitment, wrong_label_ref,
  pubkey_count_mismatch, unsorted_pubkeys, wrong_pubkey_root, wrong_signer_count,
  bad_signer_indices, change_label_mismatch, change_overflow, change_not_in_action,
  recipient_not_in_action, bad_external_payload, external_token_mismatch, conservation_broken,
  signature_error, resource_error,
}
use arm_multisig_application.Constrain.Consumed.Spec.{
  Identity, Policy, Change, Ascending, AreSigners, InAction, Withdraws, Balanced, Signed,
  total_quantity, instance_of, signed_bytes,
}
use arm_multisig_application.Journal.{ExpirableBlob}
use arm_multisig_application.Journal.Layout.{layout, FitsAll}
use arm_multisig_application.Label
use arm_multisig_application.Label.{nullifier_key_domain}
use arm_multisig_application.Machine.{Build, u128_mod}
use arm_multisig_application.Platform.{Platform}
use arm_multisig_application.Sig.{SigError, verify_secp256k1}
use arm_multisig_application.Witness.{ResourceOf, SignerSlot, MultisigConsumedWitness}
use mathlib.Core.List.{flatten}

-- The nullifier key that the note's label gives.
abbrev pub label_key : (p : Platform) → MultisigConsumedWitness p → Bytes
label_key p w = p.sha256 (nullifier_key_domain ++ Label.encode w.label_preimage)

-- 1 to 3.
pub data Unidentified (p : Platform) (w : MultisigConsumedWitness p) : CircuitError → Type 0 where
  other_key : p.inner w.nf_key ≢ label_key p w → Unidentified p w wrong_nullifier_key
  other_commitment :
      p.inner w.nf_key ≡ label_key p w
      → p.commit w.nf_key ≢ w.resource.nk_commitment
      → Unidentified p w wrong_nullifier_key_commitment
  other_label :
      p.inner w.nf_key ≡ label_key p w
      → p.commit w.nf_key ≡ w.resource.nk_commitment
      → p.as_bytes w.resource.label_ref ≢ p.sha256 (Label.encode w.label_preimage)
      → Unidentified p w wrong_label_ref

-- 4 to 6.
pub data PolicyBroken (p : Platform) (w : MultisigConsumedWitness p) : CircuitError → Type 0 where
  key_count : length w.pubkeys ≢ w.label_preimage.n → PolicyBroken p w pubkey_count_mismatch
  unsorted :
      length w.pubkeys ≡ w.label_preimage.n
      → ¬ Ascending w.pubkeys
      → PolicyBroken p w unsorted_pubkeys
  other_root :
      length w.pubkeys ≡ w.label_preimage.n
      → Ascending w.pubkeys
      → p.sha256 (flatten w.pubkeys) ≢ w.label_preimage.pubkey_root
      → PolicyBroken p w wrong_pubkey_root
  signer_count :
      length w.pubkeys ≡ w.label_preimage.n
      → Ascending w.pubkeys
      → p.sha256 (flatten w.pubkeys) ≡ w.label_preimage.pubkey_root
      → length w.signatures ≢ w.label_preimage.k
      → PolicyBroken p w wrong_signer_count
  bad_indices :
      length w.pubkeys ≡ w.label_preimage.n
      → Ascending w.pubkeys
      → p.sha256 (flatten w.pubkeys) ≡ w.label_preimage.pubkey_root
      → length w.signatures ≡ w.label_preimage.k
      → ¬ AreSigners w.label_preimage.n w.signatures
      → PolicyBroken p w bad_signer_indices

-- 7 and 8.
pub data ChangeBroken (p : Platform) (w : MultisigConsumedWitness p) : CircuitError → Type 0 where
  leaves_vault :
      w.change_resource.label_ref ≢ w.resource.label_ref → ChangeBroken p w change_label_mismatch
  too_much :
      w.change_resource.label_ref ≡ w.resource.label_ref
      → w.resource.quantity < w.change_resource.quantity
      → ChangeBroken p w change_overflow
  not_created :
      w.change_resource.label_ref ≡ w.resource.label_ref
      → w.change_resource.quantity ≤ w.resource.quantity
      → ¬ InAction p w w.change_resource
      → ChangeBroken p w change_not_in_action

-- 9. Recipients `before` are in the action and a first one behind them, `r`, is not, or it is and
-- the sum of the quantities leaves 128 bits; `idx` and `sum` are those before the list.
pub data Undelivered (p : Platform) (w : MultisigConsumedWitness p) (sum idx : ℕ)
    (rs : List (ResourceOf p)) : CircuitError → Type 0 where
  recipient_not_created :
      (before : List (ResourceOf p)) (r : ResourceOf p) (after : List (ResourceOf p))
      → rs ≡ before ++ r ∷ after
      → All (InAction p w) before
      → sum + total_quantity p before < u128_mod
      → ¬ InAction p w r
      → Undelivered p w sum idx rs (recipient_not_in_action (idx + length before))
  recipient_overflow :
      (before : List (ResourceOf p)) (r : ResourceOf p) (after : List (ResourceOf p))
      → rs ≡ before ++ r ∷ after
      → All (InAction p w) before
      → sum + total_quantity p before < u128_mod
      → InAction p w r
      → u128_mod ≤ sum + total_quantity p before + r.quantity
      → Undelivered p w sum idx rs
          (conservation_broken 0 (u128_mod - 1) w.change_resource.quantity w.resource.quantity)

-- 10. One payload that the loop stops at, with the index and the sum where it gets there: it cannot
-- be read, it is a call of the forwarder with an input that cannot be read, it moves another token, or
-- it takes the sum out of 128 bits.
pub data BlobRefused (p : Platform) (b : Build) (w : MultisigConsumedWitness p) (forwarder : Bytes)
    (rec_sum sum idx : ℕ) (blob : ExpirableBlob) : CircuitError → Type 0 where
  unreadable :
      parse_external_call b blob.blob ≡ err tt
      → BlobRefused p b w forwarder rec_sum sum idx blob (bad_external_payload idx)
  unreadable_input :
      (parsed : ParsedExternalCall)
      → parse_external_call b blob.blob ≡ ok parsed
      → parsed.forwarder ≡ forwarder
      → parse_multisig_call_input b parsed.input ≡ err tt
      → BlobRefused p b w forwarder rec_sum sum idx blob (bad_external_payload idx)
  other_token :
      (parsed : ParsedExternalCall) (inner : MultisigInput)
      → parse_external_call b blob.blob ≡ ok parsed
      → parsed.forwarder ≡ forwarder
      → parse_multisig_call_input b parsed.input ≡ ok inner
      → inner.token ≢ w.label_preimage.token_addr
      → BlobRefused p b w forwarder rec_sum sum idx blob (external_token_mismatch idx)
  call_overflow :
      (parsed : ParsedExternalCall) (inner : MultisigInput)
      → parse_external_call b blob.blob ≡ ok parsed
      → parsed.forwarder ≡ forwarder
      → parse_multisig_call_input b parsed.input ≡ ok inner
      → inner.token ≡ w.label_preimage.token_addr
      → u128_mod ≤ sum + inner.amount
      → BlobRefused p b w forwarder rec_sum sum idx blob (
          conservation_broken (u128_mod - 1) rec_sum w.change_resource.quantity w.resource.quantity)

-- The payloads `before` withdraw `moved` units in all, and the loop stops at the one behind them;
-- `idx` and `sum` are those before the list.
pub data CallRefused (p : Platform) (b : Build) (w : MultisigConsumedWitness p) (forwarder : Bytes)
    (rec_sum sum idx : ℕ) (blobs : List ExpirableBlob) (e : CircuitError) : Type 0 where
  stops_at :
      (before : List ExpirableBlob) (blob : ExpirableBlob) (after : List ExpirableBlob) {moved : ℕ}
      → blobs ≡ before ++ blob ∷ after
      → Withdraws b forwarder w.label_preimage.token_addr before moved
      → sum + moved < u128_mod
      → BlobRefused p b w forwarder rec_sum (sum + moved) (idx + length before) blob e
      → CallRefused p b w forwarder rec_sum sum idx blobs e

-- What the signers of the note with nullifier `nullifier` sign.
abbrev pub message_of : (p : Platform) → MultisigConsumedWitness p → p.Digest → Bytes
message_of p w nullifier =
    p.sha256 (signed_bytes p w (p.sha256 (layout (instance_of p w nullifier))))

-- 14. The slots `before` are signed, and the signature of the one behind them is not valid.
pub data SlotRefused (p : Platform) (keys : List Bytes) (msg : Bytes) (slots : List SignerSlot)
    : CircuitError → Type 0 where
  bad_signature :
      (before : List SignerSlot) (slot : SignerSlot) (after : List SignerSlot) (pk : Bytes)
      {e : SigError}
      → slots ≡ before ++ slot ∷ after
      → All (Signed p keys msg) before
      → get_elem? keys slot.idx ≡ some pk
      → verify_secp256k1 p pk msg slot.sig_der ≡ err e
      → SlotRefused p keys msg slots (signature_error e)

-- 12 to 14.
pub data Unsealed (p : Platform) (w : MultisigConsumedWitness p) : CircuitError → Type 0 where
  no_nullifier : p.tag w.resource true w.nf_key ≡ none → Unsealed p w resource_error
  unsigned :
      (nullifier : p.Digest) {e : CircuitError}
      → p.tag w.resource true w.nf_key ≡ some nullifier
      → FitsAll w.app_data
      → length w.recipient_resources < 2 ^ 32
      → SlotRefused p w.pubkeys (message_of p w nullifier) w.signatures e
      → Unsealed p w e

-- Steps 1 to 8 pass.
pub record Checked (p : Platform) (w : MultisigConsumedWitness p) : Type 0 where
  pub identity : Identity p w
  pub policy : Policy p w
  pub change : Change p w

-- The first thing that is wrong with a spend.
pub data Refused (p : Platform) (b : Build) (w : MultisigConsumedWitness p) (forwarder : Bytes)
    : CircuitError → Type 0 where
  unidentified : {e : CircuitError} → Unidentified p w e → Refused p b w forwarder e
  policy_broken : {e : CircuitError} → Identity p w → PolicyBroken p w e → Refused p b w forwarder e
  change_broken :
      {e : CircuitError}
      → Identity p w
      → Policy p w
      → ChangeBroken p w e
      → Refused p b w forwarder e
  undelivered :
      {e : CircuitError}
      → Checked p w
      → Undelivered p w 0 0 w.recipient_resources e
      → Refused p b w forwarder e
  call_refused :
      {e : CircuitError}
      → Checked p w
      → All (InAction p w) w.recipient_resources
      → total_quantity p w.recipient_resources < u128_mod
      → CallRefused p b w forwarder
          (total_quantity p w.recipient_resources)
          0
          0
          w.app_data.external_payload
          e
      → Refused p b w forwarder e
  unbalanced :
      {moved : ℕ}
      → Checked p w
      → All (InAction p w) w.recipient_resources
      → total_quantity p w.recipient_resources < u128_mod
      → Withdraws b forwarder w.label_preimage.token_addr w.app_data.external_payload moved
      → moved < u128_mod
      → moved + total_quantity p w.recipient_resources + w.change_resource.quantity
        ≢ w.resource.quantity
      → Refused p b w forwarder (
          conservation_broken moved
            (total_quantity p w.recipient_resources)
            w.change_resource.quantity
            w.resource.quantity)
  unsealed :
      {e : CircuitError}
      → Checked p w
      → Balanced p b w forwarder
      → Unsealed p w e
      → Refused p b w forwarder e
