-- ===== src/Constrain/Consumed/Spec.antt =====
-- What an accepted spend is, without the order of the checks, the loops and the accumulators of
-- `constrain_multisig_consumed`.
use arm_multisig_application.Base.{
  ℕ, ◌+◌, ◌^◌, ◌≤◌, ◌<◌, ◌≡◌, ◌≢◌, true, some, List, [], ◌∷◌, ◌++◌, ok, map, length, get_elem?, All,
  Ordered,
}
use arm_multisig_application.Base.Bytes.{Bytes, bytes_lt}
use arm_multisig_application.Abi.{
  ParsedExternalCall, MultisigInput, parse_external_call, parse_multisig_call_input,
}
use arm_multisig_application.Base.Words.{to_le_bytes}
use arm_multisig_application.Journal.{ExpirableBlob, LogicInstance}
use arm_multisig_application.Journal.Layout.{layout, FitsAll}
use arm_multisig_application.Label
use arm_multisig_application.Label.{nullifier_key_domain}
use arm_multisig_application.Machine.{Build}
use arm_multisig_application.Platform.{Platform}
use arm_multisig_application.Sig.{k_domain_sep, verify_secp256k1}
use arm_multisig_application.Spend.{sort}
use arm_multisig_application.Witness.{ResourceOf, SignerSlot, MultisigConsumedWitness}
use mathlib.Core.List.{Mem, flatten}

-- Each byte string is below each one behind it.
abbrev pub Ascending : List Bytes → Type 0
Ascending = Ordered (λ x y. bytes_lt x y ≡ true)

-- Slot numbers below `n`, each below the ones behind it.
pub record AreSigners (n : ℕ) (slots : List SignerSlot) : Type 0 where
  pub in_range : All (λ s. s.idx < n) slots
  pub increasing : Ordered (λ s t. s.idx < t.idx) slots

abbrev pub total_quantity : (p : Platform) → List (ResourceOf p) → ℕ
total_quantity p [] = 0
total_quantity p (r ∷ rs) = r.quantity + total_quantity p rs

-- The blobs are calls, those of the forwarder move `token`, and they move `total` in all.
pub data Withdraws (b : Build) (forwarder token : Bytes) : List ExpirableBlob → ℕ → Type 0 where
  done : Withdraws b forwarder token [] 0
  other :
      {blob : ExpirableBlob} {blobs : List ExpirableBlob} {total : ℕ}
      → (parsed : ParsedExternalCall) → parse_external_call b blob.blob ≡ ok parsed
      → parsed.forwarder ≢ forwarder
      → Withdraws b forwarder token blobs total
      → Withdraws b forwarder token (blob ∷ blobs) total
  call :
      {blob : ExpirableBlob} {blobs : List ExpirableBlob} {rest total : ℕ}
      → (parsed : ParsedExternalCall) (inner : MultisigInput)
      → parse_external_call b blob.blob ≡ ok parsed
      → parsed.forwarder ≡ forwarder
      → parse_multisig_call_input b parsed.input ≡ ok inner
      → inner.token ≡ token
      → total ≡ inner.amount + rest
      → Withdraws b forwarder token blobs rest
      → Withdraws b forwarder token (blob ∷ blobs) total

-- The commitment of a resource, as the bytes that are signed.
abbrev pub commitment_bytes : (p : Platform) → ResourceOf p → Bytes
commitment_bytes p r = p.as_bytes (p.commitment r)

-- The resource is created in the spend's action, as far as the witnessed tags say.
abbrev pub InAction : (p : Platform) → MultisigConsumedWitness p → ResourceOf p → Type 0
InAction p w r = Mem (p.commitment r) w.action_tags

-- 1 to 3. The keys of the note derive from the label preimage.
pub record Identity (p : Platform) (w : MultisigConsumedWitness p) : Type 0 where
  pub nullifier_key :
      p.inner w.nf_key ≡ p.sha256 (nullifier_key_domain ++ Label.encode w.label_preimage)
  pub nk_commitment : p.commit w.nf_key ≡ w.resource.nk_commitment
  pub label_ref : p.as_bytes w.resource.label_ref ≡ p.sha256 (Label.encode w.label_preimage)

-- 4 to 6. The keys are the policy's, and K slots name distinct ones among them.
pub record Policy (p : Platform) (w : MultisigConsumedWitness p) : Type 0 where
  pub key_count : length w.pubkeys ≡ w.label_preimage.n
  pub keys_ascend : Ascending w.pubkeys
  pub pubkey_root : p.sha256 (flatten w.pubkeys) ≡ w.label_preimage.pubkey_root
  pub signer_count : length w.signatures ≡ w.label_preimage.k
  pub signers : AreSigners w.label_preimage.n w.signatures

-- 7 and 8. The change stays in the vault and is created in the action.
pub record Change (p : Platform) (w : MultisigConsumedWitness p) : Type 0 where
  pub label_ref : w.change_resource.label_ref ≡ w.resource.label_ref
  pub quantity : w.change_resource.quantity ≤ w.resource.quantity
  pub in_action : InAction p w w.change_resource

-- 12. The instance of a consumed note with nullifier `nullifier`.
abbrev pub instance_of : (p : Platform) → MultisigConsumedWitness p → p.Digest → LogicInstance
instance_of p w nullifier = record {
  tag = p.as_bytes nullifier;
  is_consumed = true;
  action_tree_root = p.as_bytes w.action_tree_root;
  app_data = w.app_data;
}

-- 13. What is signed: the domain, the journal digest, the number of recipients, and their
-- commitments in ascending order.
abbrev pub signed_bytes : (p : Platform) → MultisigConsumedWitness p → Bytes → Bytes
signed_bytes p w journal_digest =
    k_domain_sep
    ++ (journal_digest
        ++ (to_le_bytes (length w.recipient_resources)
            ++ flatten (sort (map (commitment_bytes p) w.recipient_resources))))

-- A slot's key is one of `pubkeys`, and its signature of `msg` is valid.
abbrev pub Signed : (p : Platform) → List Bytes → Bytes → SignerSlot → Type 0
Signed p pubkeys msg slot =
    (pk : Bytes) × (get_elem? pubkeys slot.idx ≡ some pk)
    × (verify_secp256k1 p pk msg slot.sig_der ≡ ok tt)

-- 9 to 11. Every recipient is created in the action, and what is spent is what is withdrawn,
-- transferred and kept.
pub record Balanced (p : Platform) (b : Build) (w : MultisigConsumedWitness p) (forwarder : Bytes)
    : Type 0 where
  pub recipients_in_action : All (InAction p w) w.recipient_resources
  pub withdrawn : ℕ
  pub withdraws :
      Withdraws b forwarder w.label_preimage.token_addr w.app_data.external_payload withdrawn
  pub conserved :
      withdrawn + total_quantity p w.recipient_resources + w.change_resource.quantity
      ≡ w.resource.quantity

-- 12 to 14. The journal is that of the note's instance, and each slot signs the message that names
-- the journal and the sorted recipients.
pub record Sealed (p : Platform) (w : MultisigConsumedWitness p) (journal : Bytes) : Type 0 where
  pub nullifier : p.Digest
  pub tagged : p.tag w.resource true w.nf_key ≡ some nullifier
  pub fits : FitsAll w.app_data
  pub journal_layout : journal ≡ layout (instance_of p w nullifier)
  pub recipients_counted : length w.recipient_resources < 2 ^ 32
  pub signed :
      All (Signed p w.pubkeys (p.sha256 (signed_bytes p w (p.sha256 journal)))) w.signatures

-- The spend as a whole, with the journal that it commits to.
pub record Authorized (p : Platform) (b : Build) (w : MultisigConsumedWitness p)
    (forwarder journal : Bytes) : Type 0 where
  pub identity : Identity p w
  pub policy : Policy p w
  pub change : Change p w
  pub balanced : Balanced p b w forwarder
  pub sealed : Sealed p w journal
