-- ===== src/Fixtures/Vault.antt =====
-- Test vaults and the witnesses of `host/src/fixtures.rs`, over what the libraries make of bytes.
use arm_multisig_application.Base.{
  ℕ, ◌+◌, ◌-◌, ◌%◌, ◌≡◌, Bool, true, false, ◌>>◌, Option, List, [], ◌∷◌, ◌++◌, Outcome, ok, err,
  panic, ◌>>=◌, map, length, replicate, leb, if◌then◌else◌,
}
use arm_multisig_application.Base.Bytes.{Bytes, bytes_lt}
use arm_multisig_application.Fixtures.{encode_external_transfer}
use arm_multisig_application.Fixtures.Signer.{Signer, expect_some, sign_witness}
use arm_multisig_application.Journal.{AppData, never}
use arm_multisig_application.Label
use arm_multisig_application.Label.{
  LabelPreimage, LabelError, absorb, label_ref, nullifier_key_domain,
}
use arm_multisig_application.Platform.{Platform}
use arm_multisig_application.Witness.{ResourceOf, MultisigConsumedWitness}

-- `Digest::from_bytes`, `Digest::default`, `NullifierKey::from_bytes`, `SigningKey::from_bytes`
pub record Host (p : Platform) (s : Signer p) : Type 0 where
  pub digest_from_bytes : Bytes → p.Digest
  pub digest_default : p.Digest
  pub nf_key_from_bytes : Bytes → p.NullifierKey
  pub signing_key_from_bytes : Bytes → Option s.SigningKey

-- A nullifier key survives its bytes, and a digest those that SHA-256 gives.
pub record IsHost (p : Platform) (s : Signer p) (h : Host p s) : Type 0 where
  pub as_bytes-digest_from_bytes :
      (bs : Bytes) → p.as_bytes (h.digest_from_bytes (p.sha256 bs)) ≡ p.sha256 bs
  pub inner-nf_key_from_bytes :
      (bs : Bytes) → length bs ≡ 32 → p.inner (h.nf_key_from_bytes bs) ≡ bs

abbrev pub test_token : Bytes
test_token = replicate 20 17

abbrev pub test_recipient : Bytes
test_recipient = replicate 20 34

abbrev pub test_multisig_forwarder : Bytes
test_multisig_forwarder = replicate 20 170

pub record TestVault (p : Platform) (s : Signer p) : Type 0 where
  pub label : LabelPreimage
  pub signers : List s.SigningKey
  pub pubkeys : List Bytes
  pub nf_key : p.NullifierKey
  pub nk_commitment : p.NullifierKeyCommitment

-- `.expect(…)` on a label
abbrev pub expect_label : {E : Type 0} → Outcome LabelError LabelPreimage → Outcome E LabelPreimage
expect_label (ok label) = ok label
expect_label (err e) = panic
expect_label panic = panic

module _ (p : Platform) (s : Signer p) where
  -- The signers sorted by their public keys.
  unfoldable pub insert_signer : s.SigningKey → List s.SigningKey → List s.SigningKey
  insert_signer sk [] = sk ∷ []
  insert_signer sk (x ∷ rest) =
      if bytes_lt (s.public_key x) (s.public_key sk)
      then x ∷ insert_signer sk rest
      else sk ∷ x ∷ rest

  unfoldable pub sort_signers : List s.SigningKey → List s.SigningKey
  unfolding insert_signer
  sort_signers [] = []
  sort_signers (sk ∷ rest) = insert_signer sk (sort_signers rest)

module _ (p : Platform) (s : Signer p) (h : Host p s) where
  -- Key `i` of `deterministic`.
  unfoldable pub test_key : {E : Type 0} → ℕ → ℕ → Outcome E s.SigningKey
  test_key seed i = expect_some (h.signing_key_from_bytes (replicate 30 0 ++ i ∷ seed ∷ []))

  unfoldable pub deterministic : {E : Type 0} → ℕ → Outcome E (TestVault p s)
  deterministic seed = do
    key₀ ← test_key seed 0
    key₁ ← test_key seed 1
    key₂ ← test_key seed 2
    let signers = sort_signers p s (key₀ ∷ key₁ ∷ key₂ ∷ [])
    let pubkeys = map s.public_key signers
    let salt : Bytes = (seed + 1) % 256 ∷ replicate 31 0
    label ← expect_label (Label.new p test_token 2 pubkeys salt)
    let nf_key = h.nf_key_from_bytes (p.sha256 (nullifier_key_domain ++ Label.encode label))
    ok (record {
      label = label;
      signers = signers;
      pubkeys = pubkeys;
      nf_key = nf_key;
      nk_commitment = p.commit nf_key;
    })

  unfoldable pub label_ref_digest : TestVault p s → p.Digest
  label_ref_digest vault = h.digest_from_bytes (label_ref p vault.label)

  unfoldable pub build_resource : TestVault p s → ℕ → Bytes → Bytes → ResourceOf p
  build_resource vault quantity nonce rand_seed = record {
    logic_ref = h.digest_default;
    label_ref = label_ref_digest vault;
    quantity = quantity;
    value_ref = h.digest_default;
    is_ephemeral = false;
    nonce = nonce;
    nk_commitment = vault.nk_commitment;
    rand_seed = rand_seed;
  }

  -- The end of each builder: the tags, a root made of them, and the signatures of keys 0 and 2.
  unfoldable pub signed_witness :
      {E : Type 0}
      → TestVault p s
      → ResourceOf p
      → ResourceOf p
      → List (ResourceOf p)
      → AppData
      → Outcome E (MultisigConsumedWitness p)
  signed_witness vault resource change_resource recipient_resources app_data = do
    tag ← expect_some (p.tag resource true vault.nf_key)
    let action_tags = tag ∷ p.commitment change_resource ∷ map p.commitment recipient_resources
    let action_tree_root = h.digest_from_bytes (p.sha256 (absorb [] (map p.as_bytes action_tags)))
    let witness : MultisigConsumedWitness p = record {
      action_tree_root = action_tree_root;
      app_data = app_data;
      resource = resource;
      nf_key = vault.nf_key;
      label_preimage = vault.label;
      pubkeys = vault.pubkeys;
      signatures = [];
      change_resource = change_resource;
      recipient_resources = recipient_resources;
      action_tags = action_tags;
    }
    sign_witness p s witness vault.signers (0 ∷ 2 ∷ [])

-- `assert!`
abbrev pub assert : {E : Type 0} → Bool → Outcome E (Unit {0})
assert true = ok tt
assert false = panic

-- 32 bytes of which only the first is not zero.
abbrev pub first_byte : ℕ → Bytes
first_byte b = b ∷ replicate 31 0

-- One withdrawal to `test_recipient`.
unfoldable pub withdrawal_data : ℕ → AppData
withdrawal_data amount = record {
  resource_payload = [];
  discovery_payload = [];
  external_payload =
      record {
        deletion_criterion = never;
        blob = encode_external_transfer test_multisig_forwarder test_token test_recipient amount;
      }
      ∷ [];
  application_payload = [];
}

abbrev pub default_data : AppData
default_data = record {
  resource_payload = [];
  discovery_payload = [];
  external_payload = [];
  application_payload = [];
}

module _ (p : Platform) (s : Signer p) (h : Host p s) {E : Type 0} where
  unfoldable pub build_full_spend_witness : ℕ → ℕ → Outcome E (MultisigConsumedWitness p)
  build_full_spend_witness seed quantity = do
    vault ← deterministic p s h seed
    let resource = build_resource p s h vault quantity (first_byte 202) (first_byte 254)
    let change_resource = build_resource p s h vault 0 (first_byte 204) (first_byte 254)
    signed_witness p s h vault resource change_resource [] (withdrawal_data quantity)

  unfoldable pub build_rm_internal_witness : ℕ → ℕ → ℕ → ℕ → Outcome E (MultisigConsumedWitness p)
  build_rm_internal_witness seed recipient_seed consumed_quantity transfer_quantity = do
    assert (leb transfer_quantity consumed_quantity)
    vault ← deterministic p s h seed
    recipient_vault ← deterministic p s h recipient_seed
    let resource = build_resource p s h vault consumed_quantity (first_byte 202) (first_byte 254)
    let change_resource =
        build_resource p s h vault (consumed_quantity - transfer_quantity) (first_byte 204)
          (first_byte 254)
    let recipient_resource =
        build_resource p s h recipient_vault transfer_quantity (first_byte 221) (first_byte 254)
    signed_witness p s h vault resource change_resource (recipient_resource ∷ []) default_data
