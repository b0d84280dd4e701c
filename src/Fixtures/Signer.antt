-- ===== src/Fixtures/Signer.antt =====
-- The signing half of `host/src/fixtures.rs`, over k256's signing keys.
use arm_multisig_application.Base.{
  ℕ, ◌%◌, ◌^◌, ◌≡◌, true, Option, none, some, List, [], ◌∷◌, Outcome, ok, panic, ◌>>=◌, map,
}
use arm_multisig_application.Base.Bytes.{Bytes}
use arm_multisig_application.Constrain.Errors.{digest_to_array}
use arm_multisig_application.Journal
use arm_multisig_application.Journal.{LogicInstance}
use arm_multisig_application.Machine.{index}
use arm_multisig_application.Platform.{Platform}
use arm_multisig_application.Spend
use arm_multisig_application.Spend.{spend_message}
use arm_multisig_application.Witness.{SignerSlot, MultisigConsumedWitness}

-- `k256::ecdsa::SigningKey` and what the host calls on it: the compressed public key, the signature
-- of what a hasher was updated with, and the DER form of a signature.
pub record Signer (p : Platform) : Type 1 where
  pub SigningKey : Type 0
  pub public_key : SigningKey → Bytes
  pub sign_digest : SigningKey → Bytes → p.Signature
  pub to_der : p.Signature → Bytes

-- What k256 documents: a public key and a signature survive encoding; a signature verifies with its
-- key; `normalize_s` gives the low form, which it leaves alone and which verifies where the other
-- does.
pub record IsSigner (p : Platform) (s : Signer p) : Type 0 where
  pub verifying_key : s.SigningKey → p.VerifyingKey
  pub from_sec1_bytes-public_key :
      (sk : s.SigningKey) → p.from_sec1_bytes (s.public_key sk) ≡ some (verifying_key sk)
  pub from_der-to_der : (sig : p.Signature) → p.from_der (s.to_der sig) ≡ some sig
  pub verifies :
      (sk : s.SigningKey) (msg : Bytes)
      → p.verify_digest (verifying_key sk) msg (s.sign_digest sk msg) ≡ true
  pub low_form : (sig low : p.Signature) → p.normalize_s sig ≡ some low → p.normalize_s low ≡ none
  pub low_verifies :
      (vk : p.VerifyingKey) (msg : Bytes) (sig low : p.Signature)
      → p.normalize_s sig ≡ some low
      → p.verify_digest vk msg sig ≡ true
      → p.verify_digest vk msg low ≡ true

-- `.unwrap_or(default)`
abbrev pub unwrap_or : {A : Type 0} → Option A → A → A
unwrap_or none default = default
unwrap_or (some a) default = a

-- `.expect(…)` on an `Option`
abbrev pub expect_some : {E A : Type 0} → Option A → Outcome E A
expect_some none = panic
expect_some (some a) = ok a

module _ {E : Type 0} (p : Platform) where
  unfoldable pub compute_spend_message : MultisigConsumedWitness p → Outcome E Bytes
  compute_spend_message witness = do
    tag ← expect_some (p.tag witness.resource true witness.nf_key)
    let instance_ : LogicInstance = record {
      tag = digest_to_array p tag;
      is_consumed = true;
      action_tree_root = digest_to_array p witness.action_tree_root;
      app_data = witness.app_data;
    }
    bytes ← Journal.encode instance_
    let journal_digest = p.sha256 bytes
    let recipients =
        Spend.new (map (λ r. digest_to_array p (p.commitment r)) witness.recipient_resources)
    spend_message p journal_digest recipients

module _ (p : Platform) (s : Signer p) where
  unfoldable pub sign_low_s_der : s.SigningKey → Bytes → Bytes
  sign_low_s_der sk msg =
      let sig = s.sign_digest sk msg in s.to_der (unwrap_or (p.normalize_s sig) sig)

  -- The loop of `sign_witness`.
  unfoldable pub sign_slots :
      {E : Type 0} → List s.SigningKey → Bytes → List ℕ → Outcome E (List SignerSlot)
  sign_slots signers msg [] = ok []
  sign_slots signers msg (i ∷ indices) = do
    signer ← index signers i
    let slot : SignerSlot = record { idx = i % 2 ^ 32; sig_der = sign_low_s_der signer msg }
    slots ← sign_slots signers msg indices
    ok (slot ∷ slots)

  unfoldable pub sign_witness :
      {E : Type 0}
      → MultisigConsumedWitness p
      → List s.SigningKey
      → List ℕ
      → Outcome E (MultisigConsumedWitness p)
  sign_witness witness signers indices = do
    msg ← compute_spend_message p witness
    signatures ← sign_slots signers msg indices
    ok (record witness { signatures = signatures })
