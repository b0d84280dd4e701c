-- ===== src/Constrain/Errors.antt =====
-- `CircuitError` of `constrain.rs`, and the helpers that its branches share.
use arm_multisig_application.Base.{
  ℕ, Bool, true, false, ◌||◌, List, [], ◌∷◌, ◌++◌, Outcome, ok, err, panic, ◌>>=◌, some_or,
}
use arm_multisig_application.Base.Bytes.{Bytes}
use arm_multisig_application.Journal.{AppData, LogicInstance}
use arm_multisig_application.Label
use arm_multisig_application.Label.{LabelPreimage, nullifier_key_domain}
use arm_multisig_application.Platform.{Platform}
use arm_multisig_application.Sig.{SigError}
use arm_multisig_application.Witness.{ResourceOf}

pub data CircuitError : Type 0 where
  wrong_nullifier_key : CircuitError
  wrong_nullifier_key_commitment : CircuitError
  wrong_label_ref : CircuitError
  pubkey_count_mismatch : CircuitError
  unsorted_pubkeys : CircuitError
  wrong_pubkey_root : CircuitError
  wrong_signer_count : CircuitError
  bad_signer_indices : CircuitError
  change_label_mismatch : CircuitError
  change_overflow : CircuitError
  change_not_in_action : CircuitError
  recipient_not_in_action : ℕ → CircuitError
  bad_external_payload : ℕ → CircuitError
  external_token_mismatch : ℕ → CircuitError
  -- external_sum, recipient_sum, change, consumed
  conservation_broken : ℕ → ℕ → ℕ → ℕ → CircuitError
  wrap_inflow_wrong_op : CircuitError
  wrap_inflow_token_mismatch : CircuitError
  wrap_inflow_amount_mismatch : CircuitError
  wrap_inflow_depositor_mismatch : CircuitError
  inflow_must_be_ephemeral : CircuitError
  outflow_must_be_ephemeral : CircuitError
  outflow_label_mismatch : CircuitError
  zero_salt : CircuitError
  invalid_k_n : CircuitError
  wrong_inflow_payload_count : ℕ → CircuitError
  signature_error : SigError → CircuitError
  resource_error : CircuitError

-- The result of a branch.
abbrev pub Circuit : Type 0 → Type 0
Circuit A = Outcome CircuitError A

-- `?` on a signature check, by `From<SigError> for CircuitError`
abbrev pub from_sig_error : {A : Type 0} → Outcome SigError A → Circuit A
from_sig_error (ok a) = ok a
from_sig_error (err e) = err (signature_error e)
from_sig_error panic = panic

module _ (p : Platform) where
  -- `derive_nullifier_key_bytes`
  unfoldable pub derive_nullifier_key_bytes : LabelPreimage → Bytes
  derive_nullifier_key_bytes label = p.sha256 (nullifier_key_domain ++ Label.encode label)

  -- `digest_to_array`
  unfoldable pub digest_to_array : p.Digest → Bytes
  digest_to_array d = p.as_bytes d

  -- `tags.iter().any(|t| t == &d)`
  unfoldable pub any_tag : List p.Digest → p.Digest → Bool
  any_tag [] d = false
  any_tag (t ∷ tags) d = p.digest_eq t d || any_tag tags d

  -- The end of the two created branches: the instance tagged by the commitment.
  unfoldable pub created_instance : ResourceOf p → p.Digest → AppData → LogicInstance
  created_instance resource root app_data = record {
    tag = digest_to_array (p.commitment resource);
    is_consumed = false;
    action_tree_root = digest_to_array root;
    app_data = app_data;
  }

  -- The end of the two consumed branches: the instance tagged by the nullifier.
  unfoldable pub consumed_instance :
      ResourceOf p → p.NullifierKey → p.Digest → AppData → Circuit LogicInstance
  consumed_instance resource nf_key root app_data = do
    tag ← some_or (p.tag resource true nf_key) resource_error
    ok (record {
      tag = digest_to_array tag;
      is_consumed = true;
      action_tree_root = digest_to_array root;
      app_data = app_data;
    })
