-- ===== src/Constrain/Wrap/Refusal.antt =====
-- What the wrap branches refuse, and with which error: one rule for each error.
pub mod Checks
pub mod Branches
use arm_multisig_application.Base.{
  ◌≡◌, ◌≢◌, ◌↔◌, true, false, not, some, none, List, [], ◌∷◌, ◌++◌, ok, err, refl, ok_or, some_or,
  reject_if, ◌>>◌, ok_or-eq-ok, AllErrors, ok-AllErrors, >>=-AllErrors, reject_if-AllErrors,
  last_reject_if-AllErrors, some_or-AllErrors, ok_or-AllErrors, ne_false, ne_true, not-eq_true,
  not-eq_false, length, ◌==◌, ==_iff, arith,
}
use arm_multisig_application.Base.Bytes.{
  Bytes, bytes_eq, not-bytes_eq, not-bytes_eq-ne, eq→bytes_eq, ne→bytes_eq,
}
use arm_multisig_application.Base.Guards.{
  test-AllErrors, bytes_test-AllErrors, last_bytes_test-AllErrors, number_test-AllErrors,
}
use arm_multisig_application.Abi.{
  ParsedExternalCall, WrapInput, parse_external_call, parse_wrap_call_input,
}
use arm_multisig_application.Constants.{wrap_forwarder_op_wrap}
use arm_multisig_application.Constrain.Errors.{
  CircuitError, inflow_must_be_ephemeral, wrong_nullifier_key, wrong_nullifier_key_commitment,
  wrong_label_ref, wrong_inflow_payload_count, bad_external_payload, wrap_inflow_wrong_op,
  wrap_inflow_token_mismatch, wrap_inflow_amount_mismatch, wrap_inflow_depositor_mismatch,
  resource_error, outflow_must_be_ephemeral, outflow_label_mismatch, consumed_instance,
  derive_nullifier_key_bytes,
}
use arm_multisig_application.Constrain.Wrap.{
  check_inflow, check_deposit, constrain_wrap_inflow, constrain_wrap_outflow,
}
use arm_multisig_application.Constrain.Wrap.Refinement.{
  Paired, Deposit, only_item, check_inflow_sound, check_inflow_complete, check_deposit_sound,
  check_deposit_complete,
}
use arm_multisig_application.Journal.{ExpirableBlob}
use arm_multisig_application.Journal.Errors.{encode-AllErrors, index-AllErrors}
use arm_multisig_application.Label
use arm_multisig_application.Label.{label_ref, nullifier_key_domain}
use arm_multisig_application.Machine.{Build, index}
use arm_multisig_application.Platform.{Platform, IsLawful}
use arm_multisig_application.Witness.{WrapInflowWitness, WrapOutflowWitness}

-- The nullifier key that the paired vault's label gives.
abbrev pub vault_key : (p : Platform) → WrapInflowWitness p → Bytes
vault_key p w = p.sha256 (nullifier_key_domain ++ Label.encode w.paired_vault_label_preimage)

-- The resource does not pair with the vault: one rule for each error, with what is checked before.
pub data Unpaired (p : Platform) (w : WrapInflowWitness p) : CircuitError → Type 0 where
  not_ephemeral : w.resource.is_ephemeral ≡ false → Unpaired p w inflow_must_be_ephemeral
  other_key :
      w.resource.is_ephemeral ≡ true
      → p.inner w.nf_key ≢ vault_key p w
      → Unpaired p w wrong_nullifier_key
  other_commitment :
      w.resource.is_ephemeral ≡ true
      → p.inner w.nf_key ≡ vault_key p w
      → p.commit w.nf_key ≢ w.resource.nk_commitment
      → Unpaired p w wrong_nullifier_key_commitment
  other_label :
      w.resource.is_ephemeral ≡ true
      → p.inner w.nf_key ≡ vault_key p w
      → p.commit w.nf_key ≡ w.resource.nk_commitment
      → p.as_bytes w.resource.label_ref ≢ p.sha256 (Label.encode w.paired_vault_label_preimage)
      → Unpaired p w wrong_label_ref

-- The one external call goes to the forwarder.
pub record ForwarderCall (p : Platform) (b : Build) (w : WrapInflowWitness p) (forwarder : Bytes)
    (parsed : ParsedExternalCall) : Type 0 where
  pub blob : ExpirableBlob
  pub only : w.app_data.external_payload ≡ blob ∷ []
  pub call : parse_external_call b blob.blob ≡ ok parsed
  pub to_forwarder : parsed.forwarder ≡ forwarder

-- And its input can be read.
pub record WrapCall (p : Platform) (b : Build) (w : WrapInflowWitness p) (forwarder : Bytes)
    (inner : WrapInput) : Type 0 where
  pub parsed : ParsedExternalCall
  pub call : ForwarderCall p b w forwarder parsed
  pub input : parse_wrap_call_input b parsed.input ≡ ok inner

-- The external calls are not the deposit of the paired quantity that is witnessed.
pub data NoDeposit (p : Platform) (b : Build) (w : WrapInflowWitness p) (forwarder : Bytes)
    : CircuitError → Type 0 where
  call_count :
      length w.app_data.external_payload ≢ 1
      → NoDeposit p b w forwarder (wrong_inflow_payload_count (length w.app_data.external_payload))
  unreadable :
      (blob : ExpirableBlob)
      → w.app_data.external_payload ≡ blob ∷ []
      → parse_external_call b blob.blob ≡ err tt
      → NoDeposit p b w forwarder (bad_external_payload 0)
  other_forwarder :
      (blob : ExpirableBlob) (parsed : ParsedExternalCall)
      → w.app_data.external_payload ≡ blob ∷ []
      → parse_external_call b blob.blob ≡ ok parsed
      → parsed.forwarder ≢ forwarder
      → NoDeposit p b w forwarder (bad_external_payload 0)
  unreadable_input :
      (parsed : ParsedExternalCall)
      → ForwarderCall p b w forwarder parsed
      → parse_wrap_call_input b parsed.input ≡ err tt
      → NoDeposit p b w forwarder (bad_external_payload 0)
  other_op :
      (inner : WrapInput)
      → WrapCall p b w forwarder inner
      → inner.op ≢ wrap_forwarder_op_wrap
      → NoDeposit p b w forwarder wrap_inflow_wrong_op
  other_token :
      (inner : WrapInput)
      → WrapCall p b w forwarder inner
      → inner.op ≡ wrap_forwarder_op_wrap
      → inner.token ≢ w.paired_vault_label_preimage.token_addr
      → NoDeposit p b w forwarder wrap_inflow_token_mismatch
  other_amount :
      (inner : WrapInput)
      → WrapCall p b w forwarder inner
      → inner.op ≡ wrap_forwarder_op_wrap
      → inner.token ≡ w.paired_vault_label_preimage.token_addr
      → inner.amount ≢ w.paired_vault_quantity
      → NoDeposit p b w forwarder wrap_inflow_amount_mismatch
  other_depositor :
      (inner : WrapInput)
      → WrapCall p b w forwarder inner
      → inner.op ≡ wrap_forwarder_op_wrap
      → inner.token ≡ w.paired_vault_label_preimage.token_addr
      → inner.amount ≡ w.paired_vault_quantity
      → inner.from ≢ w.depositor
      → NoDeposit p b w forwarder wrap_inflow_depositor_mismatch

-- The first thing that is wrong with a deposit.
pub data InflowRefused (p : Platform) (b : Build) (w : WrapInflowWitness p) (forwarder : Bytes)
    : CircuitError → Type 0 where
  unpaired : {e : CircuitError} → Unpaired p w e → InflowRefused p b w forwarder e
  no_deposit :
      {e : CircuitError}
      → Paired p w
      → NoDeposit p b w forwarder e
      → InflowRefused p b w forwarder e
  no_nullifier :
      Paired p w
      → Deposit p b w forwarder
      → p.tag w.resource true w.nf_key ≡ none
      → InflowRefused p b w forwarder resource_error

-- The first thing that is wrong with an ephemeral resource of a withdrawal.
pub data OutflowRefused (p : Platform) (w : WrapOutflowWitness p) : CircuitError → Type 0 where
  outflow_not_ephemeral :
      w.resource.is_ephemeral ≡ false → OutflowRefused p w outflow_must_be_ephemeral
  outflow_other_label :
      w.resource.is_ephemeral ≡ true
      → p.as_bytes w.resource.label_ref ≢ p.sha256 (Label.encode w.label_preimage)
      → OutflowRefused p w outflow_label_mismatch
