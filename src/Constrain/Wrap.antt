-- ===== src/Constrain/Wrap.antt =====
-- `constrain_wrap_inflow` and `constrain_wrap_outflow` of `constrain.rs`: a deposit, and the
-- ephemeral resource that balances a withdrawal.
pub mod Refinement
pub mod Refusal
pub mod Quantity
use arm_multisig_application.Base.{not, ◌>>=◌, ◌>>◌, reject_if, ok_or, length, ◌==◌}
use arm_multisig_application.Base.Bytes.{Bytes, bytes_eq}
use arm_multisig_application.Abi.{parse_external_call, parse_wrap_call_input}
use arm_multisig_application.Constants.{wrap_forwarder_op_wrap}
use arm_multisig_application.Constrain.Errors.{
  Circuit, inflow_must_be_ephemeral, wrong_nullifier_key, wrong_nullifier_key_commitment,
  wrong_label_ref, wrong_inflow_payload_count, bad_external_payload, wrap_inflow_wrong_op,
  wrap_inflow_token_mismatch, wrap_inflow_amount_mismatch, wrap_inflow_depositor_mismatch,
  outflow_must_be_ephemeral, outflow_label_mismatch, derive_nullifier_key_bytes, created_instance,
  consumed_instance,
}
use arm_multisig_application.Journal
use arm_multisig_application.Label
use arm_multisig_application.Machine.{Build, index}
use arm_multisig_application.Platform.{Platform}
use arm_multisig_application.Witness.{WrapInflowWitness, WrapOutflowWitness}

-- 1 to 3. The inflow is ephemeral, and its keys derive from the paired vault's label.
unfoldable pub check_inflow : (p : Platform) → WrapInflowWitness p → Circuit (Unit {0})
check_inflow p w = do
  reject_if (not w.resource.is_ephemeral) inflow_must_be_ephemeral
  reject_if
      (not
        (bytes_eq (p.inner w.nf_key) (derive_nullifier_key_bytes p w.paired_vault_label_preimage)))
      wrong_nullifier_key
  reject_if (not (p.nk_commitment_eq (p.commit w.nf_key) w.resource.nk_commitment))
      wrong_nullifier_key_commitment
  reject_if
      (not (
        bytes_eq (p.as_bytes w.resource.label_ref)
          (Label.label_ref p w.paired_vault_label_preimage)))
      wrong_label_ref

-- 4. Exactly one call, to the wrap forwarder, that moves the paired quantity that is witnessed.
unfoldable pub check_deposit :
    (p : Platform) → Build → WrapInflowWitness p → Bytes → Circuit (Unit {0})
check_deposit p b w wrap_forwarder = do
  let got = length w.app_data.external_payload
  reject_if (not (got == 1)) (wrong_inflow_payload_count got)
  blob ← index w.app_data.external_payload 0
  parsed ← ok_or (parse_external_call b blob.blob) (bad_external_payload 0)
  reject_if (not (bytes_eq parsed.forwarder wrap_forwarder)) (bad_external_payload 0)
  inner ← ok_or (parse_wrap_call_input b parsed.input) (bad_external_payload 0)
  reject_if (not (inner.op == wrap_forwarder_op_wrap)) wrap_inflow_wrong_op
  reject_if (not (bytes_eq inner.token w.paired_vault_label_preimage.token_addr))
      wrap_inflow_token_mismatch
  reject_if (not (inner.amount == w.paired_vault_quantity)) wrap_inflow_amount_mismatch
  reject_if (not (bytes_eq inner.from w.depositor)) wrap_inflow_depositor_mismatch

unfoldable pub constrain_wrap_inflow :
    (p : Platform) → Build → WrapInflowWitness p → Bytes → Circuit Bytes
constrain_wrap_inflow p b w wrap_forwarder = do
  check_inflow p w
  check_deposit p b w wrap_forwarder
  -- 5. The journal.
  instance_ ← consumed_instance p w.resource w.nf_key w.action_tree_root w.app_data
  Journal.encode instance_

unfoldable pub constrain_wrap_outflow : (p : Platform) → WrapOutflowWitness p → Circuit Bytes
constrain_wrap_outflow p w = do
  reject_if (not w.resource.is_ephemeral) outflow_must_be_ephemeral
  reject_if (not (bytes_eq (p.as_bytes w.resource.label_ref) (Label.label_ref p w.label_preimage)))
      outflow_label_mismatch
  Journal.encode (created_instance p w.resource w.action_tree_root w.app_data)
