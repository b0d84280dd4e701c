-- ===== src/Constrain/Returns.antt =====
-- The created and the wrap branches do not panic.
use arm_multisig_application.Base.{
  ◌≢◌, not, panic, ok_or, ok_or-eq-ok, >>=_returns, reject_if-bind_returns, ok_or_returns, length,
  ◌==◌, ◌&&◌, ◌||◌, leb, ltb, All, subst, sym, replicate, arith,
}
use arm_multisig_application.Base.Bytes.{Bytes, bytes_eq}
use arm_multisig_application.Abi.{parse_external_call, parse_wrap_call_input}
use arm_multisig_application.Abi.Panics.{index_returns}
use arm_multisig_application.Abi.Returns.{
  DepositReadable, parse_external_call_returns, parse_wrap_call_input_returns,
}
use arm_multisig_application.Constrain.Consumed.Total.{
  consumed_instance_returns, consumed_instance-app_data, encode_returns,
}
use arm_multisig_application.Constrain.Created.{constrain_multisig_created}
use arm_multisig_application.Constrain.Errors.{consumed_instance, created_instance}
use arm_multisig_application.Constrain.Wrap.{
  check_inflow, check_deposit, constrain_wrap_inflow, constrain_wrap_outflow,
}
use arm_multisig_application.Constrain.Wrap.Refinement.{only_item}
use arm_multisig_application.Journal.Layout.{FitsAll}
use arm_multisig_application.Label.{label_ref}
use arm_multisig_application.Machine.{Build, index}
use arm_multisig_application.Platform.{Platform}
use arm_multisig_application.Witness.{MultisigCreatedWitness, WrapInflowWitness, WrapOutflowWitness}

module _ (p : Platform) where
  check_inflow_returns : (w : WrapInflowWitness p) → check_inflow p w ≢ panic
  unfolding check_inflow
  check_inflow_returns w h = ground arith

  check_deposit_returns :
      (b : Build) (w : WrapInflowWitness p) (forwarder : Bytes)
      → All (λ blob. DepositReadable b blob.blob) w.app_data.external_payload
      → check_deposit p b w forwarder ≢ panic
  unfolding check_deposit
  check_deposit_returns b w forwarder fine =
      let payload = w.app_data.external_payload in
      reject_if-bind_returns (not (length payload == 1)) _ _ (λ one.
        >>=_returns (index payload 0) _ (index_returns payload 0 (ground arith)) (λ blob at.
          let here : DepositReadable b blob.blob =
            (subst (All (λ blob. DepositReadable b blob.blob)) (only_item payload one at) fine).0 in
          let outer = parse_external_call b blob.blob in
          >>=_returns (ok_or outer _) _
            (ok_or_returns outer _
              (parse_external_call_returns b blob.blob here.input_offset here.expected_offset))
            (λ parsed read.
              let input = parse_wrap_call_input b parsed.input in
              let fits = here.inner parsed (ok_or-eq-ok _ _ read) in
              reject_if-bind_returns (not (bytes_eq parsed.forwarder forwarder)) _ _ (λ _.
                >>=_returns (ok_or input _) _
                  (ok_or_returns input _ (parse_wrap_call_input_returns b parsed.input fits))
                  (λ inner _ h. ground arith)))))

  -- On every target, `constrain_wrap_inflow` returns a journal or an error and does not panic where
  -- the journal's lengths fit 32 bits and no offset of an external call is among the last 32 values
  -- of `usize`.
  pub constrain_wrap_inflow_returns :
      (b : Build) (w : WrapInflowWitness p) (forwarder : Bytes)
      → FitsAll w.app_data
      → All (λ blob. DepositReadable b blob.blob) w.app_data.external_payload
      → constrain_wrap_inflow p b w forwarder ≢ panic
  unfolding constrain_wrap_inflow
  constrain_wrap_inflow_returns b w forwarder fits fine =
      >>=_returns (check_inflow p w) _ (check_inflow_returns w) (λ _ _.
        >>=_returns (check_deposit p b w forwarder) _ (check_deposit_returns b w forwarder fine)
          (λ _ _.
            >>=_returns (consumed_instance p w.resource w.nf_key w.action_tree_root w.app_data) _
              (consumed_instance_returns p w.resource w.nf_key w.action_tree_root w.app_data)
              (λ i made.
                let same =
                  consumed_instance-app_data p w.resource w.nf_key w.action_tree_root w.app_data
                    made in
                encode_returns p i (subst FitsAll (sym same) fits))))

  -- `constrain_wrap_outflow` does not panic where the journal's lengths fit 32 bits.
  pub constrain_wrap_outflow_returns :
      (w : WrapOutflowWitness p) → FitsAll w.app_data → constrain_wrap_outflow p w ≢ panic
  unfolding constrain_wrap_outflow created_instance
  constrain_wrap_outflow_returns w fits =
      reject_if-bind_returns (not w.resource.is_ephemeral) _ _ (λ _.
        reject_if-bind_returns
          (not (bytes_eq (p.as_bytes w.resource.label_ref) (label_ref p w.label_preimage))) _ _
          (λ _.
            encode_returns p (created_instance p w.resource w.action_tree_root w.app_data) fits))

  -- `constrain_multisig_created` does not panic where the journal's lengths fit 32 bits.
  pub constrain_multisig_created_returns :
      (w : MultisigCreatedWitness p) → FitsAll w.app_data → constrain_multisig_created p w ≢ panic
  unfolding constrain_multisig_created created_instance
  constrain_multisig_created_returns w fits =
      let label = w.label_preimage in
      reject_if-bind_returns (bytes_eq label.salt (replicate 32 0)) _ _ (λ _.
        reject_if-bind_returns
          (not (leb 1 label.n && leb label.n 32) || (label.k == 0 || ltb label.n label.k)) _ _
          (λ _.
            reject_if-bind_returns
              (not (bytes_eq (p.as_bytes w.resource.label_ref) (label_ref p label))) _ _
              (λ _.
                encode_returns p (created_instance p w.resource w.action_tree_root w.app_data)
                  fits)))
