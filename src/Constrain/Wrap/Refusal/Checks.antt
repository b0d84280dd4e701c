-- ===== src/Constrain/Wrap/Refusal/Checks.antt =====
-- The checks of `constrain_wrap_inflow` fail exactly with the errors of the rules.
use arm_multisig_application.Base.{
  ◌≡◌, not, err, refl, ok_or, reject_if, ◌>>◌, ok_or-eq-ok, AllErrors, >>=-AllErrors,
  reject_if-AllErrors, ok_or-AllErrors, ne_true, not-eq_true, not-eq_false, length, ◌==◌, ==_iff,
}
use arm_multisig_application.Base.Bytes.{Bytes, bytes_eq, eq→bytes_eq, ne→bytes_eq}
use arm_multisig_application.Base.Guards.{
  test-AllErrors, bytes_test-AllErrors, last_bytes_test-AllErrors, number_test-AllErrors,
}
use arm_multisig_application.Abi.{WrapInput, parse_external_call, parse_wrap_call_input}
use arm_multisig_application.Constants.{wrap_forwarder_op_wrap}
use arm_multisig_application.Constrain.Errors.{
  CircuitError, wrap_inflow_wrong_op, wrap_inflow_token_mismatch, wrap_inflow_amount_mismatch,
  wrap_inflow_depositor_mismatch, derive_nullifier_key_bytes,
}
use arm_multisig_application.Constrain.Wrap.{check_inflow, check_deposit}
use arm_multisig_application.Constrain.Wrap.Refinement.{only_item}
use arm_multisig_application.Journal.Errors.{index-AllErrors}
use arm_multisig_application.Label
use arm_multisig_application.Label.{label_ref, nullifier_key_domain}
use arm_multisig_application.Machine.{Build, index}
use arm_multisig_application.Platform.{Platform, IsLawful}
use arm_multisig_application.Witness.{WrapInflowWitness}
use arm_multisig_application.Constrain.Wrap.Refusal.{
  Unpaired, not_ephemeral, other_key, other_commitment, other_label, vault_key, ForwarderCall,
  WrapCall, NoDeposit, call_count, unreadable, other_forwarder, unreadable_input, other_op,
  other_token, other_amount, other_depositor,
}

module _ (p : Platform) (law : IsLawful p) (w : WrapInflowWitness p) where
  pub Unpaired-sound : AllErrors (Unpaired p w) (check_inflow p w)
  unfolding check_inflow derive_nullifier_key_bytes label_ref
  Unpaired-sound =
      let P = Unpaired p w in
      let label = w.paired_vault_label_preimage in
      let key = p.inner w.nf_key in
      let ref = p.as_bytes w.resource.label_ref in
      let commitment = p.commit w.nf_key in
      reject_if-AllErrors P (not w.resource.is_ephemeral) _ _ (λ h. not_ephemeral (not-eq_true h))
        (λ h.
          let e = not-eq_false h in
          bytes_test-AllErrors P key (vault_key p w) _ _ (λ h. other_key e h)
            (λ k.
              test-AllErrors P _ _ (law.nk_commitment_eq_iff commitment w.resource.nk_commitment)
                (λ h. other_commitment e k h)
                (λ c.
                  last_bytes_test-AllErrors P ref (p.sha256 (Label.encode label)) _
                    (λ h. other_label e k c h))))

  pub Unpaired-complete : {e : CircuitError} → Unpaired p w e → check_inflow p w ≡ err e
  unfolding check_inflow derive_nullifier_key_bytes label_ref
  Unpaired-complete (not_ephemeral h) = rw h refl
  Unpaired-complete (other_key h k) = rw (h, ne→bytes_eq (p.inner w.nf_key) (vault_key p w) k) refl
  Unpaired-complete (other_commitment h k c) =
      let nk_iff = law.nk_commitment_eq_iff (p.commit w.nf_key) w.resource.nk_commitment in
      rw (h, eq→bytes_eq (p.inner w.nf_key) (vault_key p w) k, ne_true (λ s. c (nk_iff.0 s))) refl
  Unpaired-complete (other_label h k c l) =
      let nk_iff = law.nk_commitment_eq_iff (p.commit w.nf_key) w.resource.nk_commitment in
      rw
        (
          h,
          eq→bytes_eq (p.inner w.nf_key) (vault_key p w) k,
          nk_iff.1 c,
          ne→bytes_eq (p.as_bytes w.resource.label_ref)
              (p.sha256 (Label.encode w.paired_vault_label_preimage)) l,
        )
        refl

  module _ (b : Build) (forwarder : Bytes) where
    -- The errors of the comparisons at the end.
    fields-AllErrors :
        (inner : WrapInput)
        → WrapCall p b w forwarder inner
        → AllErrors (NoDeposit p b w forwarder) (do
          reject_if (not (inner.op == wrap_forwarder_op_wrap)) wrap_inflow_wrong_op
          reject_if
              (not (bytes_eq inner.token w.paired_vault_label_preimage.token_addr))
              wrap_inflow_token_mismatch
          reject_if (not (inner.amount == w.paired_vault_quantity)) wrap_inflow_amount_mismatch
          reject_if (not (bytes_eq inner.from w.depositor)) wrap_inflow_depositor_mismatch)
    fields-AllErrors inner call =
        let P = NoDeposit p b w forwarder in
        number_test-AllErrors P inner.op wrap_forwarder_op_wrap _ _ (λ h. other_op inner call h)
          (λ o.
            bytes_test-AllErrors P inner.token w.paired_vault_label_preimage.token_addr _ _
              (λ h. other_token inner call o h)
              (λ t.
                number_test-AllErrors P inner.amount w.paired_vault_quantity _ _
                  (λ h. other_amount inner call o t h)
                  (λ a.
                    last_bytes_test-AllErrors P inner.from w.depositor _
                      (λ h. other_depositor inner call o t a h))))

    pub NoDeposit-sound : AllErrors (NoDeposit p b w forwarder) (check_deposit p b w forwarder)
    unfolding check_deposit
    NoDeposit-sound =
        let P = NoDeposit p b w forwarder in
        let payload = w.app_data.external_payload in
        reject_if-AllErrors P (not (length payload == 1)) _ _
          (λ h. call_count (λ e. cc (not-eq_true h, (==_iff (length payload) 1).1 e)))
          (λ one. >>=-AllErrors P (index payload 0) _ (index-AllErrors P payload 0) (λ blob at.
            let only = only_item payload one at in
            let outer = parse_external_call b blob.blob in
            >>=-AllErrors P (ok_or outer _) _
              (ok_or-AllErrors P outer _ (λ h. unreadable blob only h))
              (λ parsed read.
                let call = ok_or-eq-ok _ _ read in
                let input = parse_wrap_call_input b parsed.input in
                bytes_test-AllErrors P parsed.forwarder forwarder _ _
                  (λ h. other_forwarder blob parsed only call h)
                  (λ to.
                    let made : ForwarderCall p b w forwarder parsed = record {
                      blob = blob;
                      only = only;
                      call = call;
                      to_forwarder = to;
                    } in
                    >>=-AllErrors P (ok_or input _) _
                      (ok_or-AllErrors P input _ (λ h. unreadable_input parsed made h))
                      (λ inner got.
                        fields-AllErrors inner (record {
                          parsed = parsed;
                          call = made;
                          input = ok_or-eq-ok _ _ got;
                        }))))))

    -- Up to the comparisons of the fields.
    WrapCall-check_deposit :
        (inner : WrapInput)
        → WrapCall p b w forwarder inner
        → check_deposit p b w forwarder ≡ (do
          reject_if (not (inner.op == wrap_forwarder_op_wrap)) wrap_inflow_wrong_op
          reject_if
              (not (bytes_eq inner.token w.paired_vault_label_preimage.token_addr))
              wrap_inflow_token_mismatch
          reject_if (not (inner.amount == w.paired_vault_quantity)) wrap_inflow_amount_mismatch
          reject_if (not (bytes_eq inner.from w.depositor)) wrap_inflow_depositor_mismatch)
    unfolding check_deposit index
    WrapCall-check_deposit inner c = rw (
      c.call.only,
      c.call.call,
      eq→bytes_eq c.parsed.forwarder forwarder c.call.to_forwarder,
      c.input,
    )

    pub NoDeposit-complete :
        {e : CircuitError} → NoDeposit p b w forwarder e → check_deposit p b w forwarder ≡ err e
    unfolding check_deposit index
    NoDeposit-complete (call_count h) =
        rw (ne_true (λ e. h ((==_iff (length w.app_data.external_payload) 1).0 e))) refl
    NoDeposit-complete (unreadable blob only h) = rw (only, h) refl
    NoDeposit-complete (other_forwarder blob parsed only call h) =
        rw (only, call, ne→bytes_eq parsed.forwarder forwarder h) refl
    NoDeposit-complete (unreadable_input parsed c h) =
        rw (c.only, c.call, eq→bytes_eq parsed.forwarder forwarder c.to_forwarder, h) refl
    NoDeposit-complete (other_op inner c h) =
        rw
          (
            WrapCall-check_deposit inner c,
            ne_true (λ e. h ((==_iff inner.op wrap_forwarder_op_wrap).0 e)),
          )
          refl
    NoDeposit-complete (other_token inner c o h) =
        rw
          (
            WrapCall-check_deposit inner c,
            o,
            ne→bytes_eq inner.token w.paired_vault_label_preimage.token_addr h,
          )
          refl
    NoDeposit-complete (other_amount inner c o t h) =
        rw
          (
            WrapCall-check_deposit inner c,
            o,
            eq→bytes_eq inner.token w.paired_vault_label_preimage.token_addr t,
            ne_true (λ e. h ((==_iff inner.amount w.paired_vault_quantity).0 e)),
          )
          refl
    NoDeposit-complete (other_depositor inner c o t a h) =
        rw
          (
            WrapCall-check_deposit inner c,
            o,
            eq→bytes_eq inner.token w.paired_vault_label_preimage.token_addr t,
            (==_iff inner.amount w.paired_vault_quantity).1 a,
            ne→bytes_eq inner.from w.depositor h,
          )
          refl
