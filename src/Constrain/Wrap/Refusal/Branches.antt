-- ===== src/Constrain/Wrap/Refusal/Branches.antt =====
-- `constrain_wrap_inflow` and `constrain_wrap_outflow` fail exactly with the errors of the rules.
use arm_multisig_application.Base.{
  ◌≡◌, ◌↔◌, true, not, err, refl, some_or, ok-AllErrors, >>=-AllErrors, reject_if-AllErrors,
  some_or-AllErrors, not-eq_true, not-eq_false,
}
use arm_multisig_application.Base.Bytes.{Bytes, ne→bytes_eq}
use arm_multisig_application.Base.Guards.{bytes_test-AllErrors}
use arm_multisig_application.Constrain.Errors.{CircuitError, consumed_instance}
use arm_multisig_application.Constrain.Wrap.{
  check_inflow, check_deposit, constrain_wrap_inflow, constrain_wrap_outflow,
}
use arm_multisig_application.Constrain.Wrap.Refinement.{
  check_inflow_sound, check_inflow_complete, check_deposit_sound, check_deposit_complete,
}
use arm_multisig_application.Journal.Errors.{encode-AllErrors}
use arm_multisig_application.Label
use arm_multisig_application.Label.{label_ref, nullifier_key_domain}
use arm_multisig_application.Machine.{Build}
use arm_multisig_application.Platform.{Platform, IsLawful}
use arm_multisig_application.Witness.{WrapInflowWitness, WrapOutflowWitness}
use arm_multisig_application.Constrain.Wrap.Refusal.{
  InflowRefused, unpaired, no_deposit, no_nullifier, OutflowRefused, outflow_not_ephemeral,
  outflow_other_label,
}
use arm_multisig_application.Constrain.Wrap.Refusal.Checks.{
  Unpaired-sound, Unpaired-complete, NoDeposit-sound, NoDeposit-complete,
}

InflowRefused-complete :
    (p : Platform) (b : Build) (w : WrapInflowWitness p) (forwarder : Bytes)
    → IsLawful p
    → {e : CircuitError} → InflowRefused p b w forwarder e
    → constrain_wrap_inflow p b w forwarder ≡ err e
unfolding constrain_wrap_inflow consumed_instance
InflowRefused-complete p b w forwarder law (unpaired u) = rw (Unpaired-complete p law w u) refl
InflowRefused-complete p b w forwarder law (no_deposit paired n) =
    rw (check_inflow_complete p law w paired, NoDeposit-complete p law w b forwarder n) refl
InflowRefused-complete p b w forwarder law (no_nullifier paired d h) =
    rw (check_inflow_complete p law w paired, check_deposit_complete p b w forwarder d, h) refl

-- On a lawful platform, `constrain_wrap_inflow` returns an error exactly where that error's rule holds: the
-- resource does not pair with the vault, or it does and the external calls are not the deposit of
-- the paired quantity that is witnessed, or both are in order and the resource has no nullifier; each rule says that
-- everything that is checked before its own check is in order.
pub constrain_wrap_inflow-InflowRefused :
    (p : Platform) (b : Build) (w : WrapInflowWitness p) (forwarder : Bytes) (e : CircuitError)
    → IsLawful p
    → (constrain_wrap_inflow p b w forwarder ≡ err e) ↔ InflowRefused p b w forwarder e
unfolding constrain_wrap_inflow consumed_instance
constrain_wrap_inflow-InflowRefused p b w forwarder e law =
    let P = InflowRefused p b w forwarder in
    (
      >>=-AllErrors P (check_inflow p w) _ (λ e h. unpaired (Unpaired-sound p law w e h))
          (λ _ passed.
            let paired = check_inflow_sound p law w passed in
            >>=-AllErrors P (check_deposit p b w forwarder) _
              (λ e h. no_deposit paired (NoDeposit-sound p law w b forwarder e h))
              (λ _ passed.
                let deposit = check_deposit_sound p b w forwarder passed in
                >>=-AllErrors P (consumed_instance p w.resource w.nf_key _ _) _
                  (>>=-AllErrors P (some_or (p.tag w.resource true w.nf_key) _) _
                    (some_or-AllErrors P (p.tag w.resource true w.nf_key) _
                      (λ h. no_nullifier paired deposit h))
                    (λ tag _. ok-AllErrors P _))
                  (λ i _. encode-AllErrors P i)))
          e,
      InflowRefused-complete p b w forwarder law,
    )

OutflowRefused-complete :
    (p : Platform) (w : WrapOutflowWitness p) {e : CircuitError}
    → OutflowRefused p w e
    → constrain_wrap_outflow p w ≡ err e
unfolding constrain_wrap_outflow label_ref
OutflowRefused-complete p w (outflow_not_ephemeral h) = rw h refl
OutflowRefused-complete p w (outflow_other_label h k) =
    rw
      (
        h,
        ne→bytes_eq (p.as_bytes w.resource.label_ref) (p.sha256 (Label.encode w.label_preimage)) k,
      )
      refl

-- `constrain_wrap_outflow` returns an error exactly where the resource is not ephemeral, or is and
-- has another label than the vault's, and the error says which.
pub constrain_wrap_outflow-OutflowRefused :
    (p : Platform) (w : WrapOutflowWitness p) (e : CircuitError)
    → (constrain_wrap_outflow p w ≡ err e) ↔ OutflowRefused p w e
unfolding constrain_wrap_outflow label_ref
constrain_wrap_outflow-OutflowRefused p w e =
    let P = OutflowRefused p w in
    let ref = p.as_bytes w.resource.label_ref in
    let expected = p.sha256 (Label.encode w.label_preimage) in
    (
      reject_if-AllErrors P (not w.resource.is_ephemeral) _ _
          (λ h. outflow_not_ephemeral (not-eq_true h))
          (λ h.
            bytes_test-AllErrors P ref expected _ _ (λ k. outflow_other_label (not-eq_false h) k)
              (λ _. encode-AllErrors P _))
          e,
      OutflowRefused-complete p w,
    )
