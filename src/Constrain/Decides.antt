-- ===== src/Constrain/Decides.antt =====
-- Each branch decides: it accepts what its specification admits, and refuses the rest by a rule.
use arm_multisig_application.Base.{
  ◌^◌, ◌<◌, ◌≡◌, ◌⊎◌, inl, inr, ok, err, returns-cases, length, All,
}
use arm_multisig_application.Base.Bytes.{Bytes}
use arm_multisig_application.Abi.Returns.{Readable, DepositReadable}
use arm_multisig_application.Constrain.Consumed.{constrain_multisig_consumed}
use arm_multisig_application.Constrain.Consumed.Refinement.{constrain_multisig_consumed-Authorized}
use arm_multisig_application.Constrain.Consumed.Refusal.{Refused}
use arm_multisig_application.Constrain.Consumed.Refusal.Branch.{constrain_multisig_consumed-Refused}
use arm_multisig_application.Constrain.Consumed.Spec.{Authorized}
use arm_multisig_application.Constrain.Consumed.Total.{constrain_multisig_consumed_returns}
use arm_multisig_application.Constrain.Errors.{CircuitError}
use arm_multisig_application.Constrain.Returns.{constrain_wrap_inflow_returns}
use arm_multisig_application.Constrain.Wrap.{constrain_wrap_inflow}
use arm_multisig_application.Constrain.Wrap.Refinement.{
  Paired, Deposit, Nullified, constrain_wrap_inflow-Deposit,
}
use arm_multisig_application.Constrain.Wrap.Refusal.{InflowRefused}
use arm_multisig_application.Constrain.Wrap.Refusal.Branches.{constrain_wrap_inflow-InflowRefused}
use arm_multisig_application.Journal.Layout.{FitsAll}
use arm_multisig_application.Machine.{Build, u128_mod}
use arm_multisig_application.Platform.{Platform, IsLawful}
use arm_multisig_application.Witness.{MultisigConsumedWitness, WrapInflowWitness}

-- On a lawful platform and every target, where the quantity that is spent fits 128 bits, the
-- journal's lengths and the number of recipients fit 32 bits and no offset of an external call is
-- among the last 32 values of `usize`, `constrain_multisig_consumed` does not panic: it returns a
-- journal, with which the spend is authorized, or an error whose rule holds. No spend is outside
-- the two descriptions.
pub constrain_multisig_consumed-decides :
    (p : Platform) (b : Build) (w : MultisigConsumedWitness p) (forwarder : Bytes)
    → IsLawful p
    → w.resource.quantity < u128_mod
    → FitsAll w.app_data
    → length w.recipient_resources < 2 ^ 32
    → All (λ blob. Readable b blob.blob) w.app_data.external_payload
    → ((journal : Bytes) × (constrain_multisig_consumed p b w forwarder ≡ ok journal)
        × Authorized p b w forwarder journal)
      ⊎ ((e : CircuitError) × (constrain_multisig_consumed p b w forwarder ≡ err e)
          × Refused p b w forwarder e)
constrain_multisig_consumed-decides p b w forwarder law bound fits few fine =
    elim (returns-cases (constrain_multisig_consumed p b w forwarder)
      (constrain_multisig_consumed_returns p b w forwarder law fits few fine)) [
        | inl (journal, h) ↦ inl (
          journal,
          h,
          (constrain_multisig_consumed-Authorized p b w forwarder journal law bound).0 h,
        )
        | inr (e, h) ↦
            inr (e, h, (constrain_multisig_consumed-Refused p b w forwarder e law bound).0 h)
      ]

-- On a lawful platform and every target, where the journal's lengths fit 32 bits and no offset of
-- an external call is among the last 32 values of `usize`, `constrain_wrap_inflow` does not panic:
-- it returns a journal, and the resource pairs with the vault, the call is the deposit and the
-- journal is the consumed resource's, or an error whose rule holds.
pub constrain_wrap_inflow-decides :
    (p : Platform) (b : Build) (w : WrapInflowWitness p) (forwarder : Bytes)
    → IsLawful p
    → FitsAll w.app_data
    → All (λ blob. DepositReadable b blob.blob) w.app_data.external_payload
    → ((journal : Bytes) × (constrain_wrap_inflow p b w forwarder ≡ ok journal)
        × (Paired p w × (Deposit p b w forwarder × Nullified p w journal)))
      ⊎ ((e : CircuitError) × (constrain_wrap_inflow p b w forwarder ≡ err e)
          × InflowRefused p b w forwarder e)
constrain_wrap_inflow-decides p b w forwarder law fits fine =
    elim (returns-cases (constrain_wrap_inflow p b w forwarder)
      (constrain_wrap_inflow_returns p b w forwarder fits fine)) [
        | inl (journal, h) ↦
            inl (journal, h, (constrain_wrap_inflow-Deposit p b w forwarder journal law).0 h)
        | inr (e, h) ↦ inr (e, h, (constrain_wrap_inflow-InflowRefused p b w forwarder e law).0 h)
      ]
