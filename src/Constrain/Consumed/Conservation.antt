-- ===== src/Constrain/Consumed/Conservation.antt =====
-- What `constrain_multisig_consumed` answers where the amounts do not add up.
use arm_multisig_application.Base.{ℕ, ◌+◌, ◌<◌, ◌≡◌, ◌≢◌, [], err, refl, All, arith}
use arm_multisig_application.Base.Bytes.{Bytes}
use arm_multisig_application.Constrain.Consumed.{constrain_multisig_consumed, check_conservation}
use arm_multisig_application.Constrain.Consumed.Spec.{
  Identity, Policy, Change, InAction, Withdraws, total_quantity,
}
use arm_multisig_application.Constrain.Consumed.Steps.{
  check_identity-Identity, check_policy-Policy, check_change-Change,
}
use arm_multisig_application.Constrain.Consumed.Sums.{
  gather_recipients_complete, walk_payloads_complete,
}
use arm_multisig_application.Constrain.Errors.{conservation_broken}
use arm_multisig_application.Machine.{Build, u128_mod, checked_add}
use arm_multisig_application.Platform.{Platform, IsLawful}
use arm_multisig_application.Witness.{MultisigConsumedWitness}

pub check_conservation-err :
    (p : Platform) (w : MultisigConsumedWitness p) (ext rec : ℕ)
    → w.resource.quantity < u128_mod
    → ext + rec + w.change_resource.quantity ≢ w.resource.quantity
    → check_conservation p w ext rec
      ≡ err (conservation_broken ext rec w.change_resource.quantity w.resource.quantity)
unfolding check_conservation checked_add
check_conservation-err p w ext rec bound differs = ground arith

-- Where identity, policy, change and recipients are in order, the withdrawals of the vault's token
-- come to `t`, and `t`, what the recipients get and the change do not add up to the 128-bit quantity
-- that is spent, the spend is refused with an error that names the four amounts, whatever the
-- slots' signatures are and even where the sum exceeds 128 bits.
pub constrain_multisig_consumed-conservation_broken :
    (p : Platform) (b : Build) (w : MultisigConsumedWitness p) (forwarder : Bytes) {t : ℕ}
    → IsLawful p
    → Identity p w
    → Policy p w
    → Change p w
    → All (InAction p w) w.recipient_resources
    → Withdraws b forwarder w.label_preimage.token_addr w.app_data.external_payload t
    → t < u128_mod
    → total_quantity p w.recipient_resources < u128_mod
    → w.resource.quantity < u128_mod
    → t + total_quantity p w.recipient_resources + w.change_resource.quantity ≢ w.resource.quantity
    → constrain_multisig_consumed p b w forwarder
      ≡ err (
          conservation_broken t
            (total_quantity p w.recipient_resources)
            w.change_resource.quantity
            w.resource.quantity)
unfolding constrain_multisig_consumed
constrain_multisig_consumed-conservation_broken p b w forwarder {t} law identity policy change
      inside moved ft fr bound differs =
    let rec_sum = total_quantity p w.recipient_resources in
    rw
      (
        (check_identity-Identity p law w).1 identity,
        (check_policy-Policy p law w).1 policy,
        (check_change-Change p law w).1 change,
        gather_recipients_complete p law w 0 [] 0 w.recipient_resources rec_sum inside (omega arith)
            fr,
        walk_payloads_complete p b w forwarder rec_sum 0 0 t moved (omega arith) ft,
        check_conservation-err p w t rec_sum bound differs,
      )
      refl
