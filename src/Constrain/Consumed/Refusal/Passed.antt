-- ===== src/Constrain/Consumed/Refusal/Passed.antt =====
-- What is left of `constrain_multisig_consumed` where its first steps pass.
use arm_multisig_application.Base.{All, ℕ, ◌<◌, ◌≡◌, [], ◌>>=◌, ◌>>◌, arith}
use arm_multisig_application.Base.Bytes.{Bytes}
use arm_multisig_application.Constrain.Consumed.{
  gather_recipients, walk_payloads, check_conservation, seal, constrain_multisig_consumed,
}
use arm_multisig_application.Constrain.Consumed.Refinement.{commitments}
use arm_multisig_application.Constrain.Consumed.Refusal.{Checked}
use arm_multisig_application.Constrain.Consumed.Spec.{InAction, Withdraws, total_quantity}
use arm_multisig_application.Constrain.Consumed.Steps.{
  check_identity-Identity, check_policy-Policy, check_change-Change,
}
use arm_multisig_application.Constrain.Consumed.Sums.{
  gather_recipients_complete, walk_payloads_complete,
}
use arm_multisig_application.Machine.{Build, u128_mod}
use arm_multisig_application.Platform.{Platform, IsLawful}
use arm_multisig_application.Witness.{MultisigConsumedWitness}

module _ (p : Platform) (law : IsLawful p) (b : Build) (w : MultisigConsumedWitness p)
    (forwarder : Bytes) where
  -- What the recipients get.
  abbrev rec_sum : ℕ
  rec_sum = total_quantity p w.recipient_resources

  -- Where steps 1 to 8 pass, the rest decides.
  pub Checked-constrain :
      Checked p w
      → constrain_multisig_consumed p b w forwarder ≡ (do
        (recipient_sum, commitments) ← gather_recipients p w 0 [] 0 w.recipient_resources
        external_sum ← walk_payloads p b w forwarder recipient_sum 0 0 w.app_data.external_payload
        check_conservation p w external_sum recipient_sum
        seal p w commitments)
  unfolding constrain_multisig_consumed
  Checked-constrain c = rw (
    (check_identity-Identity p law w).1 c.identity,
    (check_policy-Policy p law w).1 c.policy,
    (check_change-Change p law w).1 c.change,
  )

  -- Where step 9 passes as well, the payloads, the balance and the signatures decide.
  pub delivered-constrain :
      Checked p w
      → All (InAction p w) w.recipient_resources
      → rec_sum < u128_mod
      → constrain_multisig_consumed p b w forwarder ≡ (do
        external_sum ← walk_payloads p b w forwarder rec_sum 0 0 w.app_data.external_payload
        check_conservation p w external_sum rec_sum
        seal p w (commitments p w))
  delivered-constrain c inside fits = rw (
    Checked-constrain c,
    gather_recipients_complete p law w 0 [] 0 w.recipient_resources rec_sum inside (omega arith)
        fits,
  )

  -- And where step 10 does, the balance and the signatures.
  pub moved-constrain :
      {moved : ℕ}
      → Checked p w
      → All (InAction p w) w.recipient_resources
      → rec_sum < u128_mod
      → Withdraws b forwarder w.label_preimage.token_addr w.app_data.external_payload moved
      → moved < u128_mod
      → constrain_multisig_consumed p b w forwarder
        ≡ (do check_conservation p w moved rec_sum; seal p w (commitments p w))
  moved-constrain {moved} c inside fits ws small = rw (
    delivered-constrain c inside fits,
    walk_payloads_complete p b w forwarder rec_sum 0 0 moved ws (omega arith) small,
  )
