-- ===== src/Constrain/Consumed/Total.antt =====
-- `constrain_multisig_consumed` does not panic.
use arm_multisig_application.Base.{
  ◌>>=◌, ◌>>◌, true, sym, ap, subst, length-map, ok_unique, >>=-eq-ok, ◌^◌, ◌<◌, ◌≡◌, refl, ◌≢◌,
  List, [], ok, panic, some_or, >>=_returns, some_or_returns, length, All, arith,
}
use arm_multisig_application.Base.Bytes.{Bytes}
use arm_multisig_application.Abi.Returns.{Readable}
use arm_multisig_application.Constrain.Consumed.{
  check_identity, check_policy, check_change, gather_recipients, walk_payloads, check_conservation,
  verify_slots, seal, constrain_multisig_consumed,
}
use arm_multisig_application.Constrain.Consumed.Spec.{Policy, commitment_bytes}
use arm_multisig_application.Constrain.Consumed.Steps.{check_policy-Policy}
use arm_multisig_application.Constrain.Consumed.Sums.{gather_recipients_sound}
use arm_multisig_application.Constrain.Consumed.Returns.{
  check_identity_returns, check_policy_returns, check_change_returns, gather_recipients_returns,
  check_conservation_returns, verify_slots_returns, walk_payloads_returns,
}
use arm_multisig_application.Spend.Message.{spend_preimage-bytes}
use arm_multisig_application.Constrain.Errors.{CircuitError, consumed_instance}
use arm_multisig_application.Journal
use arm_multisig_application.Journal.{ExpirableBlob, AppData, LogicInstance}
use arm_multisig_application.Journal.Layout.{FitsAll, encode-layout}
use arm_multisig_application.Machine.{Build}
use arm_multisig_application.Platform.{Platform, IsLawful}
use arm_multisig_application.Spend
use arm_multisig_application.Spend.{spend_message, spend_preimage}
use arm_multisig_application.Witness.{ResourceOf, MultisigConsumedWitness}

module _ (p : Platform) where
  -- The instance carries the application data of the witness, and making it does not panic.
  pub consumed_instance_returns :
      (r : ResourceOf p) (key : p.NullifierKey) (root : p.Digest) (app : AppData)
      → consumed_instance p r key root app ≢ panic
  unfolding consumed_instance
  consumed_instance_returns r key root app h =
      >>=_returns (some_or (p.tag r true key) _) _ (some_or_returns _ _) (λ tag _ k. cc k) h

  pub consumed_instance-app_data :
      (r : ResourceOf p) (key : p.NullifierKey) (root : p.Digest) (app : AppData)
      {i : LogicInstance}
      → consumed_instance p r key root app ≡ ok i
      → i.app_data ≡ app
  unfolding consumed_instance
  consumed_instance-app_data r key root app h =
      let (tag, _, same) = >>=-eq-ok (some_or (p.tag r true key) _) _ h in
      ap (λ i. i.app_data) (ok_unique same refl)

  pub encode_returns :
      (i : LogicInstance) → FitsAll i.app_data → Journal.encode {E = CircuitError} i ≢ panic
  encode_returns i fits h = cc (h, encode-layout {E = CircuitError} i fits)

  spend_message_returns :
      (digest : Bytes) (cs : List Bytes)
      → length cs < 2 ^ 32
      → spend_message {E = CircuitError} p digest (Spend.new cs) ≢ panic
  unfolding spend_message
  spend_message_returns digest cs few h =
      >>=_returns (spend_preimage {E = CircuitError} digest (Spend.new cs)) _
        (λ k. cc (k, spend_preimage-bytes {E = CircuitError} digest cs few)) (λ taken _ k. cc k) h

  seal_returns :
      (w : MultisigConsumedWitness p) (cs : List Bytes)
      → FitsAll w.app_data
      → length cs < 2 ^ 32
      → All (λ s. s.idx < length w.pubkeys) w.signatures
      → seal p w cs ≢ panic
  unfolding seal
  seal_returns w cs fits few within h =
      >>=_returns (consumed_instance p w.resource w.nf_key w.action_tree_root w.app_data) _
        (consumed_instance_returns w.resource w.nf_key w.action_tree_root w.app_data)
        (λ i made.
          let same =
            consumed_instance-app_data w.resource w.nf_key w.action_tree_root w.app_data made in
          >>=_returns (Journal.encode i) _ (encode_returns i (subst FitsAll (sym same) fits))
            (λ journal _.
              >>=_returns (spend_message p (p.sha256 journal) (Spend.new cs)) _
                (spend_message_returns (p.sha256 journal) cs few)
                (λ msg _.
                  >>=_returns (verify_slots p w.pubkeys msg w.signatures) _
                    (verify_slots_returns p w.pubkeys msg w.signatures within) (λ _ _ k. cc k))))
        h

-- What follows the checks of the identity, the policy and the change.
after_checks :
    (p : Platform) (b : Build) (w : MultisigConsumedWitness p) (forwarder : Bytes)
    → IsLawful p
    → FitsAll w.app_data
    → length w.recipient_resources < 2 ^ 32
    → All (λ blob. Readable b blob.blob) w.app_data.external_payload
    → Policy p w
    → (do
      (recipient_sum, commitments) ← gather_recipients p w 0 [] 0 w.recipient_resources
      external_sum ← walk_payloads p b w forwarder recipient_sum 0 0 w.app_data.external_payload
      check_conservation p w external_sum recipient_sum
      seal p w commitments)
      ≢ panic
after_checks p b w forwarder law fits few fine policy =
    >>=_returns (gather_recipients p w 0 [] 0 w.recipient_resources) _
      (gather_recipients_returns p w 0 [] 0 w.recipient_resources)
      (λ (sum, cs) at.
        let (_, all, _) = gather_recipients_sound p law w 0 [] 0 w.recipient_resources at in
        let counted : length cs < 2 ^ 32 =
          omega (arith, ap length all, length-map (commitment_bytes p) w.recipient_resources) in
        let within =
          subst (λ n. All (λ s. s.idx < n) w.signatures) (sym policy.key_count)
            policy.signers.in_range in
        >>=_returns (walk_payloads p b w forwarder sum 0 0 w.app_data.external_payload) _
          (walk_payloads_returns p b w forwarder sum 0 0 w.app_data.external_payload fine)
          (λ ext _.
            >>=_returns (check_conservation p w ext sum) _ (check_conservation_returns p w ext sum)
              (λ _ _. seal_returns p w cs fits counted within)))

-- On a lawful platform and every target, `constrain_multisig_consumed` returns a journal or an
-- error and does not panic where the journal's lengths and the number of recipients fit 32 bits and no offset of an external
-- call is among the last 32 values of `usize`.
pub constrain_multisig_consumed_returns :
    (p : Platform) (b : Build) (w : MultisigConsumedWitness p) (forwarder : Bytes)
    → IsLawful p
    → FitsAll w.app_data
    → length w.recipient_resources < 2 ^ 32
    → All (λ blob. Readable b blob.blob) w.app_data.external_payload
    → constrain_multisig_consumed p b w forwarder ≢ panic
unfolding constrain_multisig_consumed
constrain_multisig_consumed_returns p b w forwarder law fits few fine =
    >>=_returns (check_identity p w) _ (check_identity_returns p w) (λ _ _.
      >>=_returns (check_policy p w) _ (check_policy_returns p w) (λ _ passed.
        >>=_returns (check_change p w) _ (check_change_returns p w) (λ _ _.
          after_checks p b w forwarder law fits few fine ((check_policy-Policy p law w).0 passed))))
