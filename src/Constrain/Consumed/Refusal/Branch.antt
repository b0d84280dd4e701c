-- ===== src/Constrain/Consumed/Refusal/Branch.antt =====
-- `constrain_multisig_consumed` fails exactly with the errors of the rules.
use arm_multisig_application.Base.{
  ℕ, ◌+◌, ◌<◌, ◌≡◌, ◌≢◌, ◌↔◌, [], err, refl, subst, ◌>>=◌, ◌>>◌, AllErrors, >>=-AllErrors, arith,
}
use arm_multisig_application.Base.Bytes.{Bytes}
use arm_multisig_application.Constrain.Errors.{CircuitError, conservation_broken}
use arm_multisig_application.Constrain.Consumed.{
  check_identity, check_policy, check_change, gather_recipients, walk_payloads, check_conservation,
  seal, constrain_multisig_consumed,
}
use arm_multisig_application.Constrain.Consumed.Conservation.{check_conservation-err}
use arm_multisig_application.Constrain.Consumed.Refinement.{commitments}
use arm_multisig_application.Constrain.Consumed.Refusal.{
  Checked, Refused, unidentified, policy_broken, change_broken, undelivered, call_refused,
  unbalanced, unsealed,
}
use arm_multisig_application.Constrain.Consumed.Refusal.Checks.{
  Unidentified-sound, Unidentified-complete, PolicyBroken-sound, PolicyBroken-complete,
  ChangeBroken-sound, ChangeBroken-complete,
}
use arm_multisig_application.Constrain.Consumed.Refusal.Recipients.{
  Undelivered-sound, Undelivered-complete, gather_recipients-bound,
}
use arm_multisig_application.Constrain.Consumed.Refusal.Payloads.{
  CallRefused-sound, CallRefused-complete, walk_payloads-bound,
}
use arm_multisig_application.Constrain.Consumed.Refusal.Passed.{
  Checked-constrain, delivered-constrain, moved-constrain,
}
use arm_multisig_application.Constrain.Consumed.Refusal.Seal.{Unsealed-sound, Unsealed-complete}
use arm_multisig_application.Constrain.Consumed.Spec.{Balanced, total_quantity}
use arm_multisig_application.Constrain.Consumed.Steps.{
  check_identity-Identity, check_policy-Policy, check_change-Change,
}
use arm_multisig_application.Constrain.Consumed.Sums.{
  gather_recipients_sound, walk_payloads_sound, check_conservation_sound,
  check_conservation_complete,
}
use arm_multisig_application.Machine.{Build, u128_mod}
use arm_multisig_application.Platform.{Platform, IsLawful}
use arm_multisig_application.Witness.{MultisigConsumedWitness}

module _ (p : Platform) (law : IsLawful p) (b : Build) (w : MultisigConsumedWitness p)
    (forwarder : Bytes) where
  -- What the recipients get.
  abbrev rec_sum : ℕ
  rec_sum = total_quantity p w.recipient_resources

  -- The comparison fails only where the parts do not add up.
  check_conservation-AllErrors :
      (P : CircuitError → Type 0) (ext rec : ℕ)
      → w.resource.quantity < u128_mod
      → (ext + rec + w.change_resource.quantity ≢ w.resource.quantity
          → P (conservation_broken ext rec w.change_resource.quantity w.resource.quantity))
      → AllErrors P (check_conservation p w ext rec)
  check_conservation-AllErrors P ext rec bound h e k =
      let differs : ext + rec + w.change_resource.quantity ≢ w.resource.quantity =
        λ same. cc (check_conservation_complete p w ext rec same bound, k) in
      let said = check_conservation-err p w ext rec bound differs in
      subst P (cc (said, k)) (h differs)

  -- Where steps 1 to 9 pass with the sum `total_quantity`.
  after_recipients :
      w.resource.quantity < u128_mod
      → Checked p w
      → AllErrors (Refused p b w forwarder) (do
        (recipient_sum, commitments) ← gather_recipients p w 0 [] 0 w.recipient_resources
        external_sum ← walk_payloads p b w forwarder recipient_sum 0 0 w.app_data.external_payload
        check_conservation p w external_sum recipient_sum
        seal p w commitments)
  after_recipients bound checked =
      let P = Refused p b w forwarder in
      let payload = w.app_data.external_payload in
      >>=-AllErrors P (gather_recipients p w 0 [] 0 w.recipient_resources) _
        (λ e h.
          undelivered checked
            (Undelivered-sound p law w 0 [] 0 w.recipient_resources (omega arith) e h))
        (λ (sum, cms) found.
          let fits =
            gather_recipients-bound p law w 0 [] 0 w.recipient_resources (omega arith) found in
          let (total, all, inside) =
            gather_recipients_sound p law w 0 [] 0 w.recipient_resources found in
          let same : sum ≡ rec_sum = omega arith in
          rw (same, all)
            (>>=-AllErrors P (walk_payloads p b w forwarder rec_sum 0 0 payload) _
              (λ e h.
                call_refused checked inside (omega arith)
                  (CallRefused-sound p b w forwarder rec_sum 0 0 payload (omega arith) e h))
              (λ ext walked.
                let small =
                  walk_payloads-bound p b w forwarder rec_sum 0 0 payload (omega arith) walked in
                let (t, ws, moved) =
                  walk_payloads_sound p b w forwarder rec_sum 0 0 payload walked in
                let now : ext ≡ t = omega arith in
                let moves = rw (← now) at ws in
                >>=-AllErrors P (check_conservation p w ext rec_sum) _
                  (check_conservation-AllErrors P ext rec_sum bound
                    (λ differs. unbalanced checked inside (omega arith) moves small differs))
                  (λ _ passed.
                    let balanced : Balanced p b w forwarder = record {
                      recipients_in_action = inside;
                      withdrawn = ext;
                      withdraws = moves;
                      conserved = check_conservation_sound p w ext rec_sum passed;
                    } in
                    λ e h. unsealed checked balanced (Unsealed-sound p w e h)))))

  Refused-sound :
      w.resource.quantity < u128_mod
      → AllErrors (Refused p b w forwarder) (constrain_multisig_consumed p b w forwarder)
  unfolding constrain_multisig_consumed
  Refused-sound bound =
      let P = Refused p b w forwarder in
      >>=-AllErrors P (check_identity p w) _ (λ e h. unidentified (Unidentified-sound p law w e h))
        (λ _ h.
          let identity = (check_identity-Identity p law w).0 h in
          >>=-AllErrors P (check_policy p w) _
            (λ e h. policy_broken identity (PolicyBroken-sound p w e h))
            (λ _ h.
              let policy = (check_policy-Policy p law w).0 h in
              >>=-AllErrors P (check_change p w) _
                (λ e h. change_broken identity policy (ChangeBroken-sound p law w e h))
                (λ _ h. after_recipients bound (record {
                  identity = identity;
                  policy = policy;
                  change = (check_change-Change p law w).0 h;
                }))))

  Refused-complete :
      {e : CircuitError}
      → w.resource.quantity < u128_mod
      → Refused p b w forwarder e
      → constrain_multisig_consumed p b w forwarder ≡ err e
  unfolding constrain_multisig_consumed
  Refused-complete bound (unidentified u) = rw (Unidentified-complete p law w u) refl
  Refused-complete bound (policy_broken i u) =
      rw ((check_identity-Identity p law w).1 i, PolicyBroken-complete p w u) refl
  Refused-complete bound (change_broken i k u) =
      rw
        (
          (check_identity-Identity p law w).1 i,
          (check_policy-Policy p law w).1 k,
          ChangeBroken-complete p law w u,
        )
        refl
  Refused-complete bound (undelivered c u) =
      rw
        (
          Checked-constrain p law b w forwarder c,
          Undelivered-complete p law w 0 [] 0 w.recipient_resources u,
        )
        refl
  Refused-complete bound (call_refused c inside fits u) =
      rw
        (
          delivered-constrain p law b w forwarder c inside fits,
          CallRefused-complete p b w forwarder rec_sum 0 0 w.app_data.external_payload u,
        )
        refl
  Refused-complete bound (unbalanced {moved} c inside fits ws small differs) =
      rw
        (
          moved-constrain p law b w forwarder c inside fits ws small,
          check_conservation-err p w moved rec_sum bound differs,
        )
        refl
  Refused-complete bound (unsealed c bal u) =
      let fits : rec_sum < u128_mod = omega (arith, bal.conserved) in
      let small : bal.withdrawn < u128_mod = omega (arith, bal.conserved) in
      rw
        (
          moved-constrain p law b w forwarder c bal.recipients_in_action fits bal.withdraws small,
          check_conservation_complete p w bal.withdrawn rec_sum bal.conserved bound,
        )
        (Unsealed-complete p w u)

-- On a lawful platform and a 128-bit quantity, `constrain_multisig_consumed` returns an error exactly
-- where that error's rule holds. There is a rule for each place in the code that returns an error,
-- which says what is wrong there and that everything that is checked before is in order: the
-- position that an error names is that of the first recipient or payload that is wrong, and the
-- amounts that it names are those of the spend.
pub constrain_multisig_consumed-Refused :
    (p : Platform) (b : Build) (w : MultisigConsumedWitness p) (forwarder : Bytes)
    (e : CircuitError)
    → IsLawful p
    → w.resource.quantity < u128_mod
    → (constrain_multisig_consumed p b w forwarder ≡ err e) ↔ Refused p b w forwarder e
constrain_multisig_consumed-Refused p b w forwarder e law bound =
    (Refused-sound p law b w forwarder bound e, Refused-complete p law b w forwarder bound)
