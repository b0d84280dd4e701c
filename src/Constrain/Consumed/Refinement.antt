-- ===== src/Constrain/Consumed/Refinement.antt =====
-- `constrain_multisig_consumed` accepts exactly the authorized spends.
use arm_multisig_application.Base.{
  ℕ, ◌^◌, ◌<◌, ◌≡◌, ◌↔◌, refl, sym, subst, true, some, Outcome, List, [], ◌∷◌, ok, err, panic,
  >>=-eq-ok, some_or, some_or-eq-ok, map, length, length-map, get_elem?, All, arith,
}
use arm_multisig_application.Base.Bytes.{Bytes}
use arm_multisig_application.Constrain.Errors.{
  CircuitError, from_sig_error, resource_error, consumed_instance, digest_to_array,
}
use arm_multisig_application.Constrain.Consumed.{
  check_identity, check_policy, check_change, gather_recipients, walk_payloads, check_conservation,
  verify_slots, seal, constrain_multisig_consumed,
}
use arm_multisig_application.Constrain.Consumed.Spec.{
  Authorized, Sealed, Signed, commitment_bytes, instance_of, signed_bytes, total_quantity,
}
use arm_multisig_application.Constrain.Consumed.Steps.{
  check_identity-Identity, check_policy-Policy, check_change-Change,
}
use arm_multisig_application.Constrain.Consumed.Sums.{
  gather_recipients_sound, gather_recipients_complete, walk_payloads_sound, walk_payloads_complete,
  check_conservation_sound, check_conservation_complete,
}
use arm_multisig_application.Journal
use arm_multisig_application.Journal.{LogicInstance}
use arm_multisig_application.Journal.Layout.{encode-eq_layout, encode-layout}
use arm_multisig_application.Machine.{Build, u128_mod, index}
use arm_multisig_application.Platform.{Platform, IsLawful}
use arm_multisig_application.Sig.{SigError, verify_secp256k1}
use arm_multisig_application.Spend
use arm_multisig_application.Spend.{spend_message, spend_preimage, sort}
use arm_multisig_application.Spend.Message.{spend_preimage-bytes, spend_preimage-counted}
use arm_multisig_application.Witness.{SignerSlot, MultisigConsumedWitness}

pub index-eq-ok :
    {E A : Type 0} (xs : List A) (i : ℕ) {x : A}
    → index {E = E} xs i ≡ ok x
    → get_elem? xs i ≡ some x
unfolding index
index-eq-ok xs i h = ground arith

pub eq-some-index :
    {E A : Type 0} (xs : List A) (i : ℕ) {x : A}
    → get_elem? xs i ≡ some x
    → index {E = E} xs i ≡ ok x
unfolding index
eq-some-index xs i h = ground arith

pub from_sig_error-eq-ok :
    {A : Type 0} (r : Outcome SigError A) {a : A} → from_sig_error r ≡ ok a → r ≡ ok a
from_sig_error-eq-ok (ok x) h = cc
from_sig_error-eq-ok (err e) h = cc
from_sig_error-eq-ok panic h = cc

module _ (p : Platform) (pubkeys : List Bytes) (msg : Bytes) where
  -- 14. The loop passes exactly where every slot is signed.
  verify_slots_sound :
      (slots : List SignerSlot)
      → verify_slots p pubkeys msg slots ≡ ok tt
      → All (Signed p pubkeys msg) slots
  unfolding verify_slots
  verify_slots_sound [] h = tt
  verify_slots_sound (s ∷ slots) h =
      let (pk, at, h₁) = >>=-eq-ok (index pubkeys s.idx) _ h in
      let (_, valid, h₂) = >>=-eq-ok (from_sig_error (verify_secp256k1 p pk msg s.sig_der)) _ h₁ in
      (
        (pk, index-eq-ok pubkeys s.idx at, from_sig_error-eq-ok _ valid),
        verify_slots_sound slots h₂,
      )

  verify_slots_complete :
      (slots : List SignerSlot)
      → All (Signed p pubkeys msg) slots
      → verify_slots p pubkeys msg slots ≡ ok tt
  unfolding verify_slots
  verify_slots_complete [] h = refl
  verify_slots_complete (s ∷ slots) ((pk, at, valid), hs) =
      rw (eq-some-index pubkeys s.idx at, valid) (verify_slots_complete slots hs)

abbrev pub commitments : (p : Platform) → MultisigConsumedWitness p → List Bytes
commitments p w = map (commitment_bytes p) w.recipient_resources

module _ (p : Platform) (w : MultisigConsumedWitness p) (digest : Bytes) where
  -- 13. What the recipients' loop gives makes the message of the specification.
  pub spend_message-signed :
      length w.recipient_resources < 2 ^ 32
      → spend_message {E = CircuitError} p digest (Spend.new (commitments p w))
        ≡ ok (p.sha256 (signed_bytes p w digest))
  unfolding spend_message
  spend_message-signed h =
      let count = length-map (commitment_bytes p) w.recipient_resources in
      rw (spend_preimage-bytes digest (commitments p w) (omega arith), count)

  pub spend_message-counted :
      {m : Bytes}
      → spend_message {E = CircuitError} p digest (Spend.new (commitments p w)) ≡ ok m
      → length w.recipient_resources < 2 ^ 32
  unfolding spend_message
  spend_message-counted h =
      let (_, made, _) =
        >>=-eq-ok (spend_preimage {E = CircuitError} digest (Spend.new (commitments p w))) _ h in
      omega (
        arith,
        spend_preimage-counted digest (commitments p w) made,
        length-map (commitment_bytes p) w.recipient_resources,
      )

module _ (p : Platform) (w : MultisigConsumedWitness p) where
  pub consumed_instance-tag :
      {i : LogicInstance}
      → consumed_instance p w.resource w.nf_key w.action_tree_root w.app_data ≡ ok i
      → (nullifier : p.Digest) × (p.tag w.resource true w.nf_key ≡ some nullifier)
        × (instance_of p w nullifier ≡ i)
  unfolding consumed_instance digest_to_array
  consumed_instance-tag h =
      let (nullifier, made, h') =
        >>=-eq-ok (some_or (p.tag w.resource true w.nf_key) resource_error) _ h in
      (nullifier, some_or-eq-ok _ _ made, ground arith)

  seal_sound : {journal : Bytes} → seal p w (commitments p w) ≡ ok journal → Sealed p w journal
  unfolding seal
  seal_sound h =
      let (i, made, h₁) =
        >>=-eq-ok (consumed_instance p w.resource w.nf_key w.action_tree_root w.app_data) _ h in
      let (bytes, encoded, h₂) = >>=-eq-ok (Journal.encode i) _ h₁ in
      let (msg, hashed, h₃) =
        >>=-eq-ok (spend_message p (p.sha256 bytes) (Spend.new (commitments p w))) _ h₂ in
      let (_, verified, last) = >>=-eq-ok (verify_slots p w.pubkeys msg w.signatures) _ h₃ in
      let (nullifier, tagged, same) = consumed_instance-tag made in
      let (fits, written) =
        encode-eq_layout (instance_of p w nullifier)
          (subst (λ x. Journal.encode {E = CircuitError} x ≡ ok bytes) (sym same) encoded) in
      let counted = spend_message-counted p w (p.sha256 bytes) hashed in
      let message : msg ≡ p.sha256 (signed_bytes p w (p.sha256 bytes)) =
        cc (hashed, spend_message-signed p w (p.sha256 bytes) counted) in
      subst (Sealed p w) (cc last) (record {
        nullifier = nullifier;
        tagged = tagged;
        fits = fits;
        journal_layout = written;
        recipients_counted = counted;
        signed =
            subst (λ m. All (Signed p w.pubkeys m) w.signatures) message
              (verify_slots_sound p w.pubkeys msg w.signatures verified);
      })

  seal_complete : {journal : Bytes} → Sealed p w journal → seal p w (commitments p w) ≡ ok journal
  unfolding seal consumed_instance digest_to_array
  seal_complete {journal} s = rw (
    s.tagged,
    encode-layout {E = CircuitError} (instance_of p w s.nullifier) s.fits,
    ← s.journal_layout,
    spend_message-signed p w (p.sha256 journal) s.recipients_counted,
    verify_slots_complete p w.pubkeys _ w.signatures s.signed,
  )

module _ (p : Platform) (law : IsLawful p) (b : Build) (w : MultisigConsumedWitness p)
    (forwarder : Bytes) where
  -- An accepted spend is authorized.
  pub constrain_sound :
      {journal : Bytes}
      → constrain_multisig_consumed p b w forwarder ≡ ok journal
      → Authorized p b w forwarder journal
  unfolding constrain_multisig_consumed
  constrain_sound h =
      let (_, identity, h₁) = >>=-eq-ok (check_identity p w) _ h in
      let (_, policy, h₂) = >>=-eq-ok (check_policy p w) _ h₁ in
      let (_, change, h₃) = >>=-eq-ok (check_change p w) _ h₂ in
      let (gathered, found, h₄) =
        >>=-eq-ok (gather_recipients p w 0 [] 0 w.recipient_resources) _ h₃ in
      let (withdrawn, walked, h₅) =
        >>=-eq-ok (walk_payloads p b w forwarder gathered.0 0 0 w.app_data.external_payload) _ h₄ in
      let (_, balance, h₆) = >>=-eq-ok (check_conservation p w withdrawn gathered.0) _ h₅ in
      let (sum, cms, inside) = gather_recipients_sound p law w 0 [] 0 w.recipient_resources found in
      let (t, ws, moved) =
        walk_payloads_sound p b w forwarder gathered.0 0 0 w.app_data.external_payload walked in
      record {
        identity = (check_identity-Identity p law w).0 identity;
        policy = (check_policy-Policy p law w).0 policy;
        change = (check_change-Change p law w).0 change;
        balanced = record {
          recipients_in_action = inside;
          withdrawn = t;
          withdraws = ws;
          conserved =
              omega (arith, check_conservation_sound p w withdrawn gathered.0 balance, sum, moved);
        };
        sealed = seal_sound p w (rw cms at h₆);
      }

  -- An authorized spend of a 128-bit quantity is accepted, with that journal.
  pub constrain_complete :
      {journal : Bytes}
      → w.resource.quantity < u128_mod
      → Authorized p b w forwarder journal
      → constrain_multisig_consumed p b w forwarder ≡ ok journal
  unfolding constrain_multisig_consumed
  constrain_complete bound a =
      let rec_sum = total_quantity p w.recipient_resources in
      let bal = a.balanced in
      rw
        (
          (check_identity-Identity p law w).1 a.identity,
          (check_policy-Policy p law w).1 a.policy,
          (check_change-Change p law w).1 a.change,
          gather_recipients_complete p law w 0 [] 0 w.recipient_resources rec_sum
              bal.recipients_in_action (omega arith) (omega (arith, bal.conserved)),
          walk_payloads_complete p b w forwarder rec_sum 0 0 bal.withdrawn bal.withdraws
              (omega arith) (omega (arith, bal.conserved)),
          check_conservation_complete p w bal.withdrawn rec_sum bal.conserved bound,
        )
        (seal_complete p w a.sealed)

-- On a 128-bit quantity `constrain_multisig_consumed` returns a journal exactly where the spend is
-- authorized with that journal: the note's keys derive from its label; the policy's keys are given
-- in ascending order and K slots name distinct ones; the change stays in the vault; change and
-- recipients are among the action's tags; withdrawals of the vault's token, transfers and change
-- add up to the quantity that is spent; the journal is the instance's layout; and every slot's
-- signature of the journal and the sorted recipients is valid.
pub constrain_multisig_consumed-Authorized :
    (p : Platform) (b : Build) (w : MultisigConsumedWitness p) (forwarder journal : Bytes)
    → IsLawful p
    → w.resource.quantity < u128_mod
    → (constrain_multisig_consumed p b w forwarder ≡ ok journal)
      ↔ Authorized p b w forwarder journal
constrain_multisig_consumed-Authorized p b w forwarder journal law bound =
    (constrain_sound p law b w forwarder, constrain_complete p law b w forwarder bound)
