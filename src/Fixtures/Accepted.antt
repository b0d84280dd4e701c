-- ===== src/Fixtures/Accepted.antt =====
-- A witness that lacks nothing but signatures is accepted once the host has signed it.
use arm_multisig_application.Base.{
  ℕ, ◌^◌, ◌≤◌, ◌<◌, ◌≡◌, ◌∙◌, refl, true, some, List, [], ◌∷◌, ok, map, length, length-map, All,
  Ordered, arith, ap, sym, subst,
}
use arm_multisig_application.Base.Bytes.{Bytes}
use arm_multisig_application.Constrain.Consumed.{constrain_multisig_consumed}
use arm_multisig_application.Constrain.Consumed.Refinement.{
  spend_message-signed, constrain_complete,
}
use arm_multisig_application.Constrain.Consumed.Spec.{
  Ascending, Identity, Change, Balanced, Signed, instance_of, signed_bytes,
}
use arm_multisig_application.Constrain.Errors.{CircuitError, digest_to_array}
use arm_multisig_application.Fixtures.Signer.{Signer, IsSigner, sign_witness, compute_spend_message}
use arm_multisig_application.Fixtures.Signing.{sign_slots_lem}
use arm_multisig_application.Journal.Layout.{layout, FitsAll, encode-layout}
use arm_multisig_application.Machine.{Build, u128_mod}
use arm_multisig_application.Platform.{Platform, IsLawful}
use arm_multisig_application.Witness.{SignerSlot, MultisigConsumedWitness}
use mathlib.Core.List.{flatten}

-- Everything that `Authorized` asks for and that is not about the slots.
pub record Ready (p : Platform) (b : Build) (w : MultisigConsumedWitness p)
    (forwarder journal : Bytes) : Type 0 where
  pub identity : Identity p w
  pub key_count : length w.pubkeys ≡ w.label_preimage.n
  pub keys_ascend : Ascending w.pubkeys
  pub pubkey_root : p.sha256 (flatten w.pubkeys) ≡ w.label_preimage.pubkey_root
  pub change : Change p w
  pub balanced : Balanced p b w forwarder
  pub nullifier : p.Digest
  pub tagged : p.tag w.resource true w.nf_key ≡ some nullifier
  pub fits : FitsAll w.app_data
  pub journal_layout : journal ≡ layout (instance_of p w nullifier)
  pub recipients_counted : length w.recipient_resources < 2 ^ 32

All-idx :
    (P : ℕ → Type 0) (slots : List SignerSlot)
    → All P (map (λ t. t.idx) slots)
    → All (λ t. P t.idx) slots
All-idx P [] h = tt
All-idx P (t ∷ slots) (h, hs) = (h, All-idx P slots hs)

Ordered-idx :
    (slots : List SignerSlot)
    → Ordered (λ i j. i < j) (map (λ t. t.idx) slots)
    → Ordered (λ t u. t.idx < u.idx) slots
Ordered-idx [] h = tt
Ordered-idx (t ∷ slots) (h, hs) = (All-idx (λ j. t.idx < j) slots h, Ordered-idx slots hs)

module _ (p : Platform) (b : Build) (w : MultisigConsumedWitness p) (forwarder journal : Bytes)
    (r : Ready p b w forwarder journal) where
  -- The host signs the message that the circuit checks.
  pub compute_spend_message-signed_bytes :
      compute_spend_message {E = CircuitError} p w
      ≡ ok (p.sha256 (signed_bytes p w (p.sha256 journal)))
  unfolding compute_spend_message digest_to_array
  compute_spend_message-signed_bytes =
      rw
        (
          r.tagged,
          encode-layout {E = CircuitError} (instance_of p w r.nullifier) r.fits,
          ← r.journal_layout,
        )
        (spend_message-signed p w (p.sha256 journal) r.recipients_counted)

  -- Where a witness has everything but signatures, and the host signs it with the keys at K
  -- increasing indices below N, signing returns a witness, and the circuit accepts that witness
  -- with the journal: the host and the circuit agree on the message.
  pub constrain_multisig_consumed-sign_witness :
      (s : Signer p) (signers : List s.SigningKey) (indices : List ℕ)
      → IsLawful p
      → IsSigner p s
      → w.resource.quantity < u128_mod
      → w.label_preimage.n ≤ 32
      → w.pubkeys ≡ map s.public_key signers
      → length indices ≡ w.label_preimage.k
      → Ordered (λ i j. i < j) indices
      → All (λ i. i < w.label_preimage.n) indices
      → (signed : MultisigConsumedWitness p) × (sign_witness p s {E = CircuitError} w signers
            indices
          ≡ ok signed)
        × (constrain_multisig_consumed p b signed forwarder ≡ ok journal)
  unfolding sign_witness
  constrain_multisig_consumed-sign_witness s signers indices law keys bound few same count inc
        below =
      let msg = p.sha256 (signed_bytes p w (p.sha256 journal)) in
      let size : length signers ≡ w.label_preimage.n =
        sym (length-map s.public_key signers) ∙ ap length (sym same) ∙ r.key_count in
      let (slots, made, idxs, signed) =
        sign_slots_lem p s keys CircuitError signers msg indices (omega arith)
          (subst (λ n. All (λ i. i < n) indices) (sym size) below) in
      let signers_of : length slots ≡ length indices =
        sym (length-map (λ (t : SignerSlot). t.idx) slots) ∙ ap length idxs in
      (
        record w { signatures = slots },
        rw (compute_spend_message-signed_bytes, made) refl,
        constrain_complete p law b (record w { signatures = slots }) forwarder bound
            (record {
              identity = record {
                nullifier_key = r.identity.nullifier_key;
                nk_commitment = r.identity.nk_commitment;
                label_ref = r.identity.label_ref;
              };
              policy = record {
                key_count = r.key_count;
                keys_ascend = r.keys_ascend;
                pubkey_root = r.pubkey_root;
                signer_count = signers_of ∙ count;
                signers = record {
                  in_range = All-idx (λ i. i < w.label_preimage.n) slots (rw idxs below);
                  increasing = Ordered-idx slots (rw idxs inc);
                };
              };
              change = record {
                label_ref = r.change.label_ref;
                quantity = r.change.quantity;
                in_action = r.change.in_action;
              };
              balanced = record {
                recipients_in_action = r.balanced.recipients_in_action;
                withdrawn = r.balanced.withdrawn;
                withdraws = r.balanced.withdraws;
                conserved = r.balanced.conserved;
              };
              sealed = record {
                nullifier = r.nullifier;
                tagged = r.tagged;
                fits = r.fits;
                journal_layout = r.journal_layout;
                recipients_counted = r.recipients_counted;
                signed = subst (λ pks. All (Signed p pks msg) slots) (sym same) signed;
              };
            }),
      )
