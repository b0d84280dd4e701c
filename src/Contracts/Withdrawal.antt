-- ===== src/Contracts/Withdrawal.antt =====
-- The host's withdrawals from end to end: the witness that a builder of `host/src/fixtures.rs` makes,
-- the circuit, and the calls that the protocol adapter makes for it.
use arm_multisig_application.Base.{
  ℕ, ◌<◌, ◌≡◌, refl, ap, subst, true, some, [], ◌∷◌, List, ok, ok_unique, >>=-eq-ok, length,
}
use arm_multisig_application.Base.Bytes.{Bytes}
use arm_multisig_application.Constrain.Consumed.{constrain_multisig_consumed}
use arm_multisig_application.Constrain.Errors.{CircuitError}
use arm_multisig_application.Contracts.Erc20.{Erc20}
use arm_multisig_application.Contracts.Forwarder.{MultisigForwarder}
use arm_multisig_application.Contracts.RoundTrip.{Pays, transfer_blobs-Runs}
use arm_multisig_application.Contracts.Settlement.{Runs, Others}
use arm_multisig_application.Fixtures.Builders.{build_full_spend_witness_accepted}
use arm_multisig_application.Fixtures.Signer.{
  Signer, IsSigner, compute_spend_message, sign_slots, sign_witness, expect_some,
}
use arm_multisig_application.Fixtures.Vault.{
  Host, IsHost, TestVault, deterministic, build_resource, signed_witness, first_byte,
  build_full_spend_witness, withdrawal_data, test_multisig_forwarder, test_token, test_recipient,
}
use arm_multisig_application.Fixtures.{encode_external_transfer}
use arm_multisig_application.Journal.{AppData, never}
use arm_multisig_application.Machine.{Build, u128_mod}
use arm_multisig_application.Platform.{Platform, IsLawful}
use arm_multisig_application.Witness.{ResourceOf, MultisigConsumedWitness}

module _ (p : Platform) (s : Signer p) where
  -- Signing leaves the application data as it is.
  sign_witness-app_data :
      {E : Type 0} (w : MultisigConsumedWitness p) (signers : List s.SigningKey) (indices : List ℕ)
      {signed : MultisigConsumedWitness p}
      → sign_witness p s {E = E} w signers indices ≡ ok signed
      → signed.app_data ≡ w.app_data
  unfolding sign_witness
  sign_witness-app_data {E} w signers indices h =
      let (msg, _, h₁) = >>=-eq-ok (compute_spend_message {E = E} p w) _ h in
      let (slots, _, last) = >>=-eq-ok (sign_slots p s {E = E} signers msg indices) _ h₁ in
      ap (λ x. x.app_data) (ok_unique last refl)

  signed_witness-app_data :
      (h : Host p s) {E : Type 0} (v : TestVault p s) (note change : ResourceOf p)
      (rs : List (ResourceOf p)) (app : AppData) {signed : MultisigConsumedWitness p}
      → signed_witness p s h {E = E} v note change rs app ≡ ok signed
      → signed.app_data ≡ app
  unfolding signed_witness
  signed_witness-app_data h {E} v note change rs app made =
      let (tag, _, last) = >>=-eq-ok (expect_some {E = E} (p.tag note true v.nf_key)) _ made in
      sign_witness-app_data {E = E} _ v.signers (0 ∷ 2 ∷ []) last

  -- The two builders of withdrawals put the encoded call into the witness.
  build_full_spend_witness-app_data :
      (h : Host p s) {E : Type 0} (seed quantity : ℕ) {signed : MultisigConsumedWitness p}
      → build_full_spend_witness p s h {E = E} seed quantity ≡ ok signed
      → signed.app_data ≡ withdrawal_data quantity
  unfolding build_full_spend_witness
  build_full_spend_witness-app_data h {E} seed quantity made =
      let (v, _, last) = >>=-eq-ok (deterministic p s h {E = E} seed) _ made in
      signed_witness-app_data h {E = E} v _ _ [] (withdrawal_data quantity) last

-- The call of a withdrawal pays the recipient, and does nothing else.
withdrawal_data-Runs :
    (e : Erc20) (others : Others e) (f : MultisigForwarder) (amount : ℕ) {at after : e.State}
    → f.this ≡ test_multisig_forwarder
    → amount < u128_mod
    → e.safe_transfer at test_token f.this test_recipient amount ≡ some after
    → Runs e others f f.pa f.wrap_logic_ref (withdrawal_data amount).external_payload at after
unfolding withdrawal_data
withdrawal_data-Runs e others f amount {at} {after} same small moved =
    subst
      (λ this.
        Runs e others f f.pa f.wrap_logic_ref
          (record {
            deletion_criterion = never;
            blob = encode_external_transfer this test_token test_recipient amount;
          }
            ∷ [])
          at after)
      same
      (transfer_blobs-Runs e others f test_token
        (record { recipient = test_recipient; amount = amount } ∷ []) (ap length same) refl
        ((refl, small), tt) (Pays.pay moved Pays.done))

-- The same for `build_full_spend_witness`, which withdraws all of the note.
pub build_full_spend_witness-Runs :
    (p : Platform) (s : Signer p) (h : Host p s) (b : Build) (seed quantity : ℕ) {v : TestVault p s}
    {nullifier : p.Digest} (e : Erc20) (others : Others e) (f : MultisigForwarder)
    {at after : e.State}
    → IsLawful p
    → IsSigner p s
    → IsHost p s h
    → deterministic p s h {E = CircuitError} seed ≡ ok v
    → quantity < u128_mod
    → p.tag (build_resource p s h v quantity (first_byte 202) (first_byte 254)) true v.nf_key
      ≡ some nullifier
    → f.this ≡ test_multisig_forwarder
    → e.safe_transfer at test_token f.this test_recipient quantity ≡ some after
    → (signed : MultisigConsumedWitness p) × (build_full_spend_witness p s h {E = CircuitError} seed
          quantity
        ≡ ok signed)
      × (journal : Bytes) × (constrain_multisig_consumed p b signed f.this ≡ ok journal)
      × Runs e others f f.pa f.wrap_logic_ref signed.app_data.external_payload at after
build_full_spend_witness-Runs p s h b seed quantity e others f law slaw hlaw made bound tagged same
      moved =
    let (signed, built, journal, accepted) =
      build_full_spend_witness_accepted p s h b seed quantity law slaw hlaw made bound tagged in
    let carried = build_full_spend_witness-app_data p s h {E = CircuitError} seed quantity built in
    (
      signed,
      built,
      journal,
      rw same accepted,
      rw carried (withdrawal_data-Runs e others f quantity same bound moved),
    )
