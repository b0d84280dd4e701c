-- ===== src/Fixtures/Hybrid.antt =====
-- `build_hybrid_witness` of `host/src/fixtures.rs`: a spend that pays a recipient inside the
-- resource machine and withdraws as well.
use arm_multisig_application.Base.{
  ℕ, ◌+◌, ◌-◌, ◌≤◌, ◌<◌, ◌≡◌, refl, true, some, [], ◌∷◌, Outcome, ok, ◌>>=◌, ◌>>◌, leb, lt→ltb,
  arith,
}
use arm_multisig_application.Base.Bytes.{Bytes}
use arm_multisig_application.Constrain.Consumed.{constrain_multisig_consumed}
use arm_multisig_application.Constrain.Errors.{CircuitError}
use arm_multisig_application.Fixtures.Builders.{
  signed_witness_accepted, withdrawal_data-FitsAll, withdrawal_data-Withdraws,
}
use arm_multisig_application.Fixtures.Deterministic.{deterministic-IsVault}
use arm_multisig_application.Fixtures.Signer.{Signer, IsSigner}
use arm_multisig_application.Fixtures.Vault.{
  Host, IsHost, TestVault, assert, deterministic, build_resource, signed_witness, first_byte,
  withdrawal_data, test_multisig_forwarder,
}
use arm_multisig_application.Machine.{Build, u128_mod, add_u128, sub_u128}
use arm_multisig_application.Platform.{Platform, IsLawful}
use arm_multisig_application.Witness.{MultisigConsumedWitness}

unfoldable pub build_hybrid_witness :
    (p : Platform) (s : Signer p)
    → Host p s
    → Build
    → {E : Type 0} → ℕ
    → ℕ
    → ℕ
    → ℕ
    → ℕ
    → Outcome E (MultisigConsumedWitness p)
build_hybrid_witness p s h b seed recipient_seed consumed rm_transfer evm_withdraw = do
  paid ← add_u128 b rm_transfer evm_withdraw
  assert (leb paid consumed)
  vault ← deterministic p s h seed
  recipient_vault ← deterministic p s h recipient_seed
  rest ← sub_u128 b consumed rm_transfer
  change ← sub_u128 b rest evm_withdraw
  let resource = build_resource p s h vault consumed (first_byte 202) (first_byte 254)
  let change_resource = build_resource p s h vault change (first_byte 204) (first_byte 254)
  let recipient_resource =
      build_resource p s h recipient_vault rm_transfer (first_byte 221) (first_byte 254)
  signed_witness p s h vault resource change_resource (recipient_resource ∷ [])
      (withdrawal_data evm_withdraw)

add_u128_fits :
    (b : Build) {E : Type 0} (x y : ℕ) → x + y < u128_mod → add_u128 b {E = E} x y ≡ ok (x + y)
unfolding add_u128
add_u128_fits b x y h = rw (lt→ltb _ _ h)

sub_u128_fits : (b : Build) {E : Type 0} (x y : ℕ) → y ≤ x → sub_u128 b {E = E} x y ≡ ok (x - y)
unfolding sub_u128
sub_u128_fits b x y h = let yes : leb y x ≡ true = ground arith in rw yes

-- Where the two vaults of the seeds are made, transfer and withdrawal together are at most the
-- 128-bit quantity and the note has a nullifier, `build_hybrid_witness` returns a witness, with
-- overflow checks or without, and the circuit of the pinned forwarder accepts it.
pub build_hybrid_witness_accepted :
    (p : Platform) (s : Signer p) (h : Host p s) (b : Build)
    (seed recipient_seed consumed rm_transfer evm_withdraw : ℕ) {v u : TestVault p s}
    {nullifier : p.Digest}
    → IsLawful p
    → IsSigner p s
    → IsHost p s h
    → deterministic p s h {E = CircuitError} seed ≡ ok v
    → deterministic p s h {E = CircuitError} recipient_seed ≡ ok u
    → rm_transfer + evm_withdraw ≤ consumed
    → consumed < u128_mod
    → p.tag (build_resource p s h v consumed (first_byte 202) (first_byte 254)) true v.nf_key
      ≡ some nullifier
    → (signed : MultisigConsumedWitness p) × (build_hybrid_witness p s h b {E = CircuitError} seed
          recipient_seed consumed rm_transfer evm_withdraw
        ≡ ok signed)
      × (journal : Bytes) × (constrain_multisig_consumed p b signed test_multisig_forwarder
          ≡ ok journal)
unfolding build_hybrid_witness build_resource
build_hybrid_witness_accepted p s h b seed recipient_seed consumed rm_transfer evm_withdraw {v} {u}
      {nullifier} law slaw hlaw made made' le bound tagged =
    let enough : leb (rm_transfer + evm_withdraw) consumed ≡ true = ground arith in
    let rest = consumed - rm_transfer - evm_withdraw in
    let note = build_resource p s h v consumed (first_byte 202) (first_byte 254) in
    let change = build_resource p s h v rest (first_byte 204) (first_byte 254) in
    let paid = build_resource p s h u rm_transfer (first_byte 221) (first_byte 254) in
    let (signed, built, accepted) =
      signed_witness_accepted p s h b test_multisig_forwarder v note change (paid ∷ [])
        (withdrawal_data evm_withdraw) nullifier law slaw hlaw
        (deterministic-IsVault p s h {E = CircuitError} seed made) (evm_withdraw + 0) refl refl refl
        tagged (withdrawal_data-FitsAll evm_withdraw) (omega arith) bound
        (withdrawal_data-Withdraws b evm_withdraw (omega arith)) (omega arith) in
    (
      signed,
      rw
          (
            add_u128_fits b rm_transfer evm_withdraw (omega arith),
            enough,
            made,
            made',
            sub_u128_fits b consumed rm_transfer (omega arith),
            sub_u128_fits b (consumed - rm_transfer) evm_withdraw (omega arith),
          )
          built,
      _,
      accepted,
    )
