-- ===== src/Fixtures/Builders.antt =====
-- The circuit accepts what the host's builders make.
use arm_multisig_application.Base.{
  ℕ, ◌+◌, ◌-◌, ◌^◌, ◌≤◌, ◌<◌, ◌≡◌, ◌∙◌, refl, sym, ap, true, some, List, [], ◌∷◌, ◌++◌, ok, map,
  length, length-map, All, leb, arith,
}
use arm_multisig_application.Base.Bytes.{Bytes}
use arm_multisig_application.Constrain.Consumed.{constrain_multisig_consumed}
use arm_multisig_application.Constrain.Consumed.Spec.{Withdraws, total_quantity, instance_of}
use arm_multisig_application.Constrain.Errors.{CircuitError}
use arm_multisig_application.Fixtures.Accepted.{Ready, constrain_multisig_consumed-sign_witness}
use arm_multisig_application.Fixtures.Signer.{Signer, IsSigner}
use arm_multisig_application.Fixtures.Deterministic.{IsVault, deterministic-IsVault}
use arm_multisig_application.Fixtures.Transfers.{
  transfer_blobs-Withdraws, length-encode_external_transfer,
}
use arm_multisig_application.Fixtures.Vault.{
  Host, IsHost, TestVault, test_token, deterministic, label_ref_digest, build_resource,
  signed_witness, first_byte, default_data, build_rm_internal_witness, build_full_spend_witness,
  withdrawal_data, test_multisig_forwarder, test_recipient,
}
use arm_multisig_application.Journal.{AppData}
use arm_multisig_application.Journal.Layout.{layout, FitsAll}
use arm_multisig_application.Label
use arm_multisig_application.Label.{
  LabelPreimage, LabelError, absorb, label_ref, nullifier_key_domain,
}
use arm_multisig_application.Machine.{Build, u128_mod}
use arm_multisig_application.Platform.{Platform, IsLawful}
use arm_multisig_application.Witness.{ResourceOf, MultisigConsumedWitness}
use mathlib.Core.List.{Mem, mem-cons}
use mathlib.Core.Logic.Or

All-Mem-map :
    {A B : Type 0} (f : A → B) (tags : List B) (xs : List A)
    → ((y : B) → Mem y (map f xs) → Mem y tags)
    → All (λ x. Mem (f x) tags) xs
All-Mem-map f tags [] within = tt
All-Mem-map f tags (x ∷ xs) within = (
  within (f x) (mem-cons.1 (Or.inl refl)),
  All-Mem-map f tags xs (λ y m. within y (mem-cons.1 (Or.inr m))),
)

module _ (p : Platform) (s : Signer p) (h : Host p s) (b : Build) (forwarder : Bytes)
    (v : TestVault p s) (note change : ResourceOf p) (rs : List (ResourceOf p)) (app : AppData)
    (nullifier : p.Digest) where
  -- The witness before it is signed.
  abbrev draft : MultisigConsumedWitness p
  draft =
      let tags = nullifier ∷ p.commitment change ∷ map p.commitment rs in
      record {
        action_tree_root = h.digest_from_bytes (p.sha256 (absorb [] (map p.as_bytes tags)));
        app_data = app;
        resource = note;
        nf_key = v.nf_key;
        label_preimage = v.label;
        pubkeys = v.pubkeys;
        signatures = [];
        change_resource = change;
        recipient_resources = rs;
        action_tags = tags;
      }

  -- Where the notes are those of a vault that `deterministic` made, and the external calls'
  -- withdrawals, the recipients and the change add up, the end of the builders returns a witness,
  -- and the circuit accepts it.
  pub signed_witness_accepted :
      IsLawful p
      → IsSigner p s
      → IsHost p s h
      → IsVault p s h v
      → (t : ℕ) → note.label_ref ≡ label_ref_digest p s h v
      → change.label_ref ≡ label_ref_digest p s h v
      → note.nk_commitment ≡ v.nk_commitment
      → p.tag note true v.nf_key ≡ some nullifier
      → FitsAll app
      → length rs < 2 ^ 32
      → note.quantity < u128_mod
      → Withdraws b forwarder test_token app.external_payload t
      → t + total_quantity p rs + change.quantity ≡ note.quantity
      → (signed : MultisigConsumedWitness p) × (signed_witness p s h {E = CircuitError} v note
            change rs app
          ≡ ok signed)
        × (constrain_multisig_consumed p b signed forwarder
            ≡ ok (layout (instance_of p draft nullifier)))
  unfolding signed_witness label_ref_digest label_ref
  signed_witness_accepted law slaw hlaw iv t ref change_ref nk tagged fits few bound moved sums =
      let pol = iv.policy in
      let token : v.label.token_addr ≡ test_token = ap (λ l. l.token_addr) pol.label_eq in
      let n : v.label.n ≡ length v.pubkeys = ap (λ l. l.n) pol.label_eq in
      let k : v.label.k ≡ 2 = ap (λ l. l.k) pol.label_eq in
      let root = ap (λ l. l.pubkey_root) pol.label_eq in
      let three : length v.pubkeys ≡ 3 =
        ap length iv.pubkeys ∙ length-map s.public_key v.signers ∙ iv.three in
      let encoded = Label.encode v.label in
      let key = p.sha256 (nullifier_key_domain ++ encoded) in
      let tags = nullifier ∷ p.commitment change ∷ map p.commitment rs in
      let ready : Ready p b draft forwarder (layout (instance_of p draft nullifier)) = record {
        identity = record {
          nullifier_key =
              ap p.inner iv.nf_key ∙ hlaw.inner-nf_key_from_bytes key (law.length-sha256 _);
          nk_commitment = sym (nk ∙ iv.nk_commitment);
          label_ref = ap p.as_bytes ref ∙ hlaw.as_bytes-digest_from_bytes encoded;
        };
        key_count = sym n;
        keys_ascend = pol.keys_ascend;
        pubkey_root = sym root;
        change = record {
          label_ref = change_ref ∙ sym ref;
          quantity = omega arith;
          in_action = mem-cons.1 (Or.inr (mem-cons.1 (Or.inl refl)));
        };
        balanced = record {
          recipients_in_action =
              All-Mem-map p.commitment tags rs (λ y m. mem-cons.1 (Or.inr (mem-cons.1 (Or.inr m))));
          withdrawn = t;
          withdraws = rw token moved;
          conserved = sums;
        };
        nullifier = nullifier;
        tagged = tagged;
        fits = fits;
        journal_layout = refl;
        recipients_counted = few;
      } in
      let (signed, made, accepted) =
        constrain_multisig_consumed-sign_witness p b draft forwarder _ ready s v.signers
          (0 ∷ 2 ∷ []) law slaw bound (omega arith) iv.pubkeys (sym k) ((omega arith, tt), (tt, tt))
          (omega arith, (omega arith, tt)) in
      (signed, rw tagged made, accepted)

-- Where the two vaults of the seeds are made, at most the 128-bit quantity is transferred and the
-- note has a nullifier, `build_rm_internal_witness` returns a witness, and the circuit accepts it:
-- a transfer inside the resource machine, with change, signed by two of three keys.
pub build_rm_internal_witness_accepted :
    (p : Platform) (s : Signer p) (h : Host p s) (b : Build) (forwarder : Bytes)
    (seed recipient_seed quantity transfer : ℕ) {v u : TestVault p s} {nullifier : p.Digest}
    → IsLawful p
    → IsSigner p s
    → IsHost p s h
    → deterministic p s h {E = CircuitError} seed ≡ ok v
    → deterministic p s h {E = CircuitError} recipient_seed ≡ ok u
    → transfer ≤ quantity
    → quantity < u128_mod
    → p.tag (build_resource p s h v quantity (first_byte 202) (first_byte 254)) true v.nf_key
      ≡ some nullifier
    → (signed : MultisigConsumedWitness p) × (build_rm_internal_witness p s h {E = CircuitError}
          seed recipient_seed quantity transfer
        ≡ ok signed)
      × (journal : Bytes) × (constrain_multisig_consumed p b signed forwarder ≡ ok journal)
unfolding build_rm_internal_witness build_resource
build_rm_internal_witness_accepted p s h b forwarder seed recipient_seed quantity transfer {v} {u}
      {nullifier} law slaw hlaw made made' le bound tagged =
    let enough : leb transfer quantity ≡ true = ground arith in
    let note = build_resource p s h v quantity (first_byte 202) (first_byte 254) in
    let change = build_resource p s h v (quantity - transfer) (first_byte 204) (first_byte 254) in
    let paid = build_resource p s h u transfer (first_byte 221) (first_byte 254) in
    let (signed, built, accepted) =
      signed_witness_accepted p s h b forwarder v note change (paid ∷ []) default_data nullifier law
        slaw hlaw (deterministic-IsVault p s h {E = CircuitError} seed made) 0 refl refl refl tagged
        (record {
          resource_payload = (omega arith, tt);
          discovery_payload = (omega arith, tt);
          external_payload = (omega arith, tt);
          application_payload = (omega arith, tt);
        })
        (omega arith) bound Withdraws.done (omega arith) in
    (signed, rw (enough, made, made') built, _, accepted)

pub withdrawal_data-FitsAll : (amount : ℕ) → FitsAll (withdrawal_data amount)
unfolding withdrawal_data
withdrawal_data-FitsAll amount =
    let size =
      length-encode_external_transfer test_multisig_forwarder test_token test_recipient amount refl
        refl refl in
    record {
      resource_payload = (omega arith, tt);
      discovery_payload = (omega arith, tt);
      external_payload = (omega arith, (omega arith, tt));
      application_payload = (omega arith, tt);
    }

pub withdrawal_data-Withdraws :
    (b : Build) (amount : ℕ)
    → amount < u128_mod
    → Withdraws b test_multisig_forwarder test_token
        (withdrawal_data amount).external_payload
        (amount + 0)
unfolding withdrawal_data
withdrawal_data-Withdraws b amount fits =
    transfer_blobs-Withdraws b test_multisig_forwarder test_token refl refl
      (record { recipient = test_recipient; amount = amount } ∷ []) ((refl, fits), tt)

-- Where the vault of the seed is made and the note of a 128-bit quantity has a nullifier,
-- `build_full_spend_witness` returns a witness, and the circuit of the pinned forwarder accepts it:
-- all is withdrawn by one encoded external call, signed by two of three keys.
pub build_full_spend_witness_accepted :
    (p : Platform) (s : Signer p) (h : Host p s) (b : Build) (seed quantity : ℕ) {v : TestVault p s}
    {nullifier : p.Digest}
    → IsLawful p
    → IsSigner p s
    → IsHost p s h
    → deterministic p s h {E = CircuitError} seed ≡ ok v
    → quantity < u128_mod
    → p.tag (build_resource p s h v quantity (first_byte 202) (first_byte 254)) true v.nf_key
      ≡ some nullifier
    → (signed : MultisigConsumedWitness p) × (build_full_spend_witness p s h {E = CircuitError} seed
          quantity
        ≡ ok signed)
      × (journal : Bytes) × (constrain_multisig_consumed p b signed test_multisig_forwarder
          ≡ ok journal)
unfolding build_full_spend_witness build_resource
build_full_spend_witness_accepted p s h b seed quantity {v} {nullifier} law slaw hlaw made bound
      tagged =
    let note = build_resource p s h v quantity (first_byte 202) (first_byte 254) in
    let change = build_resource p s h v 0 (first_byte 204) (first_byte 254) in
    let (signed, built, accepted) =
      signed_witness_accepted p s h b test_multisig_forwarder v note change []
        (withdrawal_data quantity) nullifier law slaw hlaw
        (deterministic-IsVault p s h {E = CircuitError} seed made) (quantity + 0) refl refl refl
        tagged (withdrawal_data-FitsAll quantity) (omega arith) bound
        (withdrawal_data-Withdraws b quantity bound) (omega arith) in
    (signed, rw made built, _, accepted)
