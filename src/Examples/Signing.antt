-- ===== src/Examples/Signing.antt =====
-- A spend that the host signs on the toy platform.
use arm_multisig_application.Base.{◌≡◌, refl, some, none, [], ◌∷◌, ok, length, ==_iff, arith, true}
use arm_multisig_application.Base.Bytes.{Bytes, bytes_eq_refl}
use arm_multisig_application.Constrain.Consumed.{constrain_multisig_consumed}
use arm_multisig_application.Constrain.Consumed.Refinement.{constrain_sound}
use arm_multisig_application.Constrain.Errors.{CircuitError}
use arm_multisig_application.Examples.Toy.{toy, toy-IsLawful, toy_sign, toy_key, toy_verify}
use arm_multisig_application.Examples.Consumed.{
  key_a, key_b, note, unsigned, spend, spend_accepted, forwarder, build, journal,
}
use arm_multisig_application.Fixtures.Signer.{Signer, IsSigner, sign_witness}
use arm_multisig_application.Fixtures.Accepted.{Ready, constrain_multisig_consumed-sign_witness}
use arm_multisig_application.Witness.{MultisigConsumedWitness}

-- Keys of 33 bytes, each its own public key.
abbrev pub signer : Signer toy
signer = record {
  SigningKey = (key : Bytes) × (length key ≡ 33);
  public_key = λ sk. sk.0;
  sign_digest = λ sk msg. toy_sign sk.0 msg;
  to_der = λ sig. sig;
}

toy_key_lem : (key : Bytes) → length key ≡ 33 → toy_key key ≡ some key
unfolding toy_key
toy_key_lem key h = rw ((==_iff (length key) 33).1 h) refl

toy_verify-toy_sign : (key msg : Bytes) → toy_verify key msg (toy_sign key msg) ≡ true
unfolding toy_verify
toy_verify-toy_sign key msg = bytes_eq_refl (toy_sign key msg)

pub signer-IsSigner : IsSigner toy signer
signer-IsSigner = record {
  verifying_key = λ sk. sk.0;
  from_sec1_bytes-public_key = λ sk. toy_key_lem sk.0 sk.1;
  from_der-to_der = λ sig. refl;
  verifies = λ sk msg. toy_verify-toy_sign sk.0 msg;
  low_form = λ sig low h. refl;
  low_verifies = λ vk msg sig low h k. absurd (let no_form : none ≡ some low = h in cc no_form);
}

abbrev draft : MultisigConsumedWitness toy
draft = unsigned (note 10 3 ∷ note 20 4 ∷ []) 70 []

draft-Ready : Ready toy build draft forwarder journal
draft-Ready =
    let a = constrain_sound toy toy-IsLawful build spend forwarder spend_accepted in
    record {
      identity = record {
        nullifier_key = a.identity.nullifier_key;
        nk_commitment = a.identity.nk_commitment;
        label_ref = a.identity.label_ref;
      };
      key_count = a.policy.key_count;
      keys_ascend = a.policy.keys_ascend;
      pubkey_root = a.policy.pubkey_root;
      change = record {
        label_ref = a.change.label_ref;
        quantity = a.change.quantity;
        in_action = a.change.in_action;
      };
      balanced = record {
        recipients_in_action = a.balanced.recipients_in_action;
        withdrawn = a.balanced.withdrawn;
        withdraws = a.balanced.withdraws;
        conserved = a.balanced.conserved;
      };
      nullifier = a.sealed.nullifier;
      tagged = a.sealed.tagged;
      fits = a.sealed.fits;
      journal_layout = a.sealed.journal_layout;
      recipients_counted = a.sealed.recipients_counted;
    }

constrain_multisig_consumed-sign_witness_example :
    (signed : MultisigConsumedWitness toy) × (sign_witness toy signer {E = CircuitError} draft
        ((key_a, refl) ∷ (key_b, refl) ∷ [])
        (1 ∷ [])
      ≡ ok signed)
    × (constrain_multisig_consumed toy build signed forwarder ≡ ok journal)
constrain_multisig_consumed-sign_witness_example =
    constrain_multisig_consumed-sign_witness toy build draft forwarder journal draft-Ready signer
      ((key_a, refl) ∷ (key_b, refl) ∷ []) (1 ∷ []) toy-IsLawful signer-IsSigner (omega arith)
      (omega arith) refl refl (tt, tt) (omega arith)
