-- ===== src/Constrain/Consumed/Tags.antt =====
-- What the witnessed `action_tags` decide in `constrain_multisig_consumed`.
use arm_multisig_application.Base.{◌<◌, ◌≡◌, refl, List, [], ◌∷◌, ok, map, All}
use arm_multisig_application.Base.Bytes.{Bytes}
use arm_multisig_application.Constrain.Consumed.{constrain_multisig_consumed}
use arm_multisig_application.Constrain.Consumed.Refinement.{constrain_sound, constrain_complete}
use arm_multisig_application.Machine.{Build, u128_mod}
use arm_multisig_application.Platform.{Platform, IsLawful}
use arm_multisig_application.Witness.{ResourceOf, MultisigConsumedWitness}
use mathlib.Core.List.{Mem, mem-cons}
use mathlib.Core.Logic.Or

-- The same witness, with the tags that its own change and recipients need and no others.
abbrev pub retag : (p : Platform) → MultisigConsumedWitness p → MultisigConsumedWitness p
retag p w = record w {
  action_tags = p.commitment w.change_resource ∷ map p.commitment w.recipient_resources;
}

commitments-Mem :
    (p : Platform) (tags : List p.Digest) (rs : List (ResourceOf p))
    → ((d : p.Digest) → Mem d (map p.commitment rs) → Mem d tags)
    → All (λ r. Mem (p.commitment r) tags) rs
commitments-Mem p tags [] within = tt
commitments-Mem p tags (r ∷ rs) within = (
  within (p.commitment r) (mem-cons.1 (Or.inl refl)),
  commitments-Mem p tags rs (λ d m. within d (mem-cons.1 (Or.inr m))),
)

-- A spend that is accepted stays accepted, with the same journal, when the witnessed tags are
-- replaced by the commitments of its own change and recipients, whatever the action tree root is:
-- the tags are not compared with the root.
pub constrain_multisig_consumed-retag :
    (p : Platform) (b : Build) (w : MultisigConsumedWitness p) (forwarder : Bytes) {journal : Bytes}
    → IsLawful p
    → w.resource.quantity < u128_mod
    → constrain_multisig_consumed p b w forwarder ≡ ok journal
    → constrain_multisig_consumed p b (retag p w) forwarder ≡ ok journal
constrain_multisig_consumed-retag p b w forwarder law bound h =
    let a = constrain_sound p law b w forwarder h in
    let tags = p.commitment w.change_resource ∷ map p.commitment w.recipient_resources in
    constrain_complete p law b (retag p w) forwarder bound (record {
      identity = record {
        nullifier_key = a.identity.nullifier_key;
        nk_commitment = a.identity.nk_commitment;
        label_ref = a.identity.label_ref;
      };
      policy = record {
        key_count = a.policy.key_count;
        keys_ascend = a.policy.keys_ascend;
        pubkey_root = a.policy.pubkey_root;
        signer_count = a.policy.signer_count;
        signers = a.policy.signers;
      };
      change = record {
        label_ref = a.change.label_ref;
        quantity = a.change.quantity;
        in_action = mem-cons.1 (Or.inl refl);
      };
      balanced = record {
        recipients_in_action =
            commitments-Mem p tags w.recipient_resources (λ d m. mem-cons.1 (Or.inr m));
        withdrawn = a.balanced.withdrawn;
        withdraws = a.balanced.withdraws;
        conserved = a.balanced.conserved;
      };
      sealed = record {
        nullifier = a.sealed.nullifier;
        tagged = a.sealed.tagged;
        fits = a.sealed.fits;
        journal_layout = a.sealed.journal_layout;
        recipients_counted = a.sealed.recipients_counted;
        signed = a.sealed.signed;
      };
    })
