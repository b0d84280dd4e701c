-- ===== src/Constrain/Consumed/Binding.antt =====
-- What hashes bind: a note's policy, and what a signature stands for.
use arm_multisig_application.Base.{
  ◌^◌, ◌<◌, ◌≡◌, ◌∙◌, sym, ap, List, [], ◌∷◌, ok, map, length, length-map, All, arith,
}
use arm_multisig_application.Base.Bytes.{Bytes}
use arm_multisig_application.Constrain.Consumed.{constrain_multisig_consumed}
use arm_multisig_application.Constrain.Consumed.Spec.{commitment_bytes, signed_bytes, instance_of}
use arm_multisig_application.Constrain.Consumed.Refinement.{constrain_sound}
use arm_multisig_application.Journal.Injective.{layout_inj}
use arm_multisig_application.Journal.Layout.{IsValid}
use arm_multisig_application.Label
use arm_multisig_application.Label.{LabelPreimage}
use arm_multisig_application.Machine.{Build}
use arm_multisig_application.Platform.{Platform, IsLawful}
use arm_multisig_application.Platform.Collision.{NoCollision}
use arm_multisig_application.Spend.Injective.{IsDigest, message_bytes_inj, flatten_inj}
use arm_multisig_application.Spend.Message.{sort-perm}
use arm_multisig_application.Witness.{ResourceOf, MultisigConsumedWitness}
use mathlib.Core.List.{Perm, flatten}
use mathlib.Core.List.Perm

commitments-IsDigest :
    (p : Platform) (law : IsLawful p) (rs : List (ResourceOf p))
    → All IsDigest (map (commitment_bytes p) rs)
commitments-IsDigest p law [] = tt
commitments-IsDigest p law (r ∷ rs) =
    (law.length-as_bytes (p.commitment r), commitments-IsDigest p law rs)

-- The signed bytes determine the journal digest and the recipients, up to their order.
signed_bytes_inj :
    (p : Platform) (v w : MultisigConsumedWitness p) (c d : Bytes)
    → IsLawful p
    → IsDigest c
    → IsDigest d
    → length v.recipient_resources < 2 ^ 32
    → length w.recipient_resources < 2 ^ 32
    → signed_bytes p v c ≡ signed_bytes p w d
    → (c ≡ d)
      × Perm
          (map (commitment_bytes p) v.recipient_resources)
          (map (commitment_bytes p) w.recipient_resources)
signed_bytes_inj p v w c d law hc hd nv nw same =
    let xs = map (commitment_bytes p) v.recipient_resources in
    let ys = map (commitment_bytes p) w.recipient_resources in
    let mx = length-map (commitment_bytes p) v.recipient_resources in
    let my = length-map (commitment_bytes p) w.recipient_resources in
    let (digest, sorted) =
      message_bytes_inj c d xs ys hc hd (commitments-IsDigest p law v.recipient_resources)
        (commitments-IsDigest p law w.recipient_resources) (omega arith) (omega arith)
        (rw (mx, my) same) in
    (digest, Perm.trans (Perm.symm (sort-perm xs)) (rw sorted (sort-perm ys)))

instance_of-IsValid :
    (p : Platform)
    → IsLawful p
    → (w : MultisigConsumedWitness p) (nullifier : p.Digest) → IsValid (instance_of p w nullifier)
instance_of-IsValid p law w nullifier = record {
  tag = law.length-as_bytes nullifier;
  action_tree_root = law.length-as_bytes w.action_tree_root;
}

-- What two spends that one signed message could stand for have in common.
pub record SameSpend (p : Platform) (v w : MultisigConsumedWitness p) : Type 0 where
  pub app_data : v.app_data ≡ w.app_data
  pub action_tree_root : p.as_bytes v.action_tree_root ≡ p.as_bytes w.action_tree_root
  pub recipients :
      Perm
        (map (commitment_bytes p) v.recipient_resources)
        (map (commitment_bytes p) w.recipient_resources)

module _ (p : Platform) (b : Build) (forwarder : Bytes) where
  -- If the signers' message of two accepted spends is the same, and neither the two messages'
  -- bytes nor the two journals are a SHA-256 collision, then the two have the same journal,
  -- application data (all external calls) and action tree root, and the same recipient
  -- commitments up to their order.
  pub constrain_multisig_consumed-SameSpend :
      (v w : MultisigConsumedWitness p) {i j : Bytes}
      → IsLawful p
      → constrain_multisig_consumed p b v forwarder ≡ ok i
      → constrain_multisig_consumed p b w forwarder ≡ ok j
      → NoCollision p (signed_bytes p v (p.sha256 i)) (signed_bytes p w (p.sha256 j))
      → NoCollision p i j
      → p.sha256 (signed_bytes p v (p.sha256 i)) ≡ p.sha256 (signed_bytes p w (p.sha256 j))
      → (i ≡ j) × SameSpend p v w
  constrain_multisig_consumed-SameSpend v w {i} {j} law hv hw messages journals same =
      let sv = (constrain_sound p law b v forwarder hv).sealed in
      let sw = (constrain_sound p law b w forwarder hw).sealed in
      let (digest, recipients) =
        signed_bytes_inj p v w (p.sha256 i) (p.sha256 j) law (law.length-sha256 i)
          (law.length-sha256 j) sv.recipients_counted sw.recipients_counted (messages same) in
      let instances =
        layout_inj (instance_of p v sv.nullifier) (instance_of p w sw.nullifier)
          (instance_of-IsValid p law v sv.nullifier) (instance_of-IsValid p law w sw.nullifier)
          sv.fits sw.fits (sym sv.journal_layout ∙ journals digest ∙ sw.journal_layout) in
      (
        journals digest,
        record {
          app_data = ap (λ x. x.app_data) instances;
          action_tree_root = ap (λ x. x.action_tree_root) instances;
          recipients = recipients;
        },
      )

  -- Two accepted spends of notes with one label reference have the same label preimage and the
  -- same keys, each of 33 bytes, if neither the two encoded preimages nor the two strings of keys
  -- are a SHA-256 collision.
  pub constrain_multisig_consumed-same_policy :
      (v w : MultisigConsumedWitness p) {i j : Bytes}
      → IsLawful p
      → Label.Layout.IsValid v.label_preimage
      → Label.Layout.IsValid w.label_preimage
      → All (λ key. length key ≡ 33) v.pubkeys
      → All (λ key. length key ≡ 33) w.pubkeys
      → NoCollision p (Label.encode v.label_preimage) (Label.encode w.label_preimage)
      → NoCollision p (flatten v.pubkeys) (flatten w.pubkeys)
      → constrain_multisig_consumed p b v forwarder ≡ ok i
      → constrain_multisig_consumed p b w forwarder ≡ ok j
      → v.resource.label_ref ≡ w.resource.label_ref
      → (v.label_preimage ≡ w.label_preimage) × (v.pubkeys ≡ w.pubkeys)
  constrain_multisig_consumed-same_policy v w law lv lw kv kw encodings keys hv hw same =
      let av = constrain_sound p law b v forwarder hv in
      let aw = constrain_sound p law b w forwarder hw in
      let refs = sym av.identity.label_ref ∙ ap p.as_bytes same ∙ aw.identity.label_ref in
      let labels =
        Label.Layout.label_inj v.label_preimage w.label_preimage lv lw (encodings refs) in
      let roots =
        av.policy.pubkey_root ∙ ap (λ l. l.pubkey_root) labels ∙ sym aw.policy.pubkey_root in
      let count = av.policy.key_count ∙ ap (λ l. l.n) labels ∙ sym aw.policy.key_count in
      (labels, flatten_inj 33 v.pubkeys w.pubkeys kv kw count (keys roots))
