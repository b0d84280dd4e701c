-- ===== src/Examples/Spends.antt =====
-- The theorems on spends at the concrete spends of Examples/Consumed.
use arm_multisig_application.Base.{◌≡◌, ◌↔◌, ◌≤◌, refl, ok, arith}
use arm_multisig_application.Constrain.Consumed.{constrain_multisig_consumed}
use arm_multisig_application.Constrain.Consumed.Spec.{Authorized, signed_bytes}
use arm_multisig_application.Constrain.Consumed.Refinement.{constrain_multisig_consumed-Authorized}
use arm_multisig_application.Constrain.Consumed.Authority.{
  Quorum, constrain_multisig_consumed-Quorum,
}
use arm_multisig_application.Constrain.Consumed.Binding.{
  SameSpend, constrain_multisig_consumed-SameSpend, constrain_multisig_consumed-same_policy,
}
use arm_multisig_application.Constrain.Consumed.Tags.{retag, constrain_multisig_consumed-retag}
use arm_multisig_application.Examples.Toy.{toy, toy-IsLawful, toy_sha256, toy_hash, toy_commitment}
use arm_multisig_application.Examples.Consumed.{
  spend, reordered, sweep, journal, forwarder, build, spend_accepted, reordered_accepted, padded,
  padded_accepted, sweep_accepted, vault-IsValid,
}
use arm_multisig_application.Label
use arm_multisig_application.Journal.Layout.{layout}
use arm_multisig_application.Constrain.Errors.{derive_nullifier_key_bytes}
use arm_multisig_application.Base.Words.{to_be, to_le_bytes}
use arm_multisig_application.Base.Bytes.{bytes_lt}
use arm_multisig_application.Spend.{sort}
use mathlib.Core.List.{flatten}

constrain_multisig_consumed-Authorized_example :
    (constrain_multisig_consumed toy build spend forwarder ≡ ok journal)
    ↔ Authorized toy build spend forwarder journal
constrain_multisig_consumed-Authorized_example =
    constrain_multisig_consumed-Authorized toy build spend forwarder journal toy-IsLawful
      (omega arith)

constrain_multisig_consumed-Quorum_example :
    Quorum toy 1 spend.pubkeys (toy_sha256 (signed_bytes toy spend (toy_sha256 journal))) × (1 ≤ 2)
constrain_multisig_consumed-Quorum_example =
    constrain_multisig_consumed-Quorum toy build spend forwarder toy-IsLawful spend_accepted

-- The two orders of the recipients are signed alike.
same_message :
    signed_bytes toy spend (toy_sha256 journal) ≡ signed_bytes toy reordered (toy_sha256 journal)
unfolding sort bytes_lt flatten toy_commitment toy_hash to_be toy_sha256 derive_nullifier_key_bytes
    Label.encode layout to_le_bytes
same_message = refl

constrain_multisig_consumed-SameSpend_example : (journal ≡ journal) × SameSpend toy spend reordered
unfolding toy_sha256
constrain_multisig_consumed-SameSpend_example =
    constrain_multisig_consumed-SameSpend toy build forwarder spend reordered toy-IsLawful
      spend_accepted reordered_accepted (λ h. same_message) (λ h. refl) (rw same_message refl)

constrain_multisig_consumed-same_policy_example :
    (spend.label_preimage ≡ sweep.label_preimage) × (spend.pubkeys ≡ sweep.pubkeys)
constrain_multisig_consumed-same_policy_example =
    constrain_multisig_consumed-same_policy toy build forwarder spend sweep toy-IsLawful
      vault-IsValid vault-IsValid (refl, (refl, tt)) (refl, (refl, tt)) (λ h. refl) (λ h. refl)
      spend_accepted sweep_accepted refl

constrain_multisig_consumed-retag_example :
    constrain_multisig_consumed toy build (retag toy padded) forwarder ≡ ok journal
constrain_multisig_consumed-retag_example =
    constrain_multisig_consumed-retag toy build padded forwarder toy-IsLawful (omega arith)
      padded_accepted
