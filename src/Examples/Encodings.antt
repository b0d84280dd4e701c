-- ===== src/Examples/Encodings.antt =====
-- The theorems on byte layouts at concrete values.
use arm_multisig_application.Base.{sym, ◌∙◌, ◌≡◌, ◌↔◌, refl, true, [], ◌∷◌, ok, replicate, length}
use arm_multisig_application.Base.Bytes.{Bytes, bytes_lt}
use arm_multisig_application.Base.Words.{to_le_bytes}
use arm_multisig_application.Examples.Consumed.{vault, vault-IsValid}
use arm_multisig_application.Journal
use arm_multisig_application.Journal.{
  LogicInstance, ExpirableBlob, immediately, never, estimate_size, encode_payload, encode_blobs,
}
use arm_multisig_application.Journal.Layout
use arm_multisig_application.Journal.Layout.{FitsAll, layout, encode-iff_layout}
use arm_multisig_application.Journal.Injective
use arm_multisig_application.Label.{absorb}
use arm_multisig_application.Label.Layout as LabelLayout
use arm_multisig_application.Spend
use arm_multisig_application.Spend.{spend_message, spend_preimage, sort}
use arm_multisig_application.Spend.Message.{message_bytes}
use arm_multisig_application.Spend.Multiset.{multiset, spend_preimage-Multiset}
use mathlib.Core.List.{flatten}

abbrev instance_ : LogicInstance
instance_ = record {
  tag = replicate 32 7;
  is_consumed = true;
  action_tree_root = replicate 32 8;
  app_data = record {
    resource_payload = [];
    discovery_payload = record { deletion_criterion = never; blob = 1 ∷ 2 ∷ 3 ∷ [] } ∷ [];
    external_payload = [];
    application_payload = record { deletion_criterion = immediately; blob = [] } ∷ [];
  };
}

instance-IsValid : Journal.Layout.IsValid instance_
instance-IsValid = record { tag = refl; action_tree_root = refl }

instance_encoded : Journal.encode {E = Unit {0}} instance_ ≡ ok (layout instance_)
unfolding Journal.encode encode_payload encode_blobs layout to_le_bytes
instance_encoded = refl

encode-iff_layout_example :
    (Journal.encode {E = Unit {0}} instance_ ≡ ok (layout instance_))
    ↔ (FitsAll instance_.app_data × (layout instance_ ≡ layout instance_))
encode-iff_layout_example = encode-iff_layout instance_ (layout instance_)

length-encode_example : length (layout instance_) ≡ estimate_size instance_
length-encode_example = Journal.Layout.length-encode instance_ instance-IsValid instance_encoded

encode_inj_example : instance_ ≡ instance_
encode_inj_example =
    Journal.Injective.encode_inj instance_ instance_ instance-IsValid instance-IsValid
      instance_encoded instance_encoded

label_inj_example : vault ≡ vault
label_inj_example = LabelLayout.label_inj vault vault vault-IsValid vault-IsValid refl

abbrev a : Bytes
a = replicate 32 1

abbrev b : Bytes
b = replicate 32 2

preimage_ab :
    spend_preimage {E = Unit {0}} b (Spend.new (a ∷ b ∷ []))
    ≡ spend_preimage b (Spend.new (b ∷ a ∷ []))
unfolding Spend.new sort bytes_lt
preimage_ab = refl

preimage :
    spend_preimage {E = Unit {0}} b (Spend.new (a ∷ b ∷ [])) ≡ ok (message_bytes b 2 (a ∷ b ∷ []))
unfolding Spend.new sort bytes_lt spend_preimage absorb flatten to_le_bytes
preimage = refl

spend_preimage-Multiset_example :
    (message_bytes b 2 (a ∷ b ∷ []) ≡ message_bytes b 2 (a ∷ b ∷ []))
    ↔ ((b ≡ b) × (multiset (a ∷ b ∷ []) ≡ multiset (b ∷ a ∷ [])))
spend_preimage-Multiset_example =
    spend_preimage-Multiset b b (a ∷ b ∷ []) (b ∷ a ∷ []) refl refl (refl, (refl, tt))
      (refl, (refl, tt)) preimage (sym preimage_ab ∙ preimage)
