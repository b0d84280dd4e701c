-- ===== src/Examples/Consumed.antt =====
-- Spends of 100 units by a 1-of-2 vault on the toy platform.
use arm_multisig_application.Base.{map, ℕ, ◌≡◌, refl, false, List, [], ◌∷◌, ◌++◌, ok, replicate}
use arm_multisig_application.Base.Bytes.{Bytes, bytes_eq, bytes_lt}
use arm_multisig_application.Base.Words.{to_be, to_le_bytes}
use arm_multisig_application.Constrain.Errors.{
  any_tag, digest_to_array, consumed_instance, derive_nullifier_key_bytes,
}
use arm_multisig_application.Constrain.Consumed.{
  constrain_multisig_consumed, check_identity, check_policy, check_change, check_indices,
  gather_recipients, walk_payloads, check_conservation, verify_slots, seal,
}
use arm_multisig_application.Constrain.Consumed.Spec.{instance_of, signed_bytes}
use arm_multisig_application.Examples.Toy.{
  toy, toy_sha256, toy_hash, toy_commitment, toy_sign, toy_key, toy_verify, toy_tag, ToyResource,
}
use arm_multisig_application.Journal.{AppData, encode, encode_payload, encode_blobs}
use arm_multisig_application.Journal.Layout.{layout}
use arm_multisig_application.Label
use arm_multisig_application.Label.{LabelPreimage, check_sorted, absorb, label_ref}
use arm_multisig_application.Label.Layout.{IsValid}
use arm_multisig_application.Machine.{Build, host, index, checked_add}
use arm_multisig_application.Sig.{verify_secp256k1}
use arm_multisig_application.Spend
use arm_multisig_application.Spend.{sort, spend_message, spend_preimage}
use arm_multisig_application.Witness.{MultisigConsumedWitness, SignerSlot}
use mathlib.Core.List.{flatten}

abbrev pub key_a : Bytes
key_a = 2 ∷ replicate 32 5

abbrev pub key_b : Bytes
key_b = 2 ∷ replicate 32 9

abbrev pub vault : LabelPreimage
vault = record {
  token_addr = replicate 20 17;
  n = 2;
  k = 1;
  pubkey_root = toy_sha256 (key_a ++ key_b);
  salt = replicate 32 205;
}

pub vault-IsValid : IsValid vault
unfolding toy_sha256 toy_hash to_be
vault-IsValid = record { token_addr = refl; pubkey_root = refl; salt = refl }

abbrev pub no_payload : AppData
no_payload = record {
  resource_payload = [];
  discovery_payload = [];
  external_payload = [];
  application_payload = [];
}

abbrev pub nf_key : Bytes
nf_key = derive_nullifier_key_bytes toy vault

abbrev pub note : ℕ → ℕ → ToyResource
note quantity nonce = record {
  logic_ref = 0;
  label_ref = toy_hash (Label.encode vault);
  quantity = quantity;
  value_ref = 0;
  is_ephemeral = false;
  nonce = to_be 32 nonce;
  nk_commitment = toy_sha256 nf_key;
  rand_seed = replicate 32 254;
}

-- A spend that pays `recipients` and keeps `change`, with the slots still to be filled.
abbrev pub unsigned : List ToyResource → ℕ → List SignerSlot → MultisigConsumedWitness toy
unsigned recipients change slots = record {
  action_tree_root = 12345;
  app_data = no_payload;
  resource = note 100 1;
  nf_key = nf_key;
  label_preimage = vault;
  pubkeys = key_a ∷ key_b ∷ [];
  signatures = slots;
  change_resource = note change 2;
  recipient_resources = recipients;
  action_tags = toy_commitment (note change 2) ∷ map toy_commitment recipients;
}

abbrev pub nullifier : ℕ
nullifier = toy_hash (to_be 32 (toy_commitment (note 100 1)) ++ nf_key)

abbrev pub journal : Bytes
journal = layout (instance_of toy (unsigned [] 0 []) nullifier)

-- The slot of the second key.
abbrev slot : MultisigConsumedWitness toy → SignerSlot
slot w = record {
  idx = 1;
  sig_der = toy_sign key_b (toy_sha256 (signed_bytes toy w (toy_sha256 journal)));
}

abbrev signed : List ToyResource → ℕ → MultisigConsumedWitness toy
signed recipients change = unsigned recipients change (slot (unsigned recipients change []) ∷ [])

abbrev pub spend : MultisigConsumedWitness toy
spend = signed (note 10 3 ∷ note 20 4 ∷ []) 70

-- The same with the recipients in the other order.
abbrev pub reordered : MultisigConsumedWitness toy
reordered = signed (note 20 4 ∷ note 10 3 ∷ []) 70

-- The same with a tag that nothing else names.
abbrev pub padded : MultisigConsumedWitness toy
padded = record spend { action_tags = 99 ∷ spend.action_tags }

-- Another spend by the same vault.
abbrev pub sweep : MultisigConsumedWitness toy
sweep = signed (note 100 5 ∷ []) 0

abbrev pub forwarder : Bytes
forwarder = replicate 20 170

abbrev pub build : Build
build = record { target = host; overflow_checks = false }

pub spend_accepted : constrain_multisig_consumed toy build spend forwarder ≡ ok journal
unfolding constrain_multisig_consumed check_identity check_policy check_change check_indices
    gather_recipients walk_payloads check_conservation verify_slots seal any_tag digest_to_array
    consumed_instance derive_nullifier_key_bytes toy_sha256 toy_hash toy_commitment toy_sign toy_key
    toy_verify toy_tag encode encode_payload encode_blobs layout Label.encode check_sorted absorb
    label_ref index checked_add verify_secp256k1 sort spend_message spend_preimage bytes_eq bytes_lt
    to_be to_le_bytes Spend.new flatten
spend_accepted = refl

pub reordered_accepted : constrain_multisig_consumed toy build reordered forwarder ≡ ok journal
unfolding constrain_multisig_consumed check_identity check_policy check_change check_indices
    gather_recipients walk_payloads check_conservation verify_slots seal any_tag digest_to_array
    consumed_instance derive_nullifier_key_bytes toy_sha256 toy_hash toy_commitment toy_sign toy_key
    toy_verify toy_tag encode encode_payload encode_blobs layout Label.encode check_sorted absorb
    label_ref index checked_add verify_secp256k1 sort spend_message spend_preimage bytes_eq bytes_lt
    to_be to_le_bytes Spend.new flatten
reordered_accepted = refl

pub sweep_accepted : constrain_multisig_consumed toy build sweep forwarder ≡ ok journal
unfolding constrain_multisig_consumed check_identity check_policy check_change check_indices
    gather_recipients walk_payloads check_conservation verify_slots seal any_tag digest_to_array
    consumed_instance derive_nullifier_key_bytes toy_sha256 toy_hash toy_commitment toy_sign toy_key
    toy_verify toy_tag encode encode_payload encode_blobs layout Label.encode check_sorted absorb
    label_ref index checked_add verify_secp256k1 sort spend_message spend_preimage bytes_eq bytes_lt
    to_be to_le_bytes Spend.new flatten
sweep_accepted = refl

pub padded_accepted : constrain_multisig_consumed toy build padded forwarder ≡ ok journal
unfolding constrain_multisig_consumed check_identity check_policy check_change check_indices
    gather_recipients walk_payloads check_conservation verify_slots seal any_tag digest_to_array
    consumed_instance derive_nullifier_key_bytes toy_sha256 toy_hash toy_commitment toy_sign toy_key
    toy_verify toy_tag encode encode_payload encode_blobs layout Label.encode check_sorted absorb
    label_ref index checked_add verify_secp256k1 sort spend_message spend_preimage bytes_eq bytes_lt
    to_be to_le_bytes Spend.new flatten
padded_accepted = refl
