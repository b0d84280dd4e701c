-- ===== src/Examples/Refusals.antt =====
-- Refused witnesses, and the theorems on errors at these values.
use arm_multisig_application.Base.{panic, arith, err, false, refl, replicate, ◌↔◌, ◌∷◌, ◌≡◌}
use arm_multisig_application.Base.Bytes.{bytes_eq, bytes_lt}
use arm_multisig_application.Base.Words.{from_be_bytes, to_be, to_le_bytes}
use arm_multisig_application.Constrain.Consumed.{
  check_change, check_conservation, check_identity, check_indices, check_policy,
  constrain_multisig_consumed, gather_recipients, seal, verify_slots, walk_payloads,
}
use arm_multisig_application.Constrain.Consumed.Refusal.{Refused}
use arm_multisig_application.Constrain.Consumed.Refusal.Branch.{constrain_multisig_consumed-Refused}
use arm_multisig_application.Constrain.Created.{constrain_multisig_created}
use arm_multisig_application.Constrain.Created.Refusal.{
  NoteRefused, constrain_multisig_created-NoteRefused,
}
use arm_multisig_application.Constrain.Errors.{
  CircuitError, any_tag, conservation_broken, consumed_instance, derive_nullifier_key_bytes,
  digest_to_array, invalid_k_n, outflow_must_be_ephemeral, wrap_inflow_depositor_mismatch,
}
use arm_multisig_application.Constrain.Wrap.{
  check_deposit, check_inflow, constrain_wrap_inflow, constrain_wrap_outflow,
}
use arm_multisig_application.Constrain.Wrap.Refusal.{InflowRefused}
use arm_multisig_application.Constrain.Wrap.Refusal.Branches.{constrain_wrap_inflow-InflowRefused}
use arm_multisig_application.Examples.Consumed.{build, forwarder, note, spend, vault}
use arm_multisig_application.Examples.Notes.{no_payload-FitsAll, deposit, new_note, withdrawal}
use arm_multisig_application.Examples.Toy.{
  toy, toy-IsLawful, toy_commitment, toy_hash, toy_key, toy_sha256, toy_sign, toy_tag, toy_verify,
}
use arm_multisig_application.Guest.Aborts.{
  SpendFits, MultisigRefuses, multisig_main-MultisigRefuses,
}
use arm_multisig_application.Guest.{multisig_main, wrap_forwarder}
use arm_multisig_application.Witness.{
  consumed, MultisigConsumedWitness, MultisigCreatedWitness, WrapInflowWitness, WrapOutflowWitness,
}
use arm_multisig_application.Journal.{encode, encode_blobs, encode_payload}
use arm_multisig_application.Journal.Layout.{layout}
use arm_multisig_application.Label
use arm_multisig_application.Spend
use arm_multisig_application.Label.{
  LabelPreimage, absorb, check_sorted, label_ref, new, pubkey_root_of,
}
use arm_multisig_application.Machine.{add_usize, as_usize, checked_add, index, slice}
use arm_multisig_application.Sig.{verify_secp256k1}
use arm_multisig_application.Spend.{sort, spend_message, spend_preimage}
use mathlib.Core.List.{flatten}
use arm_multisig_application.Abi.{
  parse_external_call, parse_wrap_call_input, read_address, read_bytes, read_uint256, read_word,
}
use arm_multisig_application.Abi.Words.{u256_be}
use arm_multisig_application.Fixtures.{encode_call, pad}

-- A spend whose change is 10 short, signed as `spend` is.
abbrev short : MultisigConsumedWitness toy
short = record spend {
  change_resource = note 60 2;
  action_tags = toy_commitment (note 60 2) ∷ spend.action_tags;
}

short_refused :
    constrain_multisig_consumed toy build short forwarder ≡ err (conservation_broken 0 30 60 100)
unfolding constrain_multisig_consumed check_identity check_policy check_change check_indices
    gather_recipients walk_payloads check_conservation verify_slots seal any_tag digest_to_array
    consumed_instance derive_nullifier_key_bytes toy_sha256 toy_hash toy_commitment toy_sign toy_key
    toy_verify toy_tag encode encode_payload encode_blobs layout Label.encode check_sorted absorb
    label_ref index checked_add verify_secp256k1 sort spend_message spend_preimage bytes_eq bytes_lt
    to_be to_le_bytes Spend.new flatten
short_refused = refl

constrain_multisig_consumed-Refused_example :
    (constrain_multisig_consumed toy build short forwarder ≡ err (conservation_broken 0 30 60 100))
    ↔ Refused toy build short forwarder (conservation_broken 0 30 60 100)
constrain_multisig_consumed-Refused_example =
    constrain_multisig_consumed-Refused toy build short forwarder (conservation_broken 0 30 60 100)
      toy-IsLawful (omega arith)

-- A note whose vault needs no signature.
abbrev unguarded : MultisigCreatedWitness toy
unguarded = record new_note { label_preimage = record vault { k = 0 } }

unguarded_refused : constrain_multisig_created toy unguarded ≡ err invalid_k_n
unfolding constrain_multisig_created bytes_eq
unguarded_refused = refl

constrain_multisig_created-NoteRefused_example :
    (constrain_multisig_created toy unguarded ≡ err invalid_k_n)
    ↔ NoteRefused toy unguarded invalid_k_n
constrain_multisig_created-NoteRefused_example =
    constrain_multisig_created-NoteRefused toy unguarded invalid_k_n

-- A deposit that is witnessed for another depositor than the one that pays.
abbrev stolen : WrapInflowWitness toy
stolen = record deposit { depositor = replicate 20 52 }

stolen_refused :
    constrain_wrap_inflow toy build stolen wrap_forwarder ≡ err wrap_inflow_depositor_mismatch
unfolding constrain_wrap_inflow check_inflow check_deposit parse_external_call parse_wrap_call_input
    read_bytes read_uint256 read_address read_word u256_be pad encode_call slice index as_usize
    add_usize checked_add consumed_instance digest_to_array derive_nullifier_key_bytes Label.encode
    label_ref toy_sha256 toy_hash toy_commitment toy_tag to_be to_le_bytes from_be_bytes bytes_eq
    encode encode_payload encode_blobs layout
stolen_refused = refl

constrain_wrap_inflow-InflowRefused_example :
    (constrain_wrap_inflow toy build stolen wrap_forwarder ≡ err wrap_inflow_depositor_mismatch)
    ↔ InflowRefused toy build stolen wrap_forwarder wrap_inflow_depositor_mismatch
constrain_wrap_inflow-InflowRefused_example =
    constrain_wrap_inflow-InflowRefused toy build stolen wrap_forwarder
      wrap_inflow_depositor_mismatch toy-IsLawful

-- A withdrawal's resource that is not ephemeral.
abbrev lasting : WrapOutflowWitness toy
lasting = record withdrawal { resource = record withdrawal.resource { is_ephemeral = false } }

lasting_refused : constrain_wrap_outflow toy lasting ≡ err outflow_must_be_ephemeral
unfolding constrain_wrap_outflow
lasting_refused = refl

short_fits : SpendFits toy build short
short_fits = record {
  quantity = omega arith;
  app_data = no_payload-FitsAll;
  recipients = omega arith;
  calls = tt;
}

multisig_main-MultisigRefuses_example :
    (multisig_main {E = Unit {0}} toy build (consumed short) ≡ panic)
    ↔ ((e : CircuitError) × MultisigRefuses toy build (consumed short) e)
multisig_main-MultisigRefuses_example =
    multisig_main-MultisigRefuses toy build (consumed short) toy-IsLawful short_fits
