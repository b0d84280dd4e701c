-- ===== src/Examples/Payout.antt =====
-- A deposit and a spend that pays out, run on a table of balances.
use arm_multisig_application.Base.{
  ◌≡◌, refl, true, [], ◌∷◌, ok, replicate, All, if◌then◌else◌, arith, Bool, ltb, ◌&&◌,
}
use arm_multisig_application.Base.Bytes.{Bytes, IsByte, bytes_eq, bytes_lt}
use arm_multisig_application.Base.Words.{to_be, to_le_bytes, from_be_bytes}
use arm_multisig_application.Abi.{
  ParsedExternalCall, parse_external_call, parse_multisig_call_input, read_bytes, read_uint256,
  read_address, read_word,
}
use arm_multisig_application.Abi.Words.{u256_be}
use arm_multisig_application.Constrain.Consumed.{
  constrain_multisig_consumed, check_identity, check_policy, check_change, check_indices,
  gather_recipients, walk_payloads, add_call, check_conservation, verify_slots, seal,
}
use arm_multisig_application.Constrain.Consumed.Spec.{instance_of, signed_bytes}
use arm_multisig_application.Constrain.Errors.{
  any_tag, digest_to_array, consumed_instance, derive_nullifier_key_bytes,
}
use arm_multisig_application.Contracts.Calldata.{IsCalldata}
use arm_multisig_application.Contracts.Decode.{
  decode_address, decode_uint, decode_bytes, decode_op, decode_transfer, decode_deposit,
  decode_call,
}
use arm_multisig_application.Contracts.Forwarder.{
  MultisigForwarder, WrapForwarder, transfer_call, deposit_call,
}
use arm_multisig_application.Examples.Toy.{
  toy, toy_sha256, toy_hash, toy_commitment, toy_sign, toy_key, toy_verify, toy_tag,
}
use arm_multisig_application.Examples.Consumed.{
  vault, unsigned, no_payload, nullifier, build, key_b,
}
use arm_multisig_application.Examples.Notes.{depositor, wrap_input}
use arm_multisig_application.Examples.Tokens.{Balances, moved, move, tokens}
use arm_multisig_application.Fixtures.{
  pad, encode_call, encode_input, encode_external_transfer, expected_true,
}
use arm_multisig_application.Guest.{multisig_forwarder, wrap_forwarder}
use arm_multisig_application.Journal.{AppData, never, encode, encode_payload, encode_blobs}
use arm_multisig_application.Journal.Layout.{layout}
use arm_multisig_application.Label
use arm_multisig_application.Label.{check_sorted, absorb, label_ref}
use arm_multisig_application.Machine.{index, checked_add, slice, as_usize, add_usize}
use arm_multisig_application.Sig.{verify_secp256k1}
use arm_multisig_application.Spend
use arm_multisig_application.Spend.{sort, spend_message, spend_preimage}
use arm_multisig_application.Witness.{MultisigConsumedWitness}
use mathlib.Core.List.{flatten}

abbrev pub adapter : Bytes
adapter = replicate 20 7

abbrev pub logic : Bytes
logic = replicate 32 9

abbrev pub msf : MultisigForwarder
msf = record { this = multisig_forwarder; pa = adapter; wrap_logic_ref = logic }

abbrev pub wrapper : WrapForwarder
wrapper = record {
  this = wrap_forwarder;
  pa = adapter;
  multisig_forwarder = multisig_forwarder;
  wrap_logic_ref = logic;
}

abbrev pub payee : Bytes
payee = replicate 20 68

-- The depositor has 80 of the vault's token, and the forwarder 100.
unfoldable pub at_first : Balances
at_first token holder =
    if bytes_eq holder depositor then 80 else if bytes_eq holder multisig_forwarder then 100 else 0

unfoldable pub after_deposit : Balances
after_deposit = moved at_first vault.token_addr depositor multisig_forwarder 50

unfoldable pub after_payout : Balances
after_payout = moved after_deposit vault.token_addr multisig_forwarder payee 30

pub deposited :
    deposit_call tokens wrapper adapter at_first logic wrap_input
    ≡ ok (after_deposit, expected_true)
unfolding deposit_call decode_deposit decode_address decode_uint decode_bytes decode_op slice
    u256_be to_be from_be_bytes bytes_eq move after_deposit at_first
deposited = refl

abbrev pub payout_input : Bytes
payout_input = encode_input vault.token_addr payee 30 expected_true

pub paid :
    transfer_call tokens msf adapter after_deposit logic payout_input
    ≡ ok (after_payout, expected_true)
unfolding transfer_call decode_transfer decode_address decode_uint decode_bytes slice u256_be to_be
    from_be_bytes bytes_eq move moved after_payout after_deposit at_first encode_input pad
paid = refl

-- A spend of the 100 units of a note that pays 30 out and keeps 70.
abbrev pub payout_data : AppData
payout_data = record no_payload {
  external_payload =
      record {
        deletion_criterion = never;
        blob = encode_external_transfer multisig_forwarder vault.token_addr payee 30;
      }
      ∷ [];
}

abbrev pub payout_draft : MultisigConsumedWitness toy
payout_draft = record (unsigned [] 70 []) { app_data = payout_data }

abbrev pub payout_journal : Bytes
payout_journal = layout (instance_of toy payout_draft nullifier)

abbrev pub payout : MultisigConsumedWitness toy
payout = record payout_draft {
  signatures =
      record {
        idx = 1;
        sig_der =
            toy_sign key_b (toy_sha256 (signed_bytes toy payout_draft (toy_sha256 payout_journal)));
      }
      ∷ [];
}

pub payout_accepted :
    constrain_multisig_consumed toy build payout multisig_forwarder ≡ ok payout_journal
unfolding constrain_multisig_consumed check_identity check_policy check_change check_indices
    gather_recipients walk_payloads add_call check_conservation verify_slots seal any_tag
    digest_to_array consumed_instance derive_nullifier_key_bytes toy_sha256 toy_hash toy_commitment
    toy_sign toy_key toy_verify toy_tag encode encode_payload encode_blobs layout Label.encode
    check_sorted absorb label_ref index checked_add verify_secp256k1 sort spend_message
    spend_preimage bytes_eq bytes_lt to_be to_le_bytes Spend.new flatten parse_external_call
    parse_multisig_call_input read_bytes read_uint256 read_address read_word u256_be pad encode_call
    encode_input encode_external_transfer slice as_usize add_usize from_be_bytes
payout_accepted = refl

-- Whether all are bytes.
unfoldable all_bytes : Bytes → Bool
all_bytes [] = true
all_bytes (x ∷ xs) = ltb x 256 && all_bytes xs

all_bytes-IsByte : (xs : Bytes) → all_bytes xs ≡ true → All IsByte xs
unfolding all_bytes
all_bytes-IsByte [] h = tt
all_bytes-IsByte (x ∷ xs) h = (ground arith, all_bytes-IsByte xs (ground arith))

abbrev pub payout_blob : Bytes
payout_blob = encode_external_transfer multisig_forwarder vault.token_addr payee 30

pub payout_blob-IsCalldata : IsCalldata payout_blob
unfolding all_bytes encode_external_transfer encode_call encode_input u256_be to_be pad
payout_blob-IsCalldata = record { bytes = all_bytes-IsByte payout_blob refl; short = omega arith }

pub payout_input-IsCalldata : IsCalldata payout_input
unfolding all_bytes encode_input u256_be to_be pad
payout_input-IsCalldata = record { bytes = all_bytes-IsByte payout_input refl; short = omega arith }

pub wrap_input-IsCalldata : IsCalldata wrap_input
unfolding all_bytes u256_be to_be
wrap_input-IsCalldata = record { bytes = all_bytes-IsByte wrap_input refl; short = omega arith }

abbrev pub deposit_blob : Bytes
deposit_blob = encode_call wrap_forwarder wrap_input expected_true

pub deposit_blob-IsCalldata : IsCalldata deposit_blob
unfolding all_bytes encode_call u256_be to_be pad
deposit_blob-IsCalldata = record { bytes = all_bytes-IsByte deposit_blob refl; short = omega arith }

abbrev pub payout_call : ParsedExternalCall
payout_call = record {
  forwarder = multisig_forwarder;
  input = payout_input;
  expected = expected_true;
}

pub payout_parsed : parse_external_call build payout_blob ≡ ok payout_call
unfolding parse_external_call read_bytes read_uint256 read_address read_word u256_be pad encode_call
    encode_input encode_external_transfer slice as_usize add_usize checked_add from_be_bytes to_be
    bytes_eq
payout_parsed = refl

abbrev pub wrap_call : ParsedExternalCall
wrap_call = record { forwarder = wrap_forwarder; input = wrap_input; expected = expected_true }

pub wrap_parsed : parse_external_call build deposit_blob ≡ ok wrap_call
unfolding parse_external_call read_bytes read_uint256 read_address read_word u256_be pad encode_call
    slice as_usize add_usize checked_add from_be_bytes to_be bytes_eq
wrap_parsed = refl

-- Solidity decodes both calls as the circuit parses them.
pub payout_decoded_call : decode_call payout_blob ≡ ok payout_call
unfolding decode_call decode_address decode_uint decode_bytes u256_be pad encode_call encode_input
    encode_external_transfer slice from_be_bytes to_be bytes_eq
payout_decoded_call = refl

pub deposit_decoded_call : decode_call deposit_blob ≡ ok wrap_call
unfolding decode_call decode_address decode_uint decode_bytes u256_be pad encode_call slice
    from_be_bytes to_be bytes_eq
deposit_decoded_call = refl
