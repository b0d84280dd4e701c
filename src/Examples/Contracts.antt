-- ===== src/Examples/Contracts.antt =====
-- The theorems on the forwarders, at the calls of `Payout`.
use arm_multisig_application.Base.{
  err, ◌⊎◌, ◌⊎◌, ℕ, sym, ok_unique, subst, ◌+◌, ◌^◌, ◌≤◌, ◌<◌, ◌≡◌, ◌↔◌, refl, true, some, [], ◌∷◌,
  ◌++◌, ok, arith,
}
use arm_multisig_application.Base.Bytes.{Bytes, bytes_eq}
use arm_multisig_application.Base.Words.{to_be, from_be_bytes}
use arm_multisig_application.Abi.{
  parse_multisig_call_input, parse_wrap_call_input, read_uint256, read_word,
}
use arm_multisig_application.Abi.Words.{u256_be}
use arm_multisig_application.Constrain.Consumed.{constrain_multisig_consumed}
use arm_multisig_application.Constrain.Consumed.Spec.{instance_of}
use arm_multisig_application.Constrain.Wrap.{constrain_wrap_inflow}
use arm_multisig_application.Constrain.Wrap.Quantity.{
  with_quantity, constrain_wrap_inflow-any_quantity,
}
use arm_multisig_application.Contracts.Agreement.{Allowed}
use arm_multisig_application.Contracts.Decode.Transfers.{parse_multisig_call_input-decode_transfer}
use arm_multisig_application.Contracts.Decode.Deposits.{parse_wrap_call_input-decode_deposit}
use arm_multisig_application.Contracts.RoundTrip.{Pays, transfer_blobs-Runs}
use arm_multisig_application.Fixtures.Transfers.{transfer_blobs}
use arm_multisig_application.Contracts.Decode.{
  decode_address, decode_uint, decode_bytes, decode_op, decode_transfer, decode_deposit,
}
use arm_multisig_application.Contracts.Erc20.{Moves}
use arm_multisig_application.Contracts.Settlement.{
  Runs, constrain_multisig_consumed-Runs, constrain_wrap_inflow-Moves,
}
use arm_multisig_application.Examples.Toy.{toy, toy-IsLawful, toy_hash, toy_commitment, toy_tag}
use arm_multisig_application.Examples.Consumed.{vault, nullifier, build}
use arm_multisig_application.Examples.Notes.{depositor, wrap_input, deposit, deposit_accepted}
use arm_multisig_application.Examples.Tokens.{
  moved, move, tokens, tokens-IsStandard, idle, idle-Spares,
}
use arm_multisig_application.Fixtures.{
  pad, encode_call, encode_input, encode_external_transfer, expected_true,
}
use arm_multisig_application.Guest.{multisig_forwarder, wrap_forwarder}
use arm_multisig_application.Journal.{LogicInstance, encode}
use arm_multisig_application.Journal.Layout.{layout, FitsAll}
use arm_multisig_application.Machine.{slice, as_usize}
use arm_multisig_application.Abi.Returns.{Readable}
use arm_multisig_application.Constrain.Decides.{constrain_multisig_consumed-decides}
use arm_multisig_application.Constrain.Consumed.Refusal.{Refused}
use arm_multisig_application.Constrain.Errors.{CircuitError}
use arm_multisig_application.Constrain.Consumed.Spec.{Authorized}
use arm_multisig_application.Constrain.Consumed.Refinement.{constrain_sound}
use arm_multisig_application.Contracts.LogicJournal
use arm_multisig_application.Contracts.LogicJournal.Agreement.{encode-LogicJournal}
use arm_multisig_application.Examples.Payout.{
  adapter, logic, msf, wrapper, payee, at_first, after_deposit, after_payout, deposited,
  payout_input, paid, payout_data, payout_draft, payout, payout_accepted, payout_blob,
  payout_blob-IsCalldata, payout_input-IsCalldata, wrap_input-IsCalldata, deposit_blob-IsCalldata,
  payout_call, payout_parsed, payout_decoded_call, deposit_decoded_call,
}

payout-Runs :
    Runs tokens idle msf adapter logic payout_data.external_payload after_deposit after_payout
payout-Runs = Runs.forwarded payout_call payout_decoded_call refl paid Runs.done

constrain_multisig_consumed-Runs_example :
    (after_deposit vault.token_addr multisig_forwarder + (0 + 70)
      ≤ after_payout vault.token_addr multisig_forwarder + 100)
    × (Allowed adapter logic adapter logic ⊎ (0 + 70 ≡ 100))
constrain_multisig_consumed-Runs_example =
    constrain_multisig_consumed-Runs toy toy-IsLawful tokens build adapter logic idle payout msf
      payout_accepted (tokens-IsStandard vault.token_addr) (payout_blob-IsCalldata, tt)
      (idle-Spares vault.token_addr multisig_forwarder) payout-Runs

constrain_wrap_inflow-Moves_example :
    (wrap_forwarder ≡ wrap_forwarder)
    × Allowed adapter logic adapter logic
    × Moves tokens vault.token_addr depositor multisig_forwarder 50 at_first after_deposit
constrain_wrap_inflow-Moves_example =
    constrain_wrap_inflow-Moves toy toy-IsLawful tokens build adapter logic deposit wrapper
      deposit_accepted (tokens-IsStandard vault.token_addr) refl deposit_blob-IsCalldata
      deposit_decoded_call deposited

payout_decoded :
    decode_transfer payout_input
    ≡ ok (record { token = vault.token_addr; to = payee; amount = 30; expected = expected_true })
unfolding decode_transfer decode_address decode_uint decode_bytes slice u256_be to_be from_be_bytes
    bytes_eq encode_input pad
payout_decoded = refl

parse_multisig_call_input-decode_transfer_example :
    (parse_multisig_call_input build payout_input
      ≡ ok (record {
        token = vault.token_addr;
        recipient = payee;
        amount = 30;
        expected = expected_true;
      }))
    ↔ (30 < 2 ^ 128)
parse_multisig_call_input-decode_transfer_example =
    parse_multisig_call_input-decode_transfer build payout_input payout_input-IsCalldata.bytes
      payout_input-IsCalldata.short payout_decoded

wrap_decoded :
    decode_deposit wrap_input
    ≡ ok (record {
      op = 0;
      token = vault.token_addr;
      from = depositor;
      amount = 50;
      expected = expected_true;
    })
unfolding decode_deposit decode_address decode_uint decode_bytes decode_op slice u256_be to_be
    from_be_bytes bytes_eq
wrap_decoded = refl

parse_wrap_call_input-decode_deposit_example :
    (parse_wrap_call_input build wrap_input
      ≡ ok (record {
        op = 0;
        token = vault.token_addr;
        from = depositor;
        amount = 50;
        expected = expected_true;
      }))
    ↔ (50 < 2 ^ 128)
parse_wrap_call_input-decode_deposit_example =
    parse_wrap_call_input-decode_deposit build wrap_input wrap_input-IsCalldata.bytes
      wrap_input-IsCalldata.short wrap_decoded

moved_out : move after_deposit vault.token_addr multisig_forwarder payee 30 ≡ some after_payout
unfolding move moved after_payout after_deposit at_first bytes_eq
moved_out = refl

transfer_blobs-Runs_example :
    Runs tokens idle msf adapter logic
      (transfer_blobs multisig_forwarder vault.token_addr
        (record { recipient = payee; amount = 30 } ∷ []))
      after_deposit
      after_payout
transfer_blobs-Runs_example =
    transfer_blobs-Runs tokens idle msf vault.token_addr
      (record { recipient = payee; amount = 30 } ∷ []) refl refl ((refl, omega arith), tt)
      (Pays.pay moved_out Pays.done)

deposit_tag :
    toy_tag (with_quantity toy 1 deposit).resource true deposit.nf_key
    ≡ some (
        toy_hash
          (to_be 32 (toy_commitment (with_quantity toy 1 deposit).resource) ++ deposit.nf_key))
unfolding toy_tag
deposit_tag = refl

constrain_wrap_inflow-any_quantity_example :
    constrain_wrap_inflow toy build (with_quantity toy 1 deposit) wrap_forwarder
    ≡ ok (
        layout (record {
          tag = to_be 32 (
              toy_hash (
                to_be 32 (toy_commitment (with_quantity toy 1 deposit).resource)
                ++ deposit.nf_key));
          is_consumed = true;
          action_tree_root = to_be 32 777;
          app_data = deposit.app_data;
        }))
constrain_wrap_inflow-any_quantity_example =
    constrain_wrap_inflow-any_quantity toy build deposit wrap_forwarder 1 toy-IsLawful
      deposit_accepted deposit_tag

-- The one call of the payout has its offsets at 96, 320 and 128.
payout_input_offset : read_word build payout_blob 32 ≡ ok 96
unfolding read_word read_uint256 slice encode_external_transfer encode_call encode_input u256_be
    to_be from_be_bytes pad bytes_eq
payout_input_offset = refl

payout_expected_offset : read_word build payout_blob 64 ≡ ok 320
unfolding read_word read_uint256 slice encode_external_transfer encode_call encode_input u256_be
    to_be from_be_bytes pad bytes_eq
payout_expected_offset = refl

payout_inner_offset : read_word build payout_input 96 ≡ ok 128
unfolding read_word read_uint256 slice encode_input u256_be to_be from_be_bytes pad bytes_eq
payout_inner_offset = refl

small : (at offset : ℕ) → at < 1000 → at ≡ offset → as_usize build offset + 32 < 2 ^ 64
unfolding as_usize
small at offset h e = omega arith

payout_blob-Readable : Readable build payout_blob
payout_blob-Readable = record {
  input_offset = λ offset h. small 96 offset (omega arith) (ok_unique payout_input_offset h);
  expected_offset = λ offset h. small 320 offset (omega arith) (ok_unique payout_expected_offset h);
  inner = λ parsed read offset h.
      let same : payout_call ≡ parsed = ok_unique payout_parsed read in
      small 128 offset (omega arith) (
        ok_unique payout_inner_offset
          (subst (λ c. read_word build c.input 96 ≡ ok offset) (sym same) h));
}

constrain_multisig_consumed-decides_example :
    ((j : Bytes) × (constrain_multisig_consumed toy build payout multisig_forwarder ≡ ok j)
      × Authorized toy build payout multisig_forwarder j)
    ⊎ ((e : CircuitError) × (constrain_multisig_consumed toy build payout multisig_forwarder
          ≡ err e)
        × Refused toy build payout multisig_forwarder e)
constrain_multisig_consumed-decides_example =
    constrain_multisig_consumed-decides toy build payout multisig_forwarder toy-IsLawful
      (omega arith)
      (constrain_sound toy toy-IsLawful build payout multisig_forwarder payout_accepted).sealed.fits
      (omega arith) (payout_blob-Readable, tt)

-- The instance of the payout's journal.
abbrev payout_instance : LogicInstance
payout_instance = instance_of toy payout_draft nullifier

-- 0x01020304 comes out with its lowest byte first.
little_endian : LogicJournal.packed_length 0x01020304 ≡ 4 ∷ 3 ∷ 2 ∷ 1 ∷ []
unfolding LogicJournal.packed_length to_be
little_endian = refl

encode-LogicJournal_example :
    (encode {E = Unit {0}} payout_instance ≡ ok (LogicJournal.encode payout_instance))
    ↔ FitsAll payout_data
encode-LogicJournal_example = encode-LogicJournal {E = Unit {0}} payout_instance
