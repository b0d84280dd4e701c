-- ===== src/Examples/Builds.antt =====
-- The circuit on two builds: the payout of Examples/Payout, and a call that they read differently.
use arm_multisig_application.Base.{
  ℕ, ◌+◌, ◌^◌, ◌<◌, ◌≡◌, refl, sym, subst, false, ◌++◌, ok, err, ok_unique, replicate, arith,
}
use arm_multisig_application.Base.Bytes.{Bytes, bytes_eq}
use arm_multisig_application.Base.Words.{to_be, from_be_bytes}
use arm_multisig_application.Abi.{
  parse_external_call, read_bytes, read_uint256, read_address, read_word,
}
use arm_multisig_application.Abi.Exact.{exact_word, exact_call, PartFits}
use arm_multisig_application.Abi.Words.{u256_be}
use arm_multisig_application.Constrain.Consumed.{constrain_multisig_consumed}
use arm_multisig_application.Constrain.Consumed.Builds.{
  TransferFits, constrain_multisig_consumed-any_build,
}
use arm_multisig_application.Examples.Consumed.{build, vault}
use arm_multisig_application.Examples.Payout.{payout, payout_blob, payout_input, payout_call}
use arm_multisig_application.Examples.Toy.{toy}
use arm_multisig_application.Fixtures.{
  pad, encode_call, encode_input, encode_external_transfer, expected_true,
}
use arm_multisig_application.Guest.{multisig_forwarder}
use arm_multisig_application.Machine.{Build, guest, slice, as_usize, add_usize, checked_add}

-- The guest's build of the circuit.
abbrev guest_build : Build
guest_build = record { target = guest; overflow_checks = false }

-- A part's offset and length, as they are read.
part_fits :
    (blob : Bytes) (at offset len : ℕ)
    → exact_word blob at ≡ ok offset
    → exact_word blob offset ≡ ok len
    → offset + 32 < 2 ^ 32
    → len < 2 ^ 32
    → PartFits blob at
part_fits blob at offset len h k fits small o e =
    let same : offset ≡ o = ok_unique h e in
    (
      omega arith,
      λ n read. omega (arith, ok_unique k (subst (λ i. exact_word blob i ≡ ok n) (sym same) read)),
    )

payout_exact : exact_call payout_blob ≡ ok payout_call
unfolding read_uint256 slice encode_external_transfer encode_call encode_input u256_be to_be
    from_be_bytes pad bytes_eq
payout_exact = refl

payout_fits : TransferFits multisig_forwarder payout_blob
unfolding read_uint256 slice encode_external_transfer encode_call encode_input u256_be to_be
    from_be_bytes pad bytes_eq
payout_fits = record {
  outer = record {
    size = omega arith;
    input = part_fits payout_blob 32 96 192 refl refl (omega arith) (omega arith);
    expected = part_fits payout_blob 64 320 32 refl refl (omega arith) (omega arith);
  };
  inner = λ parsed read to.
      subst (λ c. PartFits c.input 96) (ok_unique payout_exact read)
        (part_fits payout_input 96 128 32 refl refl (omega arith) (omega arith));
}

constrain_multisig_consumed-any_build_example :
    constrain_multisig_consumed toy guest_build payout multisig_forwarder
    ≡ constrain_multisig_consumed toy build payout multisig_forwarder
constrain_multisig_consumed-any_build_example =
    constrain_multisig_consumed-any_build toy guest_build build payout multisig_forwarder
      (payout_fits, tt)

-- A call whose input's offset is 2 ^ 32 + 96.
abbrev far_blob : Bytes
far_blob =
    replicate 12 0
    ++ vault.token_addr
    ++ (u256_be (2 ^ 32 + 96)
        ++ (u256_be 160 ++ (u256_be 32 ++ (expected_true ++ (u256_be 32 ++ expected_true)))))

-- The guest drops the offset's upper part and reads the call.
far_blob_guest :
    parse_external_call guest_build far_blob
    ≡ ok (record { forwarder = vault.token_addr; input = expected_true; expected = expected_true })
unfolding parse_external_call read_bytes read_uint256 read_address read_word u256_be pad slice
    as_usize add_usize checked_add from_be_bytes to_be bytes_eq
far_blob_guest = refl

-- The host refuses it.
far_blob_host : parse_external_call build far_blob ≡ err tt
unfolding parse_external_call read_bytes read_uint256 read_address read_word u256_be pad slice
    as_usize add_usize checked_add from_be_bytes to_be bytes_eq
far_blob_host = refl
