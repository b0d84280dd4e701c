-- ===== src/Examples/Totals.antt =====
-- The deposit of Examples/Notes, whose offsets the circuit reads without a panic.
use arm_multisig_application.Base.{
  err, ◌⊎◌, ℕ, ◌+◌, ◌^◌, ◌<◌, ◌≡◌, refl, sym, subst, ok, ok_unique, arith,
}
use arm_multisig_application.Base.Bytes.{Bytes, bytes_eq}
use arm_multisig_application.Base.Words.{to_be, from_be_bytes}
use arm_multisig_application.Abi.{read_uint256, read_word}
use arm_multisig_application.Abi.Returns.{DepositReadable}
use arm_multisig_application.Abi.Words.{u256_be}
use arm_multisig_application.Constrain.Decides.{constrain_wrap_inflow-decides}
use arm_multisig_application.Constrain.Wrap.Refusal.{InflowRefused}
use arm_multisig_application.Constrain.Errors.{CircuitError}
use arm_multisig_application.Constrain.Wrap.{constrain_wrap_inflow}
use arm_multisig_application.Constrain.Wrap.Refinement.{
  Paired, Deposit, Nullified, constrain_wrap_inflow-Deposit,
}
use arm_multisig_application.Examples.Consumed.{build}
use arm_multisig_application.Examples.Notes.{deposit, deposit_journal, deposit_accepted, wrap_input}
use arm_multisig_application.Examples.Payout.{deposit_blob, wrap_call, wrap_parsed}
use arm_multisig_application.Examples.Toy.{toy, toy-IsLawful}
use arm_multisig_application.Fixtures.{pad, encode_call}
use arm_multisig_application.Guest.{wrap_forwarder}
use arm_multisig_application.Machine.{slice, as_usize}

-- The deposit's one call has its offsets at 96, 352 and 160.
deposit_input_offset : read_word build deposit_blob 32 ≡ ok 96
unfolding read_word read_uint256 slice encode_call u256_be to_be from_be_bytes pad bytes_eq
deposit_input_offset = refl

deposit_expected_offset : read_word build deposit_blob 64 ≡ ok 352
unfolding read_word read_uint256 slice encode_call u256_be to_be from_be_bytes pad bytes_eq
deposit_expected_offset = refl

deposit_inner_offset : read_word build wrap_input 128 ≡ ok 160
unfolding read_word read_uint256 slice u256_be to_be from_be_bytes bytes_eq
deposit_inner_offset = refl

small : (at offset : ℕ) → at < 1000 → at ≡ offset → as_usize build offset + 32 < 2 ^ 64
unfolding as_usize
small at offset h e = omega arith

deposit_blob-DepositReadable : DepositReadable build deposit_blob
deposit_blob-DepositReadable = record {
  input_offset = λ offset h. small 96 offset (omega arith) (ok_unique deposit_input_offset h);
  expected_offset =
      λ offset h. small 352 offset (omega arith) (ok_unique deposit_expected_offset h);
  inner = λ parsed read offset h.
      let same : wrap_call ≡ parsed = ok_unique wrap_parsed read in
      small 160 offset (omega arith) (
        ok_unique deposit_inner_offset
          (subst (λ c. read_word build c.input 128 ≡ ok offset) (sym same) h));
}

constrain_wrap_inflow-decides_example :
    ((journal : Bytes) × (constrain_wrap_inflow toy build deposit wrap_forwarder ≡ ok journal)
      × (Paired toy deposit
          × (Deposit toy build deposit wrap_forwarder × Nullified toy deposit journal)))
    ⊎ ((e : CircuitError) × (constrain_wrap_inflow toy build deposit wrap_forwarder ≡ err e)
        × InflowRefused toy build deposit wrap_forwarder e)
constrain_wrap_inflow-decides_example =
    constrain_wrap_inflow-decides toy build deposit wrap_forwarder toy-IsLawful
      ((constrain_wrap_inflow-Deposit toy build deposit wrap_forwarder deposit_journal
          toy-IsLawful).0
        deposit_accepted).1.1.fits
      (deposit_blob-DepositReadable, tt)
