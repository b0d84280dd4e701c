-- ===== src/Contracts/Decode/Calls.antt =====
-- The call of an external payload, as `abi.decode` and as `constrain.rs` read it.
use arm_multisig_application.Base.{◌^◌, ◌<◌, ◌≡◌, ok, >>=-eq-ok, reject_if-bind, length, ltb, arith}
use arm_multisig_application.Base.Bytes.{Bytes}
use arm_multisig_application.Abi.{ParsedExternalCall, parse_external_call}
use arm_multisig_application.Contracts.Decode.{
  decode_address, decode_uint, decode_bytes, decode_call,
}
use arm_multisig_application.Contracts.Decode.Agreement.{
  read_address-decode_address, read_word-decode_uint, read_bytes-decode_bytes, decode_bytes-near,
}
use arm_multisig_application.Machine.{Build}

-- A blob of fewer than 2 ^ 32 bytes that Solidity decodes is read alike by `parse_external_call`.
pub parse_external_call-decode_call :
    (b : Build) (blob : Bytes) {call : ParsedExternalCall}
    → length blob < 2 ^ 32
    → decode_call blob ≡ ok call
    → parse_external_call b blob ≡ ok call
unfolding decode_call parse_external_call
parse_external_call-decode_call b blob {call} room h =
    let (long, h₁) = reject_if-bind (ltb (length blob) 96) _ _ h in
    let (forwarder, f, h₂) = >>=-eq-ok (decode_address blob 0) _ h₁ in
    let (input_off, i, h₃) = >>=-eq-ok (decode_uint blob 32) _ h₂ in
    let (expected_off, o, h₄) = >>=-eq-ok (decode_uint blob 64) _ h₃ in
    let (input, d, h₅) = >>=-eq-ok (decode_bytes blob input_off) _ h₄ in
    let (expected, e, h₆) = >>=-eq-ok (decode_bytes blob expected_off) _ h₅ in
    rw
      (
        long,
        read_address-decode_address b blob 0 f,
        read_word-decode_uint b blob 32 i (omega (arith, decode_bytes-near blob input_off d)),
        read_word-decode_uint b blob 64 o (omega (arith, decode_bytes-near blob expected_off e)),
        read_bytes-decode_bytes b blob input_off room d,
        read_bytes-decode_bytes b blob expected_off room e,
      )
      h₆
