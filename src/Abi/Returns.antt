-- ===== src/Abi/Returns.antt =====
-- Where the parsers of calls do not panic.
use arm_multisig_application.Base.{
  not, replicate, ℕ, ◌+◌, ◌-◌, ◌≤◌, ◌<◌, ◌≡◌, ◌≢◌, ◌∙◌, ap, ok, panic, >>=_returns,
  reject_if-bind_returns, length, length-take, length-drop, drop, ltb, arith,
}
use arm_multisig_application.Base.Bytes.{Bytes, bytes_eq}
use arm_multisig_application.Abi.{
  ParsedExternalCall, read_word, read_address, read_bytes, parse_external_call,
  parse_multisig_call_input, parse_wrap_call_input,
}
use arm_multisig_application.Abi.Panics.{
  index_returns, slice_returns, read_uint256_returns, read_bytes_returns,
}
use arm_multisig_application.Abi.Words.{slice-eq-ok}
use arm_multisig_application.Machine.{Build, usize_mod, as_usize, slice, index}

-- An offset that is read at `at` is not among the last 32 values of `usize`.
abbrev pub OffsetFits : Build → Bytes → ℕ → Type 0
OffsetFits b blob at =
    (offset : ℕ) → read_word b blob at ≡ ok offset → as_usize b offset + 32 < usize_mod b.target

-- None of the three offsets of a call and its input is.
pub record Readable (b : Build) (blob : Bytes) : Type 0 where
  pub input_offset : OffsetFits b blob 32
  pub expected_offset : OffsetFits b blob 64
  pub inner :
      (parsed : ParsedExternalCall)
      → parse_external_call b blob ≡ ok parsed
      → OffsetFits b parsed.input 96

-- None of the three offsets of a deposit's call and its input is.
pub record DepositReadable (b : Build) (blob : Bytes) : Type 0 where
  pub input_offset : OffsetFits b blob 32
  pub expected_offset : OffsetFits b blob 64
  pub inner :
      (parsed : ParsedExternalCall)
      → parse_external_call b blob ≡ ok parsed
      → OffsetFits b parsed.input 128

-- The operation byte of a 32-byte word is there.
op_byte_returns : (word : Bytes) → length word ≡ 32 → index {E = Unit {0}} word 31 ≢ panic
op_byte_returns word size = index_returns word 31 (omega arith)

module _ (b : Build) (blob : Bytes) where
  read_address_returns : (at : ℕ) → at + 32 ≤ length blob → read_address b blob at ≢ panic
  unfolding read_address
  read_address_returns at h = slice_returns blob (at + 12) (at + 32) (omega arith) h

  read_word_returns : (at : ℕ) → at + 32 ≤ length blob → read_word b blob at ≢ panic
  unfolding read_word
  read_word_returns at h =
      >>=_returns (slice blob at (at + 32)) _ (slice_returns blob at (at + 32) (omega arith) h)
        (λ word cut.
          let (part, _, _) = slice-eq-ok blob at (at + 32) cut in
          read_uint256_returns word (
            ap length part
            ∙ omega (arith, length-take (at + 32 - at) (drop at blob), length-drop at blob)))

  pub parse_external_call_returns :
      OffsetFits b blob 32 → OffsetFits b blob 64 → parse_external_call b blob ≢ panic
  unfolding parse_external_call
  parse_external_call_returns input_fits expected_fits =
      reject_if-bind_returns (ltb (length blob) 96) _ _ (λ short.
        >>=_returns (read_address b blob 0) _ (read_address_returns 0 (ground arith))
          (λ forwarder _.
            >>=_returns (read_word b blob 32) _ (read_word_returns 32 (ground arith)) (λ i at_i.
              >>=_returns (read_word b blob 64) _ (read_word_returns 64 (ground arith)) (λ e at_e.
                >>=_returns (read_bytes b blob (as_usize b i)) _
                  (read_bytes_returns b blob (as_usize b i) (input_fits i at_i))
                  (λ input _.
                    >>=_returns (read_bytes b blob (as_usize b e)) _
                      (read_bytes_returns b blob (as_usize b e) (expected_fits e at_e))
                      (λ expected _ h. cc h))))))

  pub parse_multisig_call_input_returns :
      OffsetFits b blob 96 → parse_multisig_call_input b blob ≢ panic
  unfolding parse_multisig_call_input
  parse_multisig_call_input_returns fits =
      reject_if-bind_returns (ltb (length blob) 128) _ _ (λ short.
        >>=_returns (read_address b blob 0) _ (read_address_returns 0 (ground arith)) (λ token _.
          >>=_returns (read_address b blob 32) _ (read_address_returns 32 (ground arith)) (λ to _.
            >>=_returns (read_word b blob 64) _ (read_word_returns 64 (ground arith)) (λ amount _.
              >>=_returns (read_word b blob 96) _ (read_word_returns 96 (ground arith)) (λ e at_e.
                >>=_returns (read_bytes b blob (as_usize b e)) _
                  (read_bytes_returns b blob (as_usize b e) (fits e at_e))
                  (λ expected _ h. cc h))))))

  pub parse_wrap_call_input_returns : OffsetFits b blob 128 → parse_wrap_call_input b blob ≢ panic
  unfolding parse_wrap_call_input
  parse_wrap_call_input_returns fits = reject_if-bind_returns (ltb (length blob) 160) _ _ (λ short.
      >>=_returns (slice blob 0 32) _ (slice_returns blob 0 32 (omega arith) (ground arith))
        (λ word cut.
          let (part, _, inside) = slice-eq-ok blob 0 32 cut in
          let size : length word ≡ 32 =
            ap length part ∙ omega (arith, length-take 32 (drop 0 blob), length-drop 0 blob) in
          >>=_returns (slice word 0 31) _ (slice_returns word 0 31 (omega arith) (omega arith))
            (λ top _. reject_if-bind_returns (not (bytes_eq top (replicate 31 0))) _ _ (λ _.
              >>=_returns (index word 31) _ (op_byte_returns word size) (λ op _.
                >>=_returns (read_address b blob 32) _ (read_address_returns 32 (ground arith))
                  (λ token _.
                    >>=_returns (read_address b blob 64) _ (read_address_returns 64 (ground arith))
                      (λ from _.
                        >>=_returns (read_word b blob 96) _ (read_word_returns 96 (ground arith))
                          (λ amount _.
                            >>=_returns (read_word b blob 128) _
                              (read_word_returns 128 (ground arith))
                              (λ e at_e.
                                >>=_returns (read_bytes b blob (as_usize b e)) _
                                  (read_bytes_returns b blob (as_usize b e) (fits e at_e))
                                  (λ expected _ h. cc h))))))))))
