-- ===== src/Contracts/Calldata.antt =====
-- Calldata, and the call inside an external payload.
use arm_multisig_application.Base.{
  ◌-◌, ◌^◌, ◌<◌, ◌≡◌, ◌∙◌, ap, sym, subst, ok, ok_unique, refl, >>=-eq-ok, reject_if-bind, some_or,
  length, length-take, length-drop, drop, ltb, All, ℕ, arith,
}
use arm_multisig_application.Base.Bytes.{Bytes, IsByte}
use arm_multisig_application.Abi.{
  ParsedExternalCall, read_uint256, read_bytes, read_word, read_address, parse_external_call,
}
use arm_multisig_application.Abi.Words.{slice-eq-ok, All-take, All-drop}
use arm_multisig_application.Machine.{Build, as_usize, add_usize, slice, checked_add, usize_mod}

-- Calldata that fits the guest's memory.
pub record IsCalldata (input : Bytes) : Type 0 where
  pub bytes : All IsByte input
  pub short : length input < 2 ^ 32

slice-IsCalldata :
    {E : Type 0} (xs : Bytes) (start end : ℕ) {ys : Bytes}
    → IsCalldata xs
    → slice {E = E} xs start end ≡ ok ys
    → IsCalldata ys
slice-IsCalldata xs start end {ys} fine h =
    let (part, _, _) = slice-eq-ok xs start end h in
    let size = ap length part ∙ length-take (end - start) (drop start xs) in
    record {
      bytes =
          subst (All IsByte) (sym part)
            (All-take (end - start) (drop start xs) (All-drop start xs fine.bytes));
      short = omega (arith, fine.short, length-drop start xs, size);
    }

module _ (b : Build) (blob : Bytes) (fine : IsCalldata blob) where
  read_bytes-IsCalldata :
      (offset : ℕ) {part : Bytes} → read_bytes b blob offset ≡ ok part → IsCalldata part
  unfolding read_bytes
  read_bytes-IsCalldata offset h =
      let (start, _, h₁) = >>=-eq-ok (add_usize b offset 32) _ h in
      let (_, h₂) = reject_if-bind (ltb (length blob) start) _ _ h₁ in
      let (word, _, h₃) = >>=-eq-ok (slice blob offset start) _ h₂ in
      let (len, _, h₄) = >>=-eq-ok (read_uint256 word) _ h₃ in
      let (end, _, h₅) =
        >>=-eq-ok (some_or (checked_add (usize_mod b.target) start (as_usize b len)) _) _ h₄ in
      let (_, h₆) = reject_if-bind (ltb (length blob) end) _ _ h₅ in
      slice-IsCalldata blob start end fine h₆

  pub parse_external_call-IsCalldata :
      {parsed : ParsedExternalCall}
      → parse_external_call b blob ≡ ok parsed
      → IsCalldata parsed.input
  unfolding parse_external_call
  parse_external_call-IsCalldata h =
      let (_, h₁) = reject_if-bind (ltb (length blob) 96) _ _ h in
      let (forwarder, _, h₂) = >>=-eq-ok (read_address b blob 0) _ h₁ in
      let (input_off, _, h₃) = >>=-eq-ok (read_word b blob 32) _ h₂ in
      let (expected_off, _, h₄) = >>=-eq-ok (read_word b blob 64) _ h₃ in
      let (input, read, h₅) = >>=-eq-ok (read_bytes b blob (as_usize b input_off)) _ h₄ in
      let (expected, _, h₆) = >>=-eq-ok (read_bytes b blob (as_usize b expected_off)) _ h₅ in
      subst IsCalldata (ap (λ c. c.input) (ok_unique refl h₆))
        (read_bytes-IsCalldata (as_usize b input_off) read)
