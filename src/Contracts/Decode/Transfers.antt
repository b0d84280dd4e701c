-- ===== src/Contracts/Decode/Transfers.antt =====
-- The calls of the two forwarders, as Solidity and as `constrain.rs` read them.
use arm_multisig_application.Base.{
  refl, ◌^◌, ◌<◌, ◌≡◌, ◌↔◌, ◌∙◌, ap, ok, ok_unique, >>=-eq-ok, reject_if-bind, length, ltb, All,
  arith,
}
use arm_multisig_application.Base.Bytes.{Bytes, IsByte}
use arm_multisig_application.Abi.{
  MultisigInput, read_word, read_address, read_bytes, parse_multisig_call_input,
}
use arm_multisig_application.Contracts.Decode.{
  TransferCall, decode_address, decode_uint, decode_bytes, decode_transfer,
}
use arm_multisig_application.Contracts.Decode.Agreement.{
  read_address-decode_address, read_word-decode_uint, decode_uint-read_word,
  read_bytes-decode_bytes, decode_bytes-near,
}
use arm_multisig_application.Machine.{Build, as_usize}

-- The input of a multisig forwarder call that Solidity reads as `d`.
abbrev pub multisig_input : TransferCall → MultisigInput
multisig_input d = record {
  token = d.token;
  recipient = d.to;
  amount = d.amount;
  expected = d.expected;
}

module _ (b : Build) (input : Bytes) where
  parse_transfer :
      {d : TransferCall}
      → length input < 2 ^ 32
      → decode_transfer input ≡ ok d
      → d.amount < 2 ^ 128
      → parse_multisig_call_input b input ≡ ok (multisig_input d)
  unfolding decode_transfer parse_multisig_call_input
  parse_transfer {d} room h small =
      let (long, h₁) = reject_if-bind (ltb (length input) 128) _ _ h in
      let (token, t, h₂) = >>=-eq-ok (decode_address input 0) _ h₁ in
      let (to, r, h₃) = >>=-eq-ok (decode_address input 32) _ h₂ in
      let (amount, a, h₄) = >>=-eq-ok (decode_uint input 64) _ h₃ in
      let (offset, o, h₅) = >>=-eq-ok (decode_uint input 96) _ h₄ in
      let (expected, e, h₆) = >>=-eq-ok (decode_bytes input offset) _ h₅ in
      let same = ok_unique refl h₆ in
      let value : amount ≡ d.amount = ap (λ x. x.amount) same in
      rw
        (
          long,
          read_address-decode_address b input 0 t,
          read_address-decode_address b input 32 r,
          read_word-decode_uint b input 64 a (omega arith),
          read_word-decode_uint b input 96 o (omega (arith, decode_bytes-near input offset e)),
          read_bytes-decode_bytes b input offset room e,
        )
        (ap (λ x. ok (multisig_input x)) same)

  parsed_amount :
      {i : MultisigInput}
      → parse_multisig_call_input b input ≡ ok i
      → read_word b input 64 ≡ ok i.amount
  unfolding parse_multisig_call_input
  parsed_amount {i} h =
      let (_, h₁) = reject_if-bind (ltb (length input) 128) _ _ h in
      let (token, _, h₂) = >>=-eq-ok (read_address b input 0) _ h₁ in
      let (to, _, h₃) = >>=-eq-ok (read_address b input 32) _ h₂ in
      let (amount, a, h₄) = >>=-eq-ok (read_word b input 64) _ h₃ in
      let (offset, _, h₅) = >>=-eq-ok (read_word b input 96) _ h₄ in
      let (expected, _, h₆) = >>=-eq-ok (read_bytes b input (as_usize b offset)) _ h₅ in
      a ∙ ap (λ x. ok x.amount) (ok_unique refl h₆)

  transferred_amount :
      {d : TransferCall} → decode_transfer input ≡ ok d → decode_uint input 64 ≡ ok d.amount
  unfolding decode_transfer
  transferred_amount {d} h =
      let (_, h₁) = reject_if-bind (ltb (length input) 128) _ _ h in
      let (token, _, h₂) = >>=-eq-ok (decode_address input 0) _ h₁ in
      let (to, _, h₃) = >>=-eq-ok (decode_address input 32) _ h₂ in
      let (amount, a, h₄) = >>=-eq-ok (decode_uint input 64) _ h₃ in
      let (offset, _, h₅) = >>=-eq-ok (decode_uint input 96) _ h₄ in
      let (expected, _, h₆) = >>=-eq-ok (decode_bytes input offset) _ h₅ in
      a ∙ ap (λ x. ok x.amount) (ok_unique refl h₆)

  -- What both read, they read alike.
  pub transfers_agree :
      {i : MultisigInput} {d : TransferCall}
      → All IsByte input
      → length input < 2 ^ 32
      → parse_multisig_call_input b input ≡ ok i
      → decode_transfer input ≡ ok d
      → i ≡ multisig_input d
  transfers_agree {i} {d} bytes room parsed decoded =
      let (same, small) = decode_uint-read_word b input 64 bytes (parsed_amount parsed) in
      let value : i.amount ≡ d.amount = ok_unique same (transferred_amount decoded) in
      ok_unique parsed (parse_transfer room decoded (omega arith))

  -- On a call of fewer than 2 ^ 32 bytes that Solidity decodes, `parse_multisig_call_input` returns
  -- the same fields exactly where the amount fits 128 bits.
  pub parse_multisig_call_input-decode_transfer :
      {d : TransferCall}
      → All IsByte input
      → length input < 2 ^ 32
      → decode_transfer input ≡ ok d
      → (parse_multisig_call_input b input ≡ ok (multisig_input d)) ↔ (d.amount < 2 ^ 128)
  parse_multisig_call_input-decode_transfer {d} bytes room h = (
    λ k. (decode_uint-read_word b input 64 bytes (parsed_amount k)).1,
    λ small. parse_transfer room h small,
  )
