-- ===== src/Contracts/Decode/Deposits.antt =====
-- The calls of the wrap forwarder, as Solidity and as `constrain.rs` read them.
use arm_multisig_application.Base.{
  ℕ, ◌^◌, ◌<◌, ◌≡◌, ◌↔◌, ◌∙◌, refl, sym, ap, ok, ok_unique, >>=-eq-ok, reject_if-bind, length,
  replicate, ltb, leb, All, arith, not,
}
use arm_multisig_application.Base.Bytes.{Bytes, IsByte, bytes_eq, bytes_eq_refl}
use arm_multisig_application.Base.Words.{from_be_bytes, from_be_bytes-eq-zero}
use arm_multisig_application.Abi.{
  WrapInput, read_word, read_address, read_bytes, parse_wrap_call_input,
}
use arm_multisig_application.Contracts.Decode.{
  DepositCall, decode_address, decode_uint, decode_bytes, decode_op, decode_deposit,
}
use arm_multisig_application.Contracts.Decode.Agreement.{
  read_address-decode_address, read_word-decode_uint, decode_uint-read_word, decode_uint-eq-ok,
  read_bytes-decode_bytes, decode_bytes-near,
}
use arm_multisig_application.Machine.{Build, as_usize, slice, index}

-- The input of a wrap forwarder call that Solidity reads as `d`.
abbrev pub wrap_input : DepositCall → WrapInput
wrap_input d = record {
  op = d.op;
  token = d.token;
  from = d.from;
  amount = d.amount;
  expected = d.expected;
}

-- A word of value 0 is 32 zeros.
zero_word : (word : Bytes) → length word ≡ 32 → from_be_bytes word ≡ 0 → word ≡ replicate 32 0
zero_word word size h = from_be_bytes-eq-zero word h ∙ ap (λ k. replicate k 0) size

zeros_top : slice {A = ℕ} {E = Unit {0}} (replicate 32 0) 0 31 ≡ ok (replicate 31 0)
unfolding slice
zeros_top = refl

zeros_op : index {A = ℕ} {E = Unit {0}} (replicate 32 0) 31 ≡ ok 0
unfolding index
zeros_op = refl

module _ (b : Build) (input : Bytes) where
  -- The one member of the `enum` is 0, in a word of zeros.
  decode_op-zeros :
      {op : ℕ}
      → decode_op input 0 ≡ ok op
      → (slice {E = Unit {0}} input 0 32 ≡ ok (replicate 32 0)) × (op ≡ 0)
  unfolding decode_op
  decode_op-zeros h =
      let (op, o, h₁) = >>=-eq-ok (decode_uint input 0) _ h in
      let (small, h₂) = reject_if-bind (leb 1 op) _ _ h₁ in
      let (word, cut, size, value) = decode_uint-eq-ok b input 0 o in
      let zero_op : op ≡ 0 = ground arith in
      (cut ∙ ap ok (zero_word word size (value ∙ zero_op)), sym (ok_unique refl h₂) ∙ zero_op)

  parse_deposit :
      {d : DepositCall}
      → length input < 2 ^ 32
      → decode_deposit input ≡ ok d
      → d.amount < 2 ^ 128
      → parse_wrap_call_input b input ≡ ok (wrap_input d)
  unfolding decode_deposit parse_wrap_call_input
  parse_deposit {d} room h small =
      let (long, h₁) = reject_if-bind (ltb (length input) 160) _ _ h in
      let (op, p, h₂) = >>=-eq-ok (decode_op input 0) _ h₁ in
      let (token, t, h₃) = >>=-eq-ok (decode_address input 32) _ h₂ in
      let (from, f, h₄) = >>=-eq-ok (decode_address input 64) _ h₃ in
      let (amount, a, h₅) = >>=-eq-ok (decode_uint input 96) _ h₄ in
      let (offset, o, h₆) = >>=-eq-ok (decode_uint input 128) _ h₅ in
      let (expected, e, h₇) = >>=-eq-ok (decode_bytes input offset) _ h₆ in
      let same = ok_unique refl h₇ in
      let value : amount ≡ d.amount = ap (λ x. x.amount) same in
      let (word, zero_op) = decode_op-zeros p in
      rw
        (
          long,
          word,
          zeros_top,
          bytes_eq_refl (replicate 31 0),
          zeros_op,
          read_address-decode_address b input 32 t,
          read_address-decode_address b input 64 f,
          read_word-decode_uint b input 96 a (omega arith),
          read_word-decode_uint b input 128 o (omega (arith, decode_bytes-near input offset e)),
          read_bytes-decode_bytes b input offset room e,
        )
        (ap
            (λ k. ok (
              wrap_input (record {
                op = k;
                token = token;
                from = from;
                amount = amount;
                expected = expected;
              })))
            (sym zero_op)
          ∙ ap (λ x. ok (wrap_input x)) same)

  parsed_amount :
      {i : WrapInput} → parse_wrap_call_input b input ≡ ok i → read_word b input 96 ≡ ok i.amount
  unfolding parse_wrap_call_input
  parsed_amount {i} h =
      let (_, h₁) = reject_if-bind (ltb (length input) 160) _ _ h in
      let (word, _, h₂) = >>=-eq-ok (slice input 0 32) _ h₁ in
      let (top, _, h₃) = >>=-eq-ok (slice word 0 31) _ h₂ in
      let (_, h₄) = reject_if-bind (not (bytes_eq top (replicate 31 0))) _ _ h₃ in
      let (op, _, h₅) = >>=-eq-ok (index word 31) _ h₄ in
      let (token, _, h₆) = >>=-eq-ok (read_address b input 32) _ h₅ in
      let (from, _, h₇) = >>=-eq-ok (read_address b input 64) _ h₆ in
      let (amount, a, h₈) = >>=-eq-ok (read_word b input 96) _ h₇ in
      let (offset, _, h₉) = >>=-eq-ok (read_word b input 128) _ h₈ in
      let (expected, _, h') = >>=-eq-ok (read_bytes b input (as_usize b offset)) _ h₉ in
      a ∙ ap (λ x. ok x.amount) (ok_unique refl h')

  deposited_amount :
      {d : DepositCall} → decode_deposit input ≡ ok d → decode_uint input 96 ≡ ok d.amount
  unfolding decode_deposit
  deposited_amount {d} h =
      let (_, h₁) = reject_if-bind (ltb (length input) 160) _ _ h in
      let (op, _, h₂) = >>=-eq-ok (decode_op input 0) _ h₁ in
      let (token, _, h₃) = >>=-eq-ok (decode_address input 32) _ h₂ in
      let (from, _, h₄) = >>=-eq-ok (decode_address input 64) _ h₃ in
      let (amount, a, h₅) = >>=-eq-ok (decode_uint input 96) _ h₄ in
      let (offset, _, h₆) = >>=-eq-ok (decode_uint input 128) _ h₅ in
      let (expected, _, h₇) = >>=-eq-ok (decode_bytes input offset) _ h₆ in
      a ∙ ap (λ x. ok x.amount) (ok_unique refl h₇)

  -- What both read, they read alike.
  pub deposits_agree :
      {i : WrapInput} {d : DepositCall}
      → All IsByte input
      → length input < 2 ^ 32
      → parse_wrap_call_input b input ≡ ok i
      → decode_deposit input ≡ ok d
      → i ≡ wrap_input d
  deposits_agree {i} {d} bytes room parsed decoded =
      let (same, small) = decode_uint-read_word b input 96 bytes (parsed_amount parsed) in
      let value : i.amount ≡ d.amount = ok_unique same (deposited_amount decoded) in
      ok_unique parsed (parse_deposit room decoded (omega arith))

  -- On a call of fewer than 2 ^ 32 bytes that Solidity decodes, `parse_wrap_call_input` returns the
  -- same fields exactly where the amount fits 128 bits.
  pub parse_wrap_call_input-decode_deposit :
      {d : DepositCall}
      → All IsByte input
      → length input < 2 ^ 32
      → decode_deposit input ≡ ok d
      → (parse_wrap_call_input b input ≡ ok (wrap_input d)) ↔ (d.amount < 2 ^ 128)
  parse_wrap_call_input-decode_deposit {d} bytes room h = (
    λ k. (decode_uint-read_word b input 96 bytes (parsed_amount k)).1,
    λ small. parse_deposit room h small,
  )
