-- ===== src/Contracts/Decode/Encoded.antt =====
-- Solidity decodes what `host/src/fixtures.rs` encodes.
use arm_multisig_application.Base.{
  ℕ, ◌+◌, ◌*◌, ◌^◌, ◌<◌, ◌≡◌, ◌∙◌, refl, ap, subst, [], ◌++◌, ok, length, length-append, replicate,
  ltb, leb, false, arith,
}
use arm_multisig_application.Base.Bytes.{Bytes, bytes_eq_refl}
use arm_multisig_application.Base.Words.{
  to_be, from_be_bytes, from_be_bytes-append, from_be_bytes-zeros, from_be_bytes-to_be,
}
use arm_multisig_application.Abi.Words.{u256_be, length-u256_be, slice-middle}
use arm_multisig_application.Contracts.Decode.{
  decode_address, decode_uint, decode_bytes, decode_transfer, decode_call,
}
use arm_multisig_application.Fixtures.{pad, encode_call, encode_input}
use arm_multisig_application.Fixtures.RoundTrip.{pad-tail, HasRest, past, last, long_enough}
use mathlib.Core.List.{append_assoc}

from_be_bytes-u256_be : (v : ℕ) → v < 2 ^ 128 → from_be_bytes (u256_be v) ≡ v
unfolding u256_be
from_be_bytes-u256_be v h =
    from_be_bytes-append (replicate 16 0) (to_be 16 v)
    ∙ omega (
      arith,
      from_be_bytes-zeros,
      from_be_bytes-to_be 16 v h,
      ap (λ z. z * 256 ^ length (to_be 16 v)) from_be_bytes-zeros,
    )

decode_address-at :
    {blob : Bytes} {n : ℕ} (address behind : Bytes)
    → HasRest blob n (replicate 12 0 ++ (address ++ behind))
    → length address ≡ 20
    → (decode_address blob n ≡ ok address) × HasRest blob (n + 32) behind
unfolding decode_address
decode_address-at {blob} {n} address behind a h =
    let p = past (replicate 12 0) (address ++ behind) 12 a refl in
    (
      rw (
        slice-middle blob a.before (replicate 12 0) (address ++ behind) n (n + 12) a.split a.size
            refl,
        bytes_eq_refl (replicate 12 0),
        slice-middle blob p.before address behind (n + 12) (n + 32) p.split p.size (omega arith),
      ),
      (let sum : n + 12 + 20 ≡ n + 32 = omega arith in
          subst (λ k. HasRest blob k behind) sum (past address behind 20 p h)),
    )

decode_uint-at :
    {blob : Bytes} {n : ℕ} (v : ℕ) (behind : Bytes)
    → HasRest blob n (u256_be v ++ behind)
    → v < 2 ^ 128
    → (decode_uint blob n ≡ ok v) × HasRest blob (n + 32) behind
unfolding decode_uint
decode_uint-at {blob} {n} v behind a h = (
  rw (
    slice-middle blob a.before (u256_be v) behind n (n + 32) a.split a.size
        (omega (arith, length-u256_be v)),
    from_be_bytes-u256_be v h,
  ),
  past (u256_be v) behind 32 a (length-u256_be v),
)

decode_bytes-at :
    {blob : Bytes} (n : ℕ) (v behind : Bytes)
    → HasRest blob n (u256_be (length v) ++ (pad v ++ behind))
    → n + 32 + length v < 2 ^ 32
    → decode_bytes blob n ≡ ok v
unfolding decode_bytes
decode_bytes-at {blob} n v behind a h =
    let (zeros, e, _) = pad-tail v in
    let (len, rest) = decode_uint-at (length v) (pad v ++ behind) a (omega arith) in
    let apart : pad v ++ behind ≡ v ++ (zeros ++ behind) =
      ap (λ bs. bs ++ behind) e ∙ append_assoc v zeros behind in
    let split = rest.split ∙ ap (λ bs. rest.before ++ bs) apart in
    let size : length blob ≡ n + 32 + (length v + length (zeros ++ behind)) =
      ap length split
      ∙ omega (
        arith,
        length-append rest.before (v ++ (zeros ++ behind)),
        length-append v (zeros ++ behind),
        rest.size,
      ) in
    let near : leb (2 ^ 64) n ≡ false = ground arith in
    let word : leb (length blob) (n + 31) ≡ false = ground arith in
    let small : leb (2 ^ 64) (length v) ≡ false = ground arith in
    let inside : ltb (length blob) (n + 32 + length v) ≡ false = ground arith in
    rw (near, word, len, small, inside)
      (slice-middle blob rest.before v (zeros ++ behind) (n + 32) (n + 32 + length v) split
        rest.size refl)

-- Solidity decodes the input of a transfer that the host encodes.
pub decode_transfer-encode_input :
    (token to : Bytes) (amount : ℕ) (expected : Bytes)
    → length token ≡ 20
    → length to ≡ 20
    → amount < 2 ^ 128
    → length expected < 2 ^ 31
    → decode_transfer (encode_input token to amount expected)
      ≡ ok (record { token = token; to = to; amount = amount; expected = expected })
unfolding decode_transfer
decode_transfer-encode_input token to amount expected ht hr ha small =
    let r3 : Bytes = u256_be (length expected) ++ pad expected in
    let r2 : Bytes = u256_be amount ++ (u256_be 128 ++ r3) in
    let input : Bytes = encode_input token to amount expected in
    let start : HasRest input 0 (replicate 12 0 ++ (token ++ (replicate 12 0 ++ (to ++ r2)))) =
      unfold encode_input in record { before = []; split = refl; size = refl } in
    let (first, p₁) = decode_address-at token (replicate 12 0 ++ (to ++ r2)) start ht in
    let (second, p₂) = decode_address-at to r2 p₁ hr in
    let (third, p₃) = decode_uint-at amount (u256_be 128 ++ r3) p₂ ha in
    let (fourth, p₄) = decode_uint-at 128 r3 p₃ (omega arith) in
    let fifth =
      decode_bytes-at 128 expected [] (last (u256_be (length expected)) (pad expected) p₄)
        (omega arith) in
    rw (long_enough 128 p₄, first, second, third, fourth, fifth)

-- Solidity decodes a call that the host encodes to its three parts.
pub decode_call-encode_call :
    (forwarder input expected : Bytes)
    → length forwarder ≡ 20
    → length input + length expected < 2 ^ 31
    → decode_call (encode_call forwarder input expected)
      ≡ ok (record { forwarder = forwarder; input = input; expected = expected })
unfolding decode_call
decode_call-encode_call forwarder input expected hf small =
    let (zi, ei, ni) = pad-tail input in
    let off : ℕ = 96 + 32 + length (pad input) in
    let padded : length (pad input) ≡ length input + length zi =
      ap length ei ∙ length-append input zi in
    let r3 : Bytes = u256_be (length expected) ++ pad expected in
    let r2 : Bytes = u256_be (length input) ++ (pad input ++ r3) in
    let blob : Bytes = encode_call forwarder input expected in
    let start : HasRest blob 0
        (replicate 12 0 ++ (forwarder ++ (u256_be 96 ++ (u256_be off ++ r2)))) =
      unfold encode_call in record { before = []; split = refl; size = refl } in
    let (first, p₁) = decode_address-at forwarder (u256_be 96 ++ (u256_be off ++ r2)) start hf in
    let (second, p₂) = decode_uint-at 96 (u256_be off ++ r2) p₁ (omega arith) in
    let (third, p₃) = decode_uint-at off r2 p₂ (omega arith) in
    let fourth = decode_bytes-at 96 input r3 p₃ (omega arith) in
    let p₄ =
      past (pad input) r3 (length (pad input))
        (past (u256_be (length input)) (pad input ++ r3) 32 p₃ (length-u256_be (length input)))
        refl in
    let fifth =
      decode_bytes-at off expected [] (last (u256_be (length expected)) (pad expected) p₄)
        (omega arith) in
    rw (long_enough 96 p₃, first, second, third, fourth, fifth)
