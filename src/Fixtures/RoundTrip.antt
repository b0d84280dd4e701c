-- ===== src/Fixtures/RoundTrip.antt =====
-- The parsers of `constrain.rs` read back what the host encodes.
use arm_multisig_application.Base.{
  ℕ, ◌+◌, ◌-◌, ◌%◌, ◌^◌, ◌<◌, ◌≡◌, ◌∙◌, refl, sym, subst, ap, false, [], ◌++◌, ok, length,
  length-append, length-replicate, replicate, ltb, ◌==◌, arith, Bool-cases, inl, inr,
}
use arm_multisig_application.Base.Bytes.{Bytes}
use arm_multisig_application.Abi.{
  read_bytes, read_word, read_address, parse_external_call, parse_multisig_call_input,
}
use arm_multisig_application.Abi.Words.{
  u256_be, length-u256_be, as_usize_fits, usize_mod_bound, read_bytes-middle, read_address-middle,
  read_word-middle,
}
use arm_multisig_application.Fixtures.{pad, encode_call, encode_input}
use arm_multisig_application.Machine.{Build}
use mathlib.Core.List.{append_assoc, append-nil}

-- What `pad` appends: at most 31 zeros.
pub pad-tail : (v : Bytes) → (zeros : Bytes) × (pad v ≡ v ++ zeros) × (length zeros < 32)
unfolding pad
pad-tail v = elim (Bool-cases (length v % 32 == 0)) [
  | inl e ↦ ([], rw e (sym (append-nil v)), omega arith)
  | inr e ↦ (
    replicate (32 - length v % 32) 0,
    rw e refl,
    (let positive : 0 < length v % 32 = ground arith in
        omega (arith, length-replicate {A = ℕ} (32 - length v % 32) 0)),
  )
]

-- The bytes from offset `n` of `blob` on are `rest`.
pub record HasRest (blob : Bytes) (n : ℕ) (rest : Bytes) : Type 0 where
  pub before : Bytes
  pub split : blob ≡ before ++ rest
  pub size : length before ≡ n

pub past :
    {blob : Bytes} {n : ℕ} (m behind : Bytes) (k : ℕ)
    → HasRest blob n (m ++ behind)
    → length m ≡ k
    → HasRest blob (n + k) behind
past m behind k a hk = record {
  before = a.before ++ m;
  split = a.split ∙ sym (append_assoc a.before m behind);
  size = omega (arith, length-append a.before m, a.size);
}

-- The last bytes are those before nothing.
pub last :
    {blob : Bytes} {n : ℕ} (xs ys : Bytes)
    → HasRest blob n (xs ++ ys)
    → HasRest blob n (xs ++ (ys ++ []))
last {blob} {n} xs ys a = subst (λ bs. HasRest blob n (xs ++ bs)) (sym (append-nil ys)) a

pub long_enough : {blob rest : Bytes} (n : ℕ) → HasRest blob n rest → ltb (length blob) n ≡ false
long_enough {blob} {rest} n a =
    let size : length blob ≡ n + length rest =
      ap length a.split ∙ omega (arith, length-append a.before rest, a.size) in
    ground arith

module _ (b : Build) where
  address_at :
      {blob : Bytes} {n : ℕ} (address behind : Bytes)
      → HasRest blob n (replicate 12 0 ++ (address ++ behind))
      → length address ≡ 20
      → (read_address b blob n ≡ ok address) × HasRest blob (n + 32) behind
  address_at {blob} {n} address behind a h = (
    read_address-middle b blob a.before address behind n a.split a.size h,
    record {
      before = a.before ++ (replicate 12 0 ++ address);
      split = a.split ∙ sym (append_assoc a.before (replicate 12 0 ++ address) behind);
      size = omega (arith, length-append a.before (replicate 12 0 ++ address), a.size);
    },
  )

  word_at :
      {blob : Bytes} {n : ℕ} (v : ℕ) (behind : Bytes)
      → HasRest blob n (u256_be v ++ behind)
      → v < 2 ^ 128
      → (read_word b blob n ≡ ok v) × HasRest blob (n + 32) behind
  word_at {blob} {n} v behind a h = (
    read_word-middle b blob a.before behind v n a.split a.size h,
    past (u256_be v) behind 32 a (length-u256_be v),
  )

  -- A length and the padded bytes it counts.
  bytes_at :
      {blob : Bytes} (n : ℕ) (v behind : Bytes)
      → HasRest blob n (u256_be (length v) ++ (pad v ++ behind))
      → n + 32 + length v < 2 ^ 32
      → (read_bytes b blob n ≡ ok v) × HasRest blob (n + 32 + length (pad v)) behind
  bytes_at {blob} n v behind a h =
      let (zeros, e, _) = pad-tail v in
      let apart : pad v ++ behind ≡ v ++ (zeros ++ behind) =
        ap (λ bs. bs ++ behind) e ∙ append_assoc v zeros behind in
      (
        read_bytes-middle b blob a.before v (zeros ++ behind) n
            (a.split ∙ ap (λ bs. a.before ++ (u256_be (length v) ++ bs)) apart) a.size h,
        past (pad v) behind (length (pad v))
            (past (u256_be (length v)) (pad v ++ behind) 32 a (length-u256_be (length v))) refl,
      )

  -- Reading a call that was ABI-encoded gives its three parts, on every target.
  pub parse_external_call-encode_call :
      (forwarder input expected : Bytes)
      → length forwarder ≡ 20
      → length input + length expected < 2 ^ 31
      → parse_external_call b (encode_call forwarder input expected)
        ≡ ok (record { forwarder = forwarder; input = input; expected = expected })
  unfolding parse_external_call
  parse_external_call-encode_call forwarder input expected hf small =
      let (zi, ei, ni) = pad-tail input in
      let room = usize_mod_bound b.target in
      let off : ℕ = 96 + 32 + length (pad input) in
      let padded : length (pad input) ≡ length input + length zi =
        ap length ei ∙ length-append input zi in
      let r3 : Bytes = u256_be (length expected) ++ pad expected in
      let r2 : Bytes = u256_be (length input) ++ (pad input ++ r3) in
      let blob : Bytes = encode_call forwarder input expected in
      let start : HasRest blob 0
          (replicate 12 0 ++ (forwarder ++ (u256_be 96 ++ (u256_be off ++ r2)))) =
        unfold encode_call in record { before = []; split = refl; size = refl } in
      let (first, p₁) = address_at forwarder (u256_be 96 ++ (u256_be off ++ r2)) start hf in
      let (second, p₂) = word_at 96 (u256_be off ++ r2) p₁ (omega arith) in
      let (third, p₃) = word_at off r2 p₂ (omega arith) in
      let (fourth, p₄) = bytes_at 96 input r3 p₃ (omega arith) in
      let (fifth, _) =
        bytes_at off expected [] (last (u256_be (length expected)) (pad expected) p₄)
          (omega arith) in
      rw (
        long_enough 96 p₃,
        first,
        second,
        third,
        as_usize_fits b 96 (omega arith),
        as_usize_fits b off (omega arith),
        fourth,
        fifth,
      )

  -- Reading the input of a forwarder call that was ABI-encoded gives its four parts.
  pub parse_multisig_call_input-encode_input :
      (token recipient : Bytes) (amount : ℕ) (expected : Bytes)
      → length token ≡ 20
      → length recipient ≡ 20
      → amount < 2 ^ 128
      → length expected < 2 ^ 31
      → parse_multisig_call_input b (encode_input token recipient amount expected)
        ≡ ok (record { token = token; recipient = recipient; amount = amount; expected = expected })
  unfolding parse_multisig_call_input
  parse_multisig_call_input-encode_input token recipient amount expected ht hr ha small =
      let room = usize_mod_bound b.target in
      let r3 : Bytes = u256_be (length expected) ++ pad expected in
      let r2 : Bytes = u256_be amount ++ (u256_be 128 ++ r3) in
      let input : Bytes = encode_input token recipient amount expected in
      let start : HasRest input 0
          (replicate 12 0 ++ (token ++ (replicate 12 0 ++ (recipient ++ r2)))) =
        unfold encode_input in record { before = []; split = refl; size = refl } in
      let (first, p₁) = address_at token (replicate 12 0 ++ (recipient ++ r2)) start ht in
      let (second, p₂) = address_at recipient r2 p₁ hr in
      let (third, p₃) = word_at amount (u256_be 128 ++ r3) p₂ ha in
      let (fourth, p₄) = word_at 128 r3 p₃ (omega arith) in
      let (fifth, _) =
        bytes_at 128 expected [] (last (u256_be (length expected)) (pad expected) p₄)
          (omega arith) in
      rw
        (long_enough 128 p₄, first, second, third, fourth, as_usize_fits b 128 (omega arith), fifth)
