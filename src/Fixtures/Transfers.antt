-- ===== src/Fixtures/Transfers.antt =====
-- The circuit counts what the host's encoded transfers move.
use arm_multisig_application.Base.{
  ℕ, ◌+◌, ◌^◌, ◌<◌, ◌≡◌, refl, List, [], ◌∷◌, ok, length, length-append, All, arith,
}
use arm_multisig_application.Base.Bytes.{Bytes}
use arm_multisig_application.Abi.Words.{length-u256_be}
use arm_multisig_application.Constrain.Consumed.{walk_payloads}
use arm_multisig_application.Constrain.Consumed.Spec.{Withdraws}
use arm_multisig_application.Constrain.Consumed.Sums.{walk_payloads_complete}
use arm_multisig_application.Fixtures.{
  encode_call, pad, encode_input, encode_external_transfer, expected_true,
}
use arm_multisig_application.Fixtures.RoundTrip.{
  parse_external_call-encode_call, parse_multisig_call_input-encode_input,
}
use arm_multisig_application.Journal.{ExpirableBlob, never}
use arm_multisig_application.Machine.{Build, u128_mod}
use arm_multisig_application.Platform.{Platform}
use arm_multisig_application.Witness.{MultisigConsumedWitness}

-- What one withdrawal pays, and to whom.
pub record Transfer : Type 0 where
  pub recipient : Bytes
  pub amount : ℕ

-- A 20-byte address, and an amount of 128 bits.
abbrev pub IsTransfer : Transfer → Type 0
IsTransfer t = (length t.recipient ≡ 20) × (t.amount < 2 ^ 128)

-- The payloads of the transfers, as the host's witnesses carry them.
abbrev pub transfer_blobs : Bytes → Bytes → List Transfer → List ExpirableBlob
transfer_blobs forwarder token [] = []
transfer_blobs forwarder token (t ∷ ts) =
    record {
      deletion_criterion = never;
      blob = encode_external_transfer forwarder token t.recipient t.amount;
    }
    ∷ transfer_blobs forwarder token ts

abbrev pub total_amount : List Transfer → ℕ
total_amount [] = 0
total_amount (t ∷ ts) = t.amount + total_amount ts

-- The input of a transfer is 192 bytes long.
pub length-encode_input :
    (token recipient : Bytes) (amount : ℕ)
    → length token ≡ 20
    → length recipient ≡ 20
    → length (encode_input token recipient amount expected_true) ≡ 192
unfolding encode_input pad
length-encode_input token recipient amount ht hr =
    simp (length-append, length-u256_be, ht, hr) (omega arith)

-- A whole number of words is not padded.
pad-whole : (v : Bytes) → length v ≡ 192 → pad v ≡ v
unfolding pad
pad-whole v h = rw h refl

-- An encoded transfer is 384 bytes long.
pub length-encode_external_transfer :
    (forwarder token recipient : Bytes) (amount : ℕ)
    → length forwarder ≡ 20
    → length token ≡ 20
    → length recipient ≡ 20
    → length (encode_external_transfer forwarder token recipient amount) ≡ 384
unfolding encode_external_transfer encode_call
length-encode_external_transfer forwarder token recipient amount hf ht hr =
    let input = encode_input token recipient amount expected_true in
    let size = length-encode_input token recipient amount ht hr in
    let whole : pad input ≡ input = pad-whole input size in
    simp (length-append, length-u256_be, hf, whole, size) (unfold pad in omega arith)

module _ (b : Build) (forwarder token : Bytes) (hf : length forwarder ≡ 20)
    (ht : length token ≡ 20) where
  pub transfer_blobs-Withdraws :
      (ts : List Transfer)
      → All IsTransfer ts
      → Withdraws b forwarder token (transfer_blobs forwarder token ts) (total_amount ts)
  unfolding encode_external_transfer
  transfer_blobs-Withdraws [] h = Withdraws.done
  transfer_blobs-Withdraws (t ∷ ts) ((hr, ha), hs) =
      let input = encode_input token t.recipient t.amount expected_true in
      let size = length-encode_input token t.recipient t.amount ht hr in
      Withdraws.call (record { forwarder = forwarder; input = input; expected = expected_true })
        (record {
          token = token;
          recipient = t.recipient;
          amount = t.amount;
          expected = expected_true;
        })
        (parse_external_call-encode_call b forwarder input expected_true hf (omega arith)) refl
        (parse_multisig_call_input-encode_input b token t.recipient t.amount expected_true ht hr ha
          (omega arith))
        refl refl (transfer_blobs-Withdraws ts hs)

  -- The loop over the payloads that the host encodes for withdrawals of the vault's token returns
  -- the sum of their amounts, where it fits 128 bits, on every target.
  pub walk_payloads-encode_external_transfer :
      (p : Platform) (w : MultisigConsumedWitness p) (recipient_sum : ℕ) (ts : List Transfer)
      → w.label_preimage.token_addr ≡ token
      → All IsTransfer ts
      → total_amount ts < u128_mod
      → walk_payloads p b w forwarder recipient_sum 0 0 (transfer_blobs forwarder token ts)
        ≡ ok (total_amount ts)
  walk_payloads-encode_external_transfer p w recipient_sum ts vault h fits =
      let moved : Withdraws b forwarder w.label_preimage.token_addr
          (transfer_blobs forwarder token ts) (total_amount ts) =
        rw vault (transfer_blobs-Withdraws ts h) in
      walk_payloads_complete p b w forwarder recipient_sum 0 0 (total_amount ts) moved (omega arith)
        fits
