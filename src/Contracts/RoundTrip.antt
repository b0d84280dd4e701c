-- ===== src/Contracts/RoundTrip.antt =====
-- The multisig forwarder executes what the host encodes.
use arm_multisig_application.Base.{
  ℕ, ◌^◌, ◌<◌, ◌≡◌, refl, some, List, All, ◌∷◌, [], ok, length, arith,
}
use arm_multisig_application.Base.Bytes.{Bytes, bytes_eq_refl}
use arm_multisig_application.Contracts.Decode.Encoded.{
  decode_transfer-encode_input, decode_call-encode_call,
}
use arm_multisig_application.Contracts.Erc20.{Erc20}
use arm_multisig_application.Contracts.Forwarder.{MultisigForwarder, transfer_call}
use arm_multisig_application.Contracts.Settlement.{Runs, Others}
use arm_multisig_application.Fixtures.{encode_input, encode_external_transfer, expected_true}
use arm_multisig_application.Fixtures.Transfers.{
  Transfer, IsTransfer, transfer_blobs, length-encode_input,
}

-- A transfer that the host encodes, called by the protocol adapter for the forwarder's logic, does
-- exactly the token's transfer from the forwarder and returns what is expected, where the token
-- does not revert.
pub transfer_call-encode_input :
    (e : Erc20) (f : MultisigForwarder) (s : e.State) {t : e.State} (token to : Bytes) (amount : ℕ)
    (expected : Bytes)
    → length token ≡ 20
    → length to ≡ 20
    → amount < 2 ^ 128
    → length expected < 2 ^ 31
    → e.safe_transfer s token f.this to amount ≡ some t
    → transfer_call e f f.pa s f.wrap_logic_ref (encode_input token to amount expected)
      ≡ ok (t, expected)
unfolding transfer_call
transfer_call-encode_input e f s token to amount expected ht hr ha small moved = rw (
  bytes_eq_refl f.pa,
  bytes_eq_refl f.wrap_logic_ref,
  decode_transfer-encode_input token to amount expected ht hr ha small,
  moved,
)

-- The token's transfers from the forwarder, one after the other; none of them reverts.
pub data Pays (e : Erc20) (f : MultisigForwarder) (token : Bytes)
    : List Transfer → e.State → e.State → Type 0 where
  done : {s : e.State} → Pays e f token [] s s
  pay :
      {s t u : e.State} {r : Transfer} {rest : List Transfer}
      → e.safe_transfer s token f.this r.recipient r.amount ≡ some t
      → Pays e f token rest t u
      → Pays e f token (r ∷ rest) s u

-- The payloads that the host encodes for withdrawals to 20-byte addresses, of 128-bit amounts, decode
-- to calls that, made by the protocol adapter for the forwarder's logic, do exactly the token's
-- transfers from the forwarder, in their order, and return the outputs that the payloads expect,
-- where none of these transfers reverts.
pub transfer_blobs-Runs :
    (e : Erc20) (others : Others e) (f : MultisigForwarder) (token : Bytes) (ts : List Transfer)
    {s t : e.State}
    → length f.this ≡ 20
    → length token ≡ 20
    → All IsTransfer ts
    → Pays e f token ts s t
    → Runs e others f f.pa f.wrap_logic_ref (transfer_blobs f.this token ts) s t
unfolding encode_external_transfer
transfer_blobs-Runs e others f token [] hf ht h Pays.done = Runs.done
transfer_blobs-Runs e others f token (r ∷ ts) {s} hf ht ((hr, ha), hs) (Pays.pay moved paid) =
    let input = encode_input token r.recipient r.amount expected_true in
    let size = length-encode_input token r.recipient r.amount ht hr in
    Runs.forwarded (record { forwarder = f.this; input = input; expected = expected_true })
      (decode_call-encode_call f.this input expected_true hf (omega arith)) refl
      (transfer_call-encode_input e f s token r.recipient r.amount expected_true ht hr ha
        (omega arith) moved)
      (transfer_blobs-Runs e others f token ts hf ht hs paid)
