-- ===== src/Contracts/Decode.antt =====
-- `abi.decode` on calldata, as Solidity from 0.8 on does it: every word is checked, and a call that
-- does not fit its types reverts (`err tt`).
pub mod Agreement
pub mod Calls
pub mod Encoded
pub mod Transfers
pub mod Deposits
use arm_multisig_application.Base.{
  ℕ, ◌+◌, ◌^◌, not, Outcome, ok, ◌>>=◌, ◌>>◌, reject_if, length, replicate, ltb, leb,
}
use arm_multisig_application.Base.Bytes.{Bytes, bytes_eq}
use arm_multisig_application.Base.Words.{from_be_bytes}
use arm_multisig_application.Abi.{Parse, ParsedExternalCall}
use arm_multisig_application.Machine.{slice}

-- `address`: the 12 upper bytes are zero.
unfoldable pub decode_address : Bytes → ℕ → Parse Bytes
decode_address blob at = do
  padding ← slice blob at (at + 12)
  reject_if (not (bytes_eq padding (replicate 12 0))) tt
  slice blob (at + 12) (at + 32)

-- `uint256`
unfoldable pub decode_uint : Bytes → ℕ → Parse ℕ
decode_uint blob at = do word ← slice blob at (at + 32); ok (from_be_bytes word)

-- `bytes`, whose length word stands at `offset`
unfoldable pub decode_bytes : Bytes → ℕ → Parse Bytes
decode_bytes blob offset = do
  reject_if (leb (2 ^ 64) offset) tt
  reject_if (leb (length blob) (offset + 31)) tt
  len ← decode_uint blob offset
  reject_if (leb (2 ^ 64) len) tt
  reject_if (ltb (length blob) (offset + 32 + len)) tt
  slice blob (offset + 32) (offset + 32 + len)

-- An `enum` of one member.
unfoldable pub decode_op : Bytes → ℕ → Parse ℕ
decode_op blob at = do op ← decode_uint blob at; reject_if (leb 1 op) tt; ok op

pub record TransferCall : Type 0 where
  pub token : Bytes
  pub to : Bytes
  pub amount : ℕ
  pub expected : Bytes

pub record DepositCall : Type 0 where
  pub op : ℕ
  pub token : Bytes
  pub from : Bytes
  pub amount : ℕ
  pub expected : Bytes

-- `abi.decode(input, (address, address, uint256, bytes))`
unfoldable pub decode_transfer : Bytes → Parse TransferCall
decode_transfer input = do
  reject_if (ltb (length input) 128) tt
  token ← decode_address input 0
  to ← decode_address input 32
  amount ← decode_uint input 64
  offset ← decode_uint input 96
  expected ← decode_bytes input offset
  ok (record { token = token; to = to; amount = amount; expected = expected })

-- `abi.decode(input, (Op, address, address, uint256, bytes))`
unfoldable pub decode_deposit : Bytes → Parse DepositCall
decode_deposit input = do
  reject_if (ltb (length input) 160) tt
  op ← decode_op input 0
  token ← decode_address input 32
  from ← decode_address input 64
  amount ← decode_uint input 96
  offset ← decode_uint input 128
  expected ← decode_bytes input offset
  ok (record { op = op; token = token; from = from; amount = amount; expected = expected })

-- `abi.decode(blob, (address, bytes, bytes))`, as `SPEC.md` documents the external call of a payload:
-- the forwarder, the input and the output that is expected of it.
unfoldable pub decode_call : Bytes → Parse ParsedExternalCall
decode_call blob = do
  reject_if (ltb (length blob) 96) tt
  forwarder ← decode_address blob 0
  input_off ← decode_uint blob 32
  expected_off ← decode_uint blob 64
  input ← decode_bytes blob input_off
  expected ← decode_bytes blob expected_off
  ok (record { forwarder = forwarder; input = input; expected = expected })
