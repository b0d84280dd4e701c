-- ===== src/Contracts/Forwarder.antt =====
-- `MultisigForwarder.sol` and `WrapForwarder.sol`: what the protocol adapter calls to move tokens.
use arm_multisig_application.Base.{
  ℕ, not, Outcome, ok, ◌>>=◌, ◌>>◌, reject_if, ok_or, some_or, ◌==◌,
}
use arm_multisig_application.Base.Bytes.{Bytes, bytes_eq}
use arm_multisig_application.Contracts.Decode.{decode_transfer, decode_deposit}
use arm_multisig_application.Contracts.Erc20.{Erc20}

-- Why a call reverts: the contracts' errors, calldata that does not decode, a token that reverts.
pub data Revert : Type 0 where
  only_pa : Revert
  wrong_logic : Bytes → Bytes → Revert
  unsupported_op : ℕ → Revert
  bad_calldata : Revert
  token_reverted : Revert

-- The contract's own address, and what is fixed at its deployment.
pub record MultisigForwarder : Type 0 where
  pub this : Bytes
  pub pa : Bytes
  pub wrap_logic_ref : Bytes

pub record WrapForwarder : Type 0 where
  pub this : Bytes
  pub pa : Bytes
  pub multisig_forwarder : Bytes
  pub wrap_logic_ref : Bytes

-- `Op.WRAP`
abbrev pub op_wrap : ℕ
op_wrap = 0

module _ (e : Erc20) where
  -- `MultisigForwarder.forwardCall`, called by `sender`
  unfoldable pub transfer_call :
      MultisigForwarder
      → (sender : Bytes) → e.State
      → (logic_ref input : Bytes) → Outcome Revert (e.State × Bytes)
  transfer_call f sender s logic_ref input = do
    reject_if (not (bytes_eq sender f.pa)) only_pa
    reject_if (not (bytes_eq logic_ref f.wrap_logic_ref)) (wrong_logic f.wrap_logic_ref logic_ref)
    d ← ok_or (decode_transfer input) bad_calldata
    s ← some_or (e.safe_transfer s d.token f.this d.to d.amount) token_reverted
    ok (s, d.expected)

  -- `WrapForwarder.forwardCall`, called by `sender`
  unfoldable pub deposit_call :
      WrapForwarder
      → (sender : Bytes) → e.State
      → (logic_ref input : Bytes) → Outcome Revert (e.State × Bytes)
  deposit_call f sender s logic_ref input = do
    reject_if (not (bytes_eq sender f.pa)) only_pa
    reject_if (not (bytes_eq logic_ref f.wrap_logic_ref)) (wrong_logic f.wrap_logic_ref logic_ref)
    d ← ok_or (decode_deposit input) bad_calldata
    reject_if (not (d.op == op_wrap)) (unsupported_op d.op)
    s ←
        some_or (e.safe_transfer_from s d.token f.this d.from f.multisig_forwarder d.amount)
          token_reverted
    ok (s, d.expected)
