-- ===== src/Examples/Reverts.antt =====
-- Calls of the forwarders, executed and reverted, and the theorems on them at these values.
use arm_multisig_application.Base.{◌≡◌, ◌↔◌, refl, ok, err, replicate}
use arm_multisig_application.Base.Bytes.{Bytes, bytes_eq}
use arm_multisig_application.Contracts.Forwarder.{
  Revert, wrong_logic, only_pa, transfer_call, deposit_call,
}
use arm_multisig_application.Contracts.Reverts.Deposits.{
  Deposited, DepositReverts, deposit_call-DepositReverts,
}
use arm_multisig_application.Contracts.Reverts.Transfers.{
  Transferred, TransferReverts, transfer_call-TransferReverts,
}
use arm_multisig_application.Examples.Notes.{wrap_input}
use arm_multisig_application.Examples.Payout.{
  adapter, logic, msf, wrapper, at_first, after_deposit, payout_input,
}
use arm_multisig_application.Examples.Tokens.{Balances, tokens}

-- A logic that the forwarders are not deployed for.
abbrev other_logic : Bytes
other_logic = replicate 32 8

payout_reverts :
    transfer_call tokens msf adapter after_deposit other_logic payout_input
    ≡ err (wrong_logic logic other_logic)
unfolding transfer_call bytes_eq
payout_reverts = refl

transfer_call-TransferReverts_example :
    ((t : Balances) (out : Bytes)
      → (transfer_call tokens msf adapter after_deposit other_logic payout_input ≡ ok (t, out))
        ↔ Transferred tokens adapter other_logic payout_input after_deposit msf t out)
    × ((r : Revert)
        → (transfer_call tokens msf adapter after_deposit other_logic payout_input ≡ err r)
          ↔ TransferReverts tokens adapter other_logic payout_input after_deposit msf r)
transfer_call-TransferReverts_example =
    transfer_call-TransferReverts tokens adapter other_logic payout_input after_deposit msf

-- The deposit is not the adapter's own call.
deposit_reverts : deposit_call tokens wrapper logic at_first logic wrap_input ≡ err only_pa
unfolding deposit_call bytes_eq
deposit_reverts = refl

deposit_call-DepositReverts_example :
    ((t : Balances) (out : Bytes)
      → (deposit_call tokens wrapper adapter at_first logic wrap_input ≡ ok (t, out))
        ↔ Deposited tokens adapter logic wrap_input at_first wrapper t out)
    × ((r : Revert)
        → (deposit_call tokens wrapper adapter at_first logic wrap_input ≡ err r)
          ↔ DepositReverts tokens adapter logic wrap_input at_first wrapper r)
deposit_call-DepositReverts_example =
    deposit_call-DepositReverts tokens adapter logic wrap_input at_first wrapper
