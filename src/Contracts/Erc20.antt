-- ===== src/Contracts/Erc20.antt =====
-- What the forwarders use of a token contract: OpenZeppelin's `SafeERC20` on an `IERC20`.
use arm_multisig_application.Base.{ℕ, ◌+◌, ◌≡◌, ◌≢◌, Option, some}
use arm_multisig_application.Base.Bytes.{Bytes}

-- The state of all token contracts, and the two calls, which change it or revert. Tokens and
-- holders are addresses; `caller` is `msg.sender` of the token's code.
pub record Erc20 : Type 1 where
  pub State : Type 0
  pub balance_of : State → Bytes → Bytes → ℕ
  pub safe_transfer : State → (token caller to : Bytes) → ℕ → Option State
  pub safe_transfer_from : State → (token caller from to : Bytes) → ℕ → Option State

-- `amount` of `token` goes from `from` to `to`, and every other balance of the token stays.
pub record Moves (e : Erc20) (token from to : Bytes) (amount : ℕ) (s t : e.State) : Type 0 where
  pub pays : from ≢ to → e.balance_of t token from + amount ≡ e.balance_of s token from
  pub receives : from ≢ to → e.balance_of t token to ≡ e.balance_of s token to + amount
  pub to_itself : from ≡ to → e.balance_of t token from ≡ e.balance_of s token from
  pub others :
      (holder : Bytes)
      → holder ≢ from
      → holder ≢ to
      → e.balance_of t token holder ≡ e.balance_of s token holder

-- `token` moves what it is asked to, as EIP-20 has it.
pub record IsStandard (e : Erc20) (token : Bytes) : Type 0 where
  pub transfer :
      (s t : e.State) (caller to : Bytes) (amount : ℕ)
      → e.safe_transfer s token caller to amount ≡ some t
      → Moves e token caller to amount s t
  pub transfer_from :
      (s t : e.State) (caller from to : Bytes) (amount : ℕ)
      → e.safe_transfer_from s token caller from to amount ≡ some t
      → Moves e token from to amount s t
