-- ===== src/Fixtures.antt =====
-- `host/src/fixtures.rs`: the calls and spends that the host makes.
pub mod RoundTrip
pub mod Signer
pub mod Signing
pub mod Accepted
pub mod Transfers
pub mod Vault
pub mod Deterministic
pub mod Builders
pub mod Hybrid
use arm_multisig_application.Base.{
  ℕ, ◌+◌, ◌-◌, ◌%◌, not, [], ◌∷◌, ◌++◌, length, replicate, ◌==◌, if◌then◌else◌,
}
use arm_multisig_application.Base.Bytes.{Bytes}
use arm_multisig_application.Abi.Words.{u256_be}

-- Zeros up to a whole number of words.
unfoldable pub pad : Bytes → Bytes
pad v = let rem = length v % 32 in if not (rem == 0) then v ++ replicate (32 - rem) 0 else v

-- `abi.encode(true)`
abbrev pub expected_true : Bytes
expected_true = replicate 31 0 ++ 1 ∷ []

-- `abi.encode(address token, address to, uint256 amount, bytes expected)`
unfoldable pub encode_input : Bytes → Bytes → ℕ → Bytes → Bytes
encode_input token recipient amount expected =
    replicate 12 0
    ++ (token
        ++ (replicate 12 0
            ++ (recipient
                ++ (u256_be amount
                    ++ (u256_be 128 ++ (u256_be (length expected) ++ pad expected))))))

-- `abi.encode(address forwarder, bytes input, bytes expected)`
unfoldable pub encode_call : Bytes → Bytes → Bytes → Bytes
encode_call forwarder input expected =
    replicate 12 0
    ++ (forwarder
        ++ (u256_be 96
            ++ (u256_be (96 + 32 + length (pad input))
                ++ (u256_be (length input)
                    ++ (pad input ++ (u256_be (length expected) ++ pad expected))))))

unfoldable pub encode_external_transfer : Bytes → Bytes → Bytes → ℕ → Bytes
encode_external_transfer forwarder token recipient amount =
    encode_call forwarder (encode_input token recipient amount expected_true) expected_true
