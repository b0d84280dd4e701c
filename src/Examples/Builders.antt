-- ===== src/Examples/Builders.antt =====
-- A spend between two test vaults on the toy platform that also withdraws, from the host to the chain.
use arm_multisig_application.Base.{
  suc, List, map, ℕ, ◌+◌, ◌%◌, ◌≡◌, ap, some, [], ◌∷◌, ◌++◌, length, replicate,
}
use arm_multisig_application.Base.Bytes.{Bytes}
use arm_multisig_application.Base.Words.{to_be, length-to_be, from_be_bytes}
use arm_multisig_application.Examples.Tokens.{Balances, moved}
use arm_multisig_application.Examples.Payout.{at_first}
use arm_multisig_application.Examples.Toy.{toy, toy_sha256}
use arm_multisig_application.Examples.Signing.{signer}
use arm_multisig_application.Fixtures.Vault.{
  test_recipient, Host, TestVault, test_token, test_multisig_forwarder,
}
use arm_multisig_application.Label
use arm_multisig_application.Label.{LabelPreimage, nullifier_key_domain, absorb}

abbrev Key : Type 0
Key = (key : Bytes) × (length key ≡ 33)

abbrev key_of : Bytes → Key
key_of bs = (2 ∷ to_be 32 (from_be_bytes bs), ap suc (length-to_be 32 (from_be_bytes bs)))

abbrev host : Host toy signer
host = record {
  digest_from_bytes = from_be_bytes;
  digest_default = 0;
  nf_key_from_bytes = λ bs. bs;
  signing_key_from_bytes = λ bs. some (key_of bs);
}

abbrev test_signers : ℕ → List Key
test_signers seed =
    key_of (replicate 30 0 ++ 0 ∷ seed ∷ [])
    ∷ key_of (replicate 30 0 ++ 1 ∷ seed ∷ [])
    ∷ key_of (replicate 30 0 ++ 2 ∷ seed ∷ [])
    ∷ []

abbrev label : ℕ → LabelPreimage
label seed = record {
  token_addr = test_token;
  n = 3;
  k = 2;
  pubkey_root = toy_sha256 (absorb [] (map (λ (k : Key). k.0) (test_signers seed)));
  salt = (seed + 1) % 256 ∷ replicate 31 0;
}

abbrev nf_key : ℕ → Bytes
nf_key seed = toy_sha256 (nullifier_key_domain ++ Label.encode (label seed))

abbrev test_vault : ℕ → TestVault toy signer
test_vault seed = record {
  label = label seed;
  signers = test_signers seed;
  pubkeys = map (λ (k : Key). k.0) (test_signers seed);
  nf_key = nf_key seed;
  nk_commitment = toy_sha256 (nf_key seed);
}

-- The token's state once the test recipient has 25 of the test token.
abbrev after_withdrawal : Balances
after_withdrawal = moved at_first test_token test_multisig_forwarder test_recipient 25
