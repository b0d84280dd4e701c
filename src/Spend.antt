-- ===== src/Spend.antt =====
-- `spend.rs` of multisig-core: the message that K of N signers sign.
pub mod Message
pub mod Injective
pub mod Multiset
use arm_multisig_application.Base.{
  ℕ, Bool, true, false, List, [], ◌∷◌, ◌++◌, Outcome, ok, ◌>>=◌, length, if◌then◌else◌,
}
use arm_multisig_application.Base.Bytes.{Bytes, bytes_lt}
use arm_multisig_application.Base.Words.{to_le_bytes}
use arm_multisig_application.Journal.{expect_u32}
use arm_multisig_application.Label.{absorb}
use arm_multisig_application.Platform.{Platform}
use arm_multisig_application.Sig.{k_domain_sep}

-- `commitments.sort()`: equal byte arrays are the same, so any sorting algorithm gives this result.
unfoldable pub insert : Bytes → List Bytes → List Bytes
insert x [] = x ∷ []
insert x (y ∷ ys) = if bytes_lt y x then y ∷ insert x ys else x ∷ y ∷ ys

unfoldable pub sort : List Bytes → List Bytes
unfolding insert
sort [] = []
sort (x ∷ xs) = insert x (sort xs)

-- `RecipientCommitments`, which only `new` makes.
pub record RecipientCommitments : Type 0 where
  pub commitments : List Bytes

-- `RecipientCommitments::new`
unfoldable pub new : List Bytes → RecipientCommitments
new commitments = record { commitments = sort commitments }

-- `RecipientCommitments::len` and `is_empty`
abbrev pub len : RecipientCommitments → ℕ
len recipients = length recipients.commitments

unfoldable pub is_empty : RecipientCommitments → Bool
is_empty recipients = elim recipients.commitments [ [] ↦ true | c ∷ cs ↦ false ]

-- What the hasher of `spend_message` has taken in at the end.
unfoldable pub spend_preimage : {E : Type 0} → Bytes → RecipientCommitments → Outcome E Bytes
spend_preimage consumed_journal_digest recipients = do
  n ← expect_u32 (len recipients)
  ok (absorb (k_domain_sep ++ (consumed_journal_digest ++ to_le_bytes n)) recipients.commitments)

unfoldable pub spend_message :
    {E : Type 0} → Platform → Bytes → RecipientCommitments → Outcome E Bytes
spend_message p consumed_journal_digest recipients = do
  taken ← spend_preimage consumed_journal_digest recipients
  ok (p.sha256 taken)
