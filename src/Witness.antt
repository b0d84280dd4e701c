-- ===== src/Witness.antt =====
-- `witness.rs` of multisig-core: the private inputs of each circuit branch.
use arm_multisig_application.Base.{ℕ, List}
use arm_multisig_application.Base.Bytes.{Bytes}
use arm_multisig_application.Journal.{AppData}
use arm_multisig_application.Label.{LabelPreimage}
use arm_multisig_application.Platform.{Platform, Resource}

-- The resource type of a platform.
abbrev pub ResourceOf : Platform → Type 0
ResourceOf p = Resource p.Digest p.NullifierKeyCommitment

pub record SignerSlot : Type 0 where
  pub idx : ℕ
  pub sig_der : Bytes

pub record MultisigConsumedWitness (p : Platform) : Type 0 where
  pub action_tree_root : p.Digest
  pub app_data : AppData
  pub resource : ResourceOf p
  pub nf_key : p.NullifierKey
  pub label_preimage : LabelPreimage
  pub pubkeys : List Bytes
  pub signatures : List SignerSlot
  pub change_resource : ResourceOf p
  pub recipient_resources : List (ResourceOf p)
  pub action_tags : List p.Digest

pub record MultisigCreatedWitness (p : Platform) : Type 0 where
  pub action_tree_root : p.Digest
  pub app_data : AppData
  pub resource : ResourceOf p
  pub label_preimage : LabelPreimage

pub record WrapInflowWitness (p : Platform) : Type 0 where
  pub action_tree_root : p.Digest
  pub app_data : AppData
  pub resource : ResourceOf p
  pub nf_key : p.NullifierKey
  pub paired_vault_label_preimage : LabelPreimage
  pub paired_vault_quantity : ℕ
  pub depositor : Bytes

pub record WrapOutflowWitness (p : Platform) : Type 0 where
  pub action_tree_root : p.Digest
  pub app_data : AppData
  pub resource : ResourceOf p
  pub label_preimage : LabelPreimage

-- What the `multisig_v1` guest reads.
pub data MultisigBranchWitness (p : Platform) : Type 0 where
  consumed : MultisigConsumedWitness p → MultisigBranchWitness p
  created : MultisigCreatedWitness p → MultisigBranchWitness p

-- What the `wrap_v1` guest reads.
pub data WrapBranchWitness (p : Platform) : Type 0 where
  inflow : WrapInflowWitness p → WrapBranchWitness p
  outflow : WrapOutflowWitness p → WrapBranchWitness p
