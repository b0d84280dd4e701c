-- ===== src/Examples/Notes.antt =====
-- New notes, deposits and withdrawals' ephemeral resources, and the theorems on them at these values.
use arm_multisig_application.Base.{
  err, ◌+◌, ◌-◌, ◌^◌, ◌≤◌, panic, ◌≡◌, ◌≢◌, ◌↔◌, refl, true, [], ◌∷◌, ◌++◌, ok, replicate, arith,
}
use arm_multisig_application.Base.Bytes.{Bytes, bytes_eq, bytes_lt}
use arm_multisig_application.Base.Words.{to_be, to_le_bytes, from_be_bytes}
use arm_multisig_application.Abi.{
  parse_external_call, parse_wrap_call_input, read_bytes, read_uint256, read_address, read_word,
}
use arm_multisig_application.Abi.Words.{u256_be}
use arm_multisig_application.Abi.Panics.{read_bytes-panic}
use arm_multisig_application.Constrain.Created.{constrain_multisig_created}
use arm_multisig_application.Constrain.Created.Refinement.{
  Admitted, constrain_multisig_created-Admitted,
}
use arm_multisig_application.Constrain.Errors.{
  created_instance, consumed_instance, digest_to_array, derive_nullifier_key_bytes,
}
use arm_multisig_application.Constrain.Wrap.{constrain_wrap_inflow, check_inflow, check_deposit}
use arm_multisig_application.Constrain.Wrap.Refinement.{
  Paired, Deposit, Nullified, constrain_wrap_inflow-Deposit,
}
use arm_multisig_application.Examples.Toy.{
  toy, toy-IsLawful, toy_sha256, toy_hash, toy_commitment, toy_tag, ToyResource,
}
use arm_multisig_application.Examples.Consumed.{
  vault, note, nf_key, no_payload, build, key_a, key_b, spend, spend_accepted, journal,
}
use arm_multisig_application.Fixtures.{pad, encode_call, expected_true}
use arm_multisig_application.Guest.{multisig_main, wrap_main, wrap_forwarder}
use arm_multisig_application.Guest.Journals.{
  MultisigCommits, WrapCommits, multisig_main-MultisigCommits, wrap_main-WrapCommits,
  multisig_main-consumed_created,
}
use arm_multisig_application.Journal.{AppData, never, encode, encode_payload, encode_blobs}
use arm_multisig_application.Journal.Layout.{layout, FitsAll}
use arm_multisig_application.Label
use arm_multisig_application.Label.{
  LabelPreimage, LabelError, invalid_n, new, label_ref, check_sorted, absorb, pubkey_root_of,
}
use arm_multisig_application.Label.Refusal.{NoLabel, new-NoLabel}
use arm_multisig_application.Label.New.{IsPolicy, constrain_multisig_created-new}
use arm_multisig_application.Machine.{index, checked_add, slice, as_usize, add_usize}
use arm_multisig_application.Witness.{
  MultisigCreatedWitness, WrapInflowWitness, WrapOutflowWitness, consumed, created, inflow,
}

abbrev pub new_note : MultisigCreatedWitness toy
new_note = record {
  action_tree_root = 12345;
  app_data = no_payload;
  resource = note 50 9;
  label_preimage = vault;
}

abbrev note_journal : Bytes
note_journal = layout (created_instance toy (note 50 9) 12345 no_payload)

note_created : constrain_multisig_created toy new_note ≡ ok note_journal
unfolding constrain_multisig_created created_instance encode encode_payload encode_blobs layout
    Label.encode label_ref toy_sha256 toy_hash toy_commitment to_be to_le_bytes bytes_eq
    derive_nullifier_key_bytes digest_to_array
note_created = refl

constrain_multisig_created-Admitted_example :
    (constrain_multisig_created toy new_note ≡ ok note_journal) ↔ Admitted toy new_note note_journal
constrain_multisig_created-Admitted_example =
    constrain_multisig_created-Admitted toy new_note note_journal

vault_made : new toy (replicate 20 17) 1 (key_a ∷ key_b ∷ []) (replicate 32 205) ≡ ok vault
unfolding new pubkey_root_of check_sorted absorb bytes_eq bytes_lt toy_sha256 toy_hash to_be
vault_made = refl

-- No key at all.
nobody_refused : new toy (replicate 20 17) 1 [] (replicate 32 205) ≡ err (invalid_n 0)
unfolding new
nobody_refused = refl

new-NoLabel_example :
    ((label : LabelPreimage)
      → (new toy (replicate 20 17) 1 (key_a ∷ key_b ∷ []) (replicate 32 205) ≡ ok label)
        ↔ IsPolicy toy (replicate 20 17) 1 (key_a ∷ key_b ∷ []) (replicate 32 205) label)
    × ((e : LabelError)
        → (new toy (replicate 20 17) 1 (key_a ∷ key_b ∷ []) (replicate 32 205) ≡ err e)
          ↔ NoLabel 1 (key_a ∷ key_b ∷ []) (replicate 32 205) e)
new-NoLabel_example = new-NoLabel toy (replicate 20 17) 1 (key_a ∷ key_b ∷ []) (replicate 32 205)

pub no_payload-FitsAll : FitsAll no_payload
no_payload-FitsAll = record {
  resource_payload = (omega arith, tt);
  discovery_payload = (omega arith, tt);
  external_payload = (omega arith, tt);
  application_payload = (omega arith, tt);
}

vault_ref : to_be 32 (toy_hash (Label.encode vault)) ≡ label_ref toy vault
unfolding label_ref toy_sha256
vault_ref = refl

constrain_multisig_created-new_example : constrain_multisig_created toy new_note ≡ ok note_journal
constrain_multisig_created-new_example =
    constrain_multisig_created-new toy (replicate 20 17) 1 (key_a ∷ key_b ∷ []) (replicate 32 205)
      new_note vault_made vault_ref no_payload-FitsAll

abbrev pub depositor : Bytes
depositor = replicate 20 51

-- A wrap of 50 units of the vault's token.
abbrev pub wrap_input : Bytes
wrap_input =
    replicate 44 0
    ++ (vault.token_addr
        ++ (replicate 12 0
            ++ (depositor ++ (u256_be 50 ++ (u256_be 160 ++ (u256_be 32 ++ expected_true))))))

abbrev pub wrap_payload : AppData
wrap_payload = record no_payload {
  external_payload =
      record {
        deletion_criterion = never;
        blob = encode_call wrap_forwarder wrap_input expected_true;
      }
      ∷ [];
}

abbrev pub ephemeral : ToyResource
ephemeral = record (note 50 11) { is_ephemeral = true }

abbrev pub deposit : WrapInflowWitness toy
deposit = record {
  action_tree_root = 777;
  app_data = wrap_payload;
  resource = ephemeral;
  nf_key = nf_key;
  paired_vault_label_preimage = vault;
  paired_vault_quantity = 50;
  depositor = depositor;
}

abbrev pub deposit_journal : Bytes
deposit_journal = layout (record {
  tag = to_be 32 (toy_hash (to_be 32 (toy_commitment ephemeral) ++ nf_key));
  is_consumed = true;
  action_tree_root = to_be 32 777;
  app_data = wrap_payload;
})

pub deposit_accepted : constrain_wrap_inflow toy build deposit wrap_forwarder ≡ ok deposit_journal
unfolding constrain_wrap_inflow check_inflow check_deposit parse_external_call parse_wrap_call_input
    read_bytes read_uint256 read_address read_word u256_be pad encode_call slice index as_usize
    add_usize checked_add consumed_instance digest_to_array derive_nullifier_key_bytes Label.encode
    label_ref toy_sha256 toy_hash toy_commitment toy_tag to_be to_le_bytes from_be_bytes bytes_eq
    encode encode_payload encode_blobs layout
deposit_accepted = refl

constrain_wrap_inflow-Deposit_example :
    (constrain_wrap_inflow toy build deposit wrap_forwarder ≡ ok deposit_journal) ↔ (
      Paired toy deposit
      × (Deposit toy build deposit wrap_forwarder × Nullified toy deposit deposit_journal))
constrain_wrap_inflow-Deposit_example =
    constrain_wrap_inflow-Deposit toy build deposit wrap_forwarder deposit_journal toy-IsLawful

abbrev pub withdrawal : WrapOutflowWitness toy
withdrawal = record {
  action_tree_root = 777;
  app_data = no_payload;
  resource = ephemeral;
  label_preimage = vault;
}

multisig_main-MultisigCommits_example :
    (multisig_main {E = Unit {0}} toy build (created new_note) ≡ ok note_journal)
    ↔ MultisigCommits toy build (created new_note) note_journal
multisig_main-MultisigCommits_example =
    multisig_main-MultisigCommits toy build (created new_note) note_journal toy-IsLawful tt

wrap_main-WrapCommits_example :
    (wrap_main {E = Unit {0}} toy build (inflow deposit) ≡ ok deposit_journal)
    ↔ WrapCommits toy build (inflow deposit) deposit_journal
wrap_main-WrapCommits_example =
    wrap_main-WrapCommits toy build (inflow deposit) deposit_journal toy-IsLawful

main_spent : multisig_main {E = Unit {0}} toy build (consumed spend) ≡ ok journal
unfolding multisig_main
main_spent = rw spend_accepted refl

main_created : multisig_main {E = Unit {0}} toy build (created new_note) ≡ ok note_journal
unfolding multisig_main
main_created = rw note_created refl

multisig_main-consumed_created_example : journal ≢ note_journal
multisig_main-consumed_created_example =
    multisig_main-consumed_created {E = Unit {0}} toy build spend new_note toy-IsLawful main_spent
      main_created

read_bytes-panic_example :
    (read_bytes build expected_true (2 ^ 64 - 16) ≡ panic) ↔ (2 ^ 64 ≤ 2 ^ 64 - 16 + 32)
read_bytes-panic_example =
    read_bytes-panic build expected_true (2 ^ 64 - 16) (omega arith) (omega arith)
