-- ===== src/Examples/Outflow.antt =====
-- An ephemeral resource of one vault, with a payload that withdraws another token.
use arm_multisig_application.Base.{◌≡◌, refl, false, some, List, [], ◌∷◌, ok, replicate, arith}
use arm_multisig_application.Base.Bytes.{Bytes, bytes_eq}
use arm_multisig_application.Base.Words.{to_be}
use arm_multisig_application.Constrain.Wrap.{constrain_wrap_outflow}
use arm_multisig_application.Constrain.Wrap.Refinement.{constrain_wrap_outflow-Ephemeral}
use arm_multisig_application.Contracts.Outflow.{with_payload, constrain_wrap_outflow-any_payload}
use arm_multisig_application.Contracts.RoundTrip.{Pays}
use arm_multisig_application.Contracts.Settlement.{Runs}
use arm_multisig_application.Examples.Notes.{withdrawal, no_payload-FitsAll}
use arm_multisig_application.Examples.Payout.{adapter, logic, msf, payee, at_first}
use arm_multisig_application.Examples.Tokens.{Balances, moved, move, tokens, idle}
use arm_multisig_application.Examples.Toy.{toy, toy_sha256, toy_commitment}
use arm_multisig_application.Fixtures.Transfers.{transfer_blobs}
use arm_multisig_application.Guest.{multisig_forwarder}
use arm_multisig_application.Journal.{ExpirableBlob}
use arm_multisig_application.Journal.Layout.{layout}

-- Not the token of the vault.
abbrev other_token : Bytes
other_token = replicate 20 5

abbrev drained : Balances
drained = moved at_first other_token multisig_forwarder payee 30

moved_other : move at_first other_token multisig_forwarder payee 30 ≡ some drained
unfolding move at_first bytes_eq
moved_other = refl

withdrawal_accepted :
    constrain_wrap_outflow toy withdrawal
    ≡ ok (
        layout (record {
          tag = to_be 32 (toy_commitment withdrawal.resource);
          is_consumed = false;
          action_tree_root = to_be 32 777;
          app_data = withdrawal.app_data;
        }))
unfolding toy_sha256 to_be
withdrawal_accepted = (constrain_wrap_outflow-Ephemeral toy withdrawal _).1 (record {
  ephemeral = refl;
  label_ref = refl;
  fits = no_payload-FitsAll;
  journal_layout = refl;
})

abbrev theft : List ExpirableBlob
theft =
    transfer_blobs multisig_forwarder other_token (record { recipient = payee; amount = 30 } ∷ [])

constrain_wrap_outflow-any_payload_example :
    (constrain_wrap_outflow toy (with_payload toy theft withdrawal)
      ≡ ok (
          layout (record {
            tag = to_be 32 (toy_commitment withdrawal.resource);
            is_consumed = false;
            action_tree_root = to_be 32 777;
            app_data = (with_payload toy theft withdrawal).app_data;
          })))
    × Runs tokens idle msf adapter logic theft at_first drained
constrain_wrap_outflow-any_payload_example =
    constrain_wrap_outflow-any_payload toy withdrawal tokens idle msf other_token
      (record { recipient = payee; amount = 30 } ∷ []) withdrawal_accepted refl refl
      ((refl, omega arith), tt) (omega arith) (Pays.pay moved_other Pays.done)
