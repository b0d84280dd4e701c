-- ===== src/Guest/Aborts.antt =====
-- When the guests abort: `main` calls `expect` on the branch's result.
use arm_multisig_application.Base.{◌^◌, ◌<◌, ◌≡◌, ◌≢◌, ◌↔◌, refl, ok, err, panic, length, All}
use arm_multisig_application.Abi.Returns.{Readable, DepositReadable}
use arm_multisig_application.Constrain.Consumed.Refusal.{Refused}
use arm_multisig_application.Constrain.Consumed.Refusal.Branch.{constrain_multisig_consumed-Refused}
use arm_multisig_application.Constrain.Consumed.Total.{constrain_multisig_consumed_returns}
use arm_multisig_application.Constrain.Created.Refusal.{
  NoteRefused, constrain_multisig_created-NoteRefused,
}
use arm_multisig_application.Constrain.Errors.{Circuit, CircuitError}
use arm_multisig_application.Constrain.Returns.{
  constrain_multisig_created_returns, constrain_wrap_inflow_returns, constrain_wrap_outflow_returns,
}
use arm_multisig_application.Constrain.Wrap.Refusal.{InflowRefused, OutflowRefused}
use arm_multisig_application.Constrain.Wrap.Refusal.Branches.{
  constrain_wrap_inflow-InflowRefused, constrain_wrap_outflow-OutflowRefused,
}
use arm_multisig_application.Guest.{
  multisig_main, wrap_main, multisig_forwarder, wrap_forwarder, expect,
}
use arm_multisig_application.Journal.Layout.{FitsAll}
use arm_multisig_application.Machine.{Build, u128_mod}
use arm_multisig_application.Platform.{Platform, IsLawful}
use arm_multisig_application.Witness.{
  MultisigBranchWitness, consumed, created, MultisigConsumedWitness, WrapBranchWitness, inflow,
  outflow,
}

-- `expect` panics exactly where the branch returns an error, if the branch itself does not panic,
-- and thus where one of the branch's rules holds.
expect-rules :
    {E A : Type 0} (P : CircuitError → Type 0) (m : Circuit A)
    → m ≢ panic
    → ((e : CircuitError) → (m ≡ err e) ↔ P e)
    → (expect {E = E} m ≡ panic) ↔ ((e : CircuitError) × P e)
expect-rules P (ok a) h rule = (λ k. cc k, λ (e, r). cc ((rule e).1 r))
expect-rules P (err e) h rule = (λ k. (e, (rule e).0 refl), λ r. refl)
expect-rules P panic h rule = absurd (h refl)

-- The error that a branch of the multisig guest returns, by its rules.
abbrev pub MultisigRefuses :
    (p : Platform) → Build → MultisigBranchWitness p → CircuitError → Type 0
MultisigRefuses p b (consumed w) e = Refused p b w multisig_forwarder e
MultisigRefuses p b (created w) e = NoteRefused p w e

-- A spend whose quantity fits 128 bits, whose lengths fit 32 bits, and whose offsets are not at the end of `usize`.
pub record SpendFits (p : Platform) (b : Build) (w : MultisigConsumedWitness p) : Type 0 where
  pub quantity : w.resource.quantity < u128_mod
  pub app_data : FitsAll w.app_data
  pub recipients : length w.recipient_resources < 2 ^ 32
  pub calls : All (λ blob. Readable b blob.blob) w.app_data.external_payload

abbrev pub MultisigFits : (p : Platform) → Build → MultisigBranchWitness p → Type 0
MultisigFits p b (consumed w) = SpendFits p b w
MultisigFits p b (created w) = FitsAll w.app_data

-- On a lawful platform, the multisig guest aborts exactly where its witness is refused by a rule of
-- its branch, for a spend where the quantity fits 128 bits, all lengths fit 32 bits and no offset of a call is
-- among the last 32 values of `usize`, and for a new note where all lengths fit 32 bits.
pub multisig_main-MultisigRefuses :
    {E : Type 0} (p : Platform) (b : Build) (w : MultisigBranchWitness p)
    → IsLawful p
    → MultisigFits p b w
    → (multisig_main {E = E} p b w ≡ panic) ↔ ((e : CircuitError) × MultisigRefuses p b w e)
unfolding multisig_main
multisig_main-MultisigRefuses {E} p b (consumed w) law fits =
    expect-rules {E = E} (Refused p b w multisig_forwarder) _
      (constrain_multisig_consumed_returns p b w multisig_forwarder law fits.app_data
        fits.recipients fits.calls)
      (λ e. constrain_multisig_consumed-Refused p b w multisig_forwarder e law fits.quantity)
multisig_main-MultisigRefuses {E} p b (created w) law fits =
    expect-rules {E = E} (NoteRefused p w) _ (constrain_multisig_created_returns p w fits)
      (constrain_multisig_created-NoteRefused p w)

-- The same for the wrap guest.
abbrev pub WrapRefuses : (p : Platform) → Build → WrapBranchWitness p → CircuitError → Type 0
WrapRefuses p b (inflow w) e = InflowRefused p b w wrap_forwarder e
WrapRefuses p b (outflow w) e = OutflowRefused p w e

abbrev pub WrapFits : (p : Platform) → Build → WrapBranchWitness p → Type 0
WrapFits p b (inflow w) =
    FitsAll w.app_data × All (λ blob. DepositReadable b blob.blob) w.app_data.external_payload
WrapFits p b (outflow w) = FitsAll w.app_data

-- On a lawful platform, the wrap guest aborts exactly where its witness is refused by a rule of its
-- branch, where all lengths fit 32 bits and no offset of a deposit's call is among the last 32
-- values of `usize`.
pub wrap_main-WrapRefuses :
    {E : Type 0} (p : Platform) (b : Build) (w : WrapBranchWitness p)
    → IsLawful p
    → WrapFits p b w
    → (wrap_main {E = E} p b w ≡ panic) ↔ ((e : CircuitError) × WrapRefuses p b w e)
unfolding wrap_main
wrap_main-WrapRefuses {E} p b (inflow w) law (fits, calls) =
    expect-rules {E = E} (InflowRefused p b w wrap_forwarder) _
      (constrain_wrap_inflow_returns p b w wrap_forwarder fits calls)
      (λ e. constrain_wrap_inflow-InflowRefused p b w wrap_forwarder e law)
wrap_main-WrapRefuses {E} p b (outflow w) law fits =
    expect-rules {E = E} (OutflowRefused p w) _ (constrain_wrap_outflow_returns p w fits)
      (constrain_wrap_outflow-OutflowRefused p w)
