-- ===== src/Contracts/Settlement.antt =====
-- What the forwarders do with the calls of a spend or a deposit that its circuit accepted.
use arm_multisig_application.Base.{
  ℕ, ◌+◌, ◌≤◌, ◌≡◌, ◌≢◌, ◌⊎◌, inl, inr, refl, ◌∙◌, sym, ap, subst, List, [], ◌∷◌, ok, ok_unique,
  All, arith, Bool-cases,
}
use arm_multisig_application.Base.Bytes.{Bytes, bytes_eq, bytes_eq→eq, bytes_eq→ne}
use arm_multisig_application.Abi.{
  ParsedExternalCall, parse_external_call, parse_multisig_call_input, parse_wrap_call_input,
}
use arm_multisig_application.Constrain.Consumed.{constrain_multisig_consumed}
use arm_multisig_application.Constrain.Consumed.Spec.{Withdraws, total_quantity}
use arm_multisig_application.Constrain.Consumed.Refinement.{constrain_sound}
use arm_multisig_application.Constrain.Wrap.{constrain_wrap_inflow}
use arm_multisig_application.Constrain.Wrap.Refinement.{constrain_wrap_inflow-Deposit}
use arm_multisig_application.Contracts.Agreement.{Allowed, transfer_call-parse, deposit_call-parse}
use arm_multisig_application.Contracts.Calldata.{IsCalldata, parse_external_call-IsCalldata}
use arm_multisig_application.Contracts.Decode.{decode_call}
use arm_multisig_application.Contracts.Decode.Calls.{parse_external_call-decode_call}
use arm_multisig_application.Contracts.Erc20.{Erc20, Moves, IsStandard}
use arm_multisig_application.Contracts.Forwarder.{
  MultisigForwarder, WrapForwarder, transfer_call, deposit_call,
}
use arm_multisig_application.Journal.{ExpirableBlob}
use arm_multisig_application.Machine.{Build}
use arm_multisig_application.Platform.{Platform, IsLawful}
use arm_multisig_application.Witness.{MultisigConsumedWitness, WrapInflowWitness}

-- What other contracts may do for a call: the target, the carrier's logic reference, the input, and
-- the states before and after it with the output.
abbrev pub Others : Erc20 → Type 1
Others e = Bytes → Bytes → Bytes → e.State → e.State → Bytes → Type 0

-- Calls of other contracts do not lower the multisig forwarder's balance, as it grants no allowance.
abbrev pub Spares : (e : Erc20) → Others e → (token this : Bytes) → Type 0
Spares e others token this =
    (target logic_ref input : Bytes) (s t : e.State) (out : Bytes)
    → target ≢ this
    → others target logic_ref input s t out
    → e.balance_of s token this ≤ e.balance_of t token this

-- The protocol adapter makes the calls of a payload in their order, for one logic. It decodes each
-- blob as `abi.encode(address, bytes, bytes)` and goes on only where the call returns the output
-- that the blob expects; otherwise everything reverts.
pub data Runs (e : Erc20) (others : Others e) (f : MultisigForwarder) (sender logic_ref : Bytes)
    : List ExpirableBlob → e.State → e.State → Type 0 where
  done : {s : e.State} → Runs e others f sender logic_ref [] s s
  elsewhere :
      {blob : ExpirableBlob} {blobs : List ExpirableBlob} {s t u : e.State}
      → (call : ParsedExternalCall) → decode_call blob.blob ≡ ok call
      → call.forwarder ≢ f.this
      → others call.forwarder logic_ref call.input s t call.expected
      → Runs e others f sender logic_ref blobs t u
      → Runs e others f sender logic_ref (blob ∷ blobs) s u
  forwarded :
      {blob : ExpirableBlob} {blobs : List ExpirableBlob} {s t u : e.State}
      → (call : ParsedExternalCall) → decode_call blob.blob ≡ ok call
      → call.forwarder ≡ f.this
      → transfer_call e f sender s logic_ref call.input ≡ ok (t, call.expected)
      → Runs e others f sender logic_ref blobs t u
      → Runs e others f sender logic_ref (blob ∷ blobs) s u

module _ (e : Erc20) (b : Build) (token sender logic_ref : Bytes) (std : IsStandard e token) where
  -- A transfer takes at most its amount.
  Moves-le :
      {from to : Bytes} {amount : ℕ} {s t : e.State}
      → Moves e token from to amount s t
      → e.balance_of s token from ≤ e.balance_of t token from + amount
  Moves-le {from} {to} m = elim (Bool-cases (bytes_eq from to)) [
    | inl same ↦ omega (arith, m.to_itself (bytes_eq→eq from to same))
    | inr apart ↦ omega (arith, m.pays (bytes_eq→ne from to apart))
  ]

  -- The calls take at most what the circuit counts, and nothing unless they are allowed.
  Runs-Withdraws :
      (others : Others e) (f : MultisigForwarder) {blobs : List ExpirableBlob} {s u : e.State}
      {total : ℕ}
      → Withdraws b f.this token blobs total
      → Runs e others f sender logic_ref blobs s u
      → All (λ blob. IsCalldata blob.blob) blobs
      → Spares e others token f.this
      → (e.balance_of s token f.this ≤ e.balance_of u token f.this + total)
        × (Allowed f.pa f.wrap_logic_ref sender logic_ref ⊎ (total ≡ 0))
  Runs-Withdraws others f Withdraws.done Runs.done fine spares = (omega arith, inr refl)
  Runs-Withdraws others f (Withdraws.other p₁ r₁ ne ws)
        (Runs.elsewhere {blob} {s = s} {t = t} p₂ r₂ ne' other runs) (here, fine) spares =
      let kept = spares p₂.forwarder logic_ref p₂.input s t p₂.expected ne' other in
      let (rest, allowed) = Runs-Withdraws others f ws runs fine spares in
      (omega (arith, kept, rest), allowed)
  Runs-Withdraws others f (Withdraws.other p₁ r₁ ne ws) (Runs.forwarded {blob} p₂ r₂ same call runs)
        (here, fine) spares =
      let read = parse_external_call-decode_call b blob.blob here.short r₂ in
      absurd (ne (ap (λ c. c.forwarder) (ok_unique r₁ read) ∙ same))
  Runs-Withdraws others f (Withdraws.call p₁ inner r₁ same got tok sum ws)
        (Runs.elsewhere {blob} p₂ r₂ ne other runs) (here, fine) spares =
      let read = parse_external_call-decode_call b blob.blob here.short r₂ in
      absurd (ne (ap (λ c. c.forwarder) (ok_unique read r₁) ∙ same))
  Runs-Withdraws others f (Withdraws.call p₁ inner r₁ same got tok sum ws)
        (Runs.forwarded {blob} {s = s} {t = t} p₂ r₂ same' call runs) (here, fine) spares =
      let read = parse_external_call-decode_call b blob.blob here.short r₂ in
      let here' = parse_external_call-IsCalldata b blob.blob here read in
      let input =
        subst (λ c. parse_multisig_call_input b c.input ≡ ok inner) (ok_unique r₁ read) got in
      let (allowed, moved, _) =
        transfer_call-parse e b sender logic_ref p₂.input s f here' input call in
      let moves : Moves e token f.this inner.recipient inner.amount s t =
        std.transfer s t f.this inner.recipient inner.amount (rw tok at moved) in
      let (rest, _) = Runs-Withdraws others f ws runs fine spares in
      (omega (arith, sum, Moves-le moves, rest), inl allowed)

module _ (p : Platform) (law : IsLawful p) (e : Erc20) (b : Build) (sender logic_ref : Bytes) where
  -- The calls of an accepted spend, decoded and run in order by the protocol adapter, take from the
  -- multisig forwarder at most the spent note's quantity less the change and the recipients,
  -- if the vault's token moves what it is asked to, every payload is calldata that fits the guest's
  -- memory, and calls of other contracts do not lower the forwarder's balance. Unless the adapter
  -- runs them for the forwarder's logic reference, nothing is withdrawn: the change and the
  -- recipients are all that is spent.
  pub constrain_multisig_consumed-Runs :
      (others : Others e) (w : MultisigConsumedWitness p) (f : MultisigForwarder) {journal : Bytes}
      {s u : e.State}
      → constrain_multisig_consumed p b w f.this ≡ ok journal
      → IsStandard e w.label_preimage.token_addr
      → All (λ blob. IsCalldata blob.blob) w.app_data.external_payload
      → Spares e others w.label_preimage.token_addr f.this
      → Runs e others f sender logic_ref w.app_data.external_payload s u
      → (e.balance_of s w.label_preimage.token_addr f.this
            + (total_quantity p w.recipient_resources + w.change_resource.quantity)
          ≤ e.balance_of u w.label_preimage.token_addr f.this + w.resource.quantity)
        × (Allowed f.pa f.wrap_logic_ref sender logic_ref
            ⊎ (total_quantity p w.recipient_resources + w.change_resource.quantity
                ≡ w.resource.quantity))
  constrain_multisig_consumed-Runs others w f accepted std fine spares runs =
      let balanced = (constrain_sound p law b w f.this accepted).balanced in
      let (taken, allowed) =
        Runs-Withdraws e b w.label_preimage.token_addr sender logic_ref std others f
          balanced.withdraws runs fine spares in
      (
        omega (arith, balanced.conserved, taken),
        elim allowed [
          | inl by_adapter ↦ inl by_adapter
          | inr nothing ↦ inr (omega (arith, balanced.conserved, nothing))
        ],
      )

  -- If the payload of an accepted deposit is a blob that `abi.decode` reads as a call, and fits the
  -- guest's memory, that call goes to the wrap forwarder. If it is executed there, it is the
  -- protocol adapter's for the right logic, and exactly the witnessed paired quantity moves from the
  -- depositor to the multisig forwarder, if the vault's token moves what it is asked to.
  pub constrain_wrap_inflow-Moves :
      (w : WrapInflowWitness p) (f : WrapForwarder) {journal out : Bytes} {s t : e.State}
      {blob : ExpirableBlob} {call : ParsedExternalCall}
      → constrain_wrap_inflow p b w f.this ≡ ok journal
      → IsStandard e w.paired_vault_label_preimage.token_addr
      → w.app_data.external_payload ≡ blob ∷ []
      → IsCalldata blob.blob
      → decode_call blob.blob ≡ ok call
      → deposit_call e f sender s logic_ref call.input ≡ ok (t, out)
      → (call.forwarder ≡ f.this)
        × Allowed f.pa f.wrap_logic_ref sender logic_ref
        × Moves e w.paired_vault_label_preimage.token_addr w.depositor f.multisig_forwarder
            w.paired_vault_quantity s t
  constrain_wrap_inflow-Moves w f {journal} {s = s} {t = t} {blob} {call} accepted std only fine
        decoded called =
      let (_, (d, _)) = (constrain_wrap_inflow-Deposit p b w f.this journal law).0 accepted in
      let one : d.blob ∷ [] ≡ blob ∷ [] = sym d.only ∙ only in
      let same : d.blob ≡ blob = cc one in
      let read = parse_external_call-decode_call b blob.blob fine.short decoded in
      let same_call : d.parsed ≡ call =
        ok_unique (ap (λ x. parse_external_call b x.blob) (sym same) ∙ d.call) read in
      let input = subst (λ c. parse_wrap_call_input b c.input ≡ ok d.inner) same_call d.input in
      let (allowed, moved, _) =
        deposit_call-parse e b sender logic_ref call.input s f
          (parse_external_call-IsCalldata b blob.blob fine read) input called in
      (
        ap (λ c. c.forwarder) (sym same_call) ∙ d.to_forwarder,
        allowed,
        std.transfer_from s t f.this w.depositor f.multisig_forwarder w.paired_vault_quantity
            (rw (d.token, d.from, d.amount) at moved),
      )
