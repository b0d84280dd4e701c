-- ===== src/Contracts/Agreement.antt =====
-- What a forwarder does for a call is what the circuit read in it.
use arm_multisig_application.Base.{
  ◌≡◌, ◌∙◌, refl, sym, ap, not, some, ok, ok_unique, >>=-eq-ok, reject_if-bind, ok_or, some_or,
  ok_or-eq-ok, some_or-eq-ok, ◌==◌,
}
use arm_multisig_application.Base.Bytes.{Bytes, bytes_eq, not-bytes_eq}
use arm_multisig_application.Abi.{
  MultisigInput, WrapInput, parse_multisig_call_input, parse_wrap_call_input,
}
use arm_multisig_application.Contracts.Calldata.{IsCalldata}
use arm_multisig_application.Contracts.Decode.{decode_transfer, decode_deposit}
use arm_multisig_application.Contracts.Decode.Transfers.{transfers_agree}
use arm_multisig_application.Contracts.Decode.Deposits.{deposits_agree}
use arm_multisig_application.Contracts.Erc20.{Erc20}
use arm_multisig_application.Contracts.Forwarder.{
  MultisigForwarder, WrapForwarder, op_wrap, transfer_call, deposit_call,
}
use arm_multisig_application.Machine.{Build}

-- The protocol adapter made the call, for a resource of the right logic.
pub record Allowed (pa wrap_logic_ref sender logic_ref : Bytes) : Type 0 where
  pub by_pa : sender ≡ pa
  pub logic : logic_ref ≡ wrap_logic_ref

module _ (e : Erc20) (b : Build) (sender logic_ref input : Bytes) (s : e.State) where
  -- A call that the multisig forwarder executes, and whose input the circuit reads as `i`, is one
  -- of the protocol adapter for the right logic, and it makes exactly the transfer of `i`.
  pub transfer_call-parse :
      (f : MultisigForwarder) {i : MultisigInput} {t : e.State} {out : Bytes}
      → IsCalldata input
      → parse_multisig_call_input b input ≡ ok i
      → transfer_call e f sender s logic_ref input ≡ ok (t, out)
      → Allowed f.pa f.wrap_logic_ref sender logic_ref
        × (e.safe_transfer s i.token f.this i.recipient i.amount ≡ some t)
        × (out ≡ i.expected)
  unfolding transfer_call
  transfer_call-parse f {i} {t} {out} fine parsed h =
      let (pa, h₁) = reject_if-bind (not (bytes_eq sender f.pa)) _ _ h in
      let (logic, h₂) = reject_if-bind (not (bytes_eq logic_ref f.wrap_logic_ref)) _ _ h₁ in
      let (d, decoded, h₃) = >>=-eq-ok (ok_or (decode_transfer input) _) _ h₂ in
      let (s', moved, h₄) =
        >>=-eq-ok (some_or (e.safe_transfer s d.token f.this d.to d.amount) _) _ h₃ in
      let same = transfers_agree b input fine.bytes fine.short parsed (ok_or-eq-ok _ _ decoded) in
      let result = ok_unique refl h₄ in
      (
        record {
          by_pa = not-bytes_eq sender f.pa pa;
          logic = not-bytes_eq logic_ref f.wrap_logic_ref logic;
        },
        rw same (some_or-eq-ok _ _ moved ∙ ap (λ r. some r.0) result),
        sym (ap (λ r. r.1) result) ∙ ap (λ x. x.expected) (sym same),
      )

  -- A call that the wrap forwarder executes, and whose input the circuit reads as `i`, is one of
  -- the protocol adapter for the right logic, and it moves exactly the amount of `i` from the
  -- depositor of `i` to the multisig forwarder.
  pub deposit_call-parse :
      (f : WrapForwarder) {i : WrapInput} {t : e.State} {out : Bytes}
      → IsCalldata input
      → parse_wrap_call_input b input ≡ ok i
      → deposit_call e f sender s logic_ref input ≡ ok (t, out)
      → Allowed f.pa f.wrap_logic_ref sender logic_ref
        × (e.safe_transfer_from s i.token f.this i.from f.multisig_forwarder i.amount ≡ some t)
        × (out ≡ i.expected)
  unfolding deposit_call
  deposit_call-parse f {i} {t} {out} fine parsed h =
      let (pa, h₁) = reject_if-bind (not (bytes_eq sender f.pa)) _ _ h in
      let (logic, h₂) = reject_if-bind (not (bytes_eq logic_ref f.wrap_logic_ref)) _ _ h₁ in
      let (d, decoded, h₃) = >>=-eq-ok (ok_or (decode_deposit input) _) _ h₂ in
      let (_, h₄) = reject_if-bind (not (d.op == op_wrap)) _ _ h₃ in
      let (s', moved, h₅) =
        >>=-eq-ok
          (some_or (e.safe_transfer_from s d.token f.this d.from f.multisig_forwarder d.amount) _) _
          h₄ in
      let same = deposits_agree b input fine.bytes fine.short parsed (ok_or-eq-ok _ _ decoded) in
      let result = ok_unique refl h₅ in
      (
        record {
          by_pa = not-bytes_eq sender f.pa pa;
          logic = not-bytes_eq logic_ref f.wrap_logic_ref logic;
        },
        rw same (some_or-eq-ok _ _ moved ∙ ap (λ r. some r.0) result),
        sym (ap (λ r. r.1) result) ∙ ap (λ x. x.expected) (sym same),
      )
