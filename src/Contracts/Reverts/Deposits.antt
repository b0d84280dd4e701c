-- ===== src/Contracts/Reverts/Deposits.antt =====
-- `WrapForwarder.forwardCall` on any call: when it executes it, and why it reverts.
use arm_multisig_application.Base.{
  ℕ, ◌≡◌, ◌≢◌, ◌↔◌, ◌∙◌, refl, sym, ap, not, some, none, ok, err, ok_or, some_or, ok_or-eq-ok,
  some_or-eq-ok, ok_unique, reject_if-bind, >>=-eq-ok, AllErrors, ok-AllErrors, >>=-AllErrors,
  ok_or-AllErrors, some_or-AllErrors, ltb, length, leb, ◌==◌, arith,
}
use arm_multisig_application.Base.Bytes.{Bytes, bytes_eq, not-bytes_eq, eq→bytes_eq, ne→bytes_eq}
use arm_multisig_application.Base.Guards.{bytes_test-AllErrors, number_test-AllErrors}
use arm_multisig_application.Contracts.Agreement.{Allowed}
use arm_multisig_application.Contracts.Decode.{
  DepositCall, decode_uint, decode_op, decode_address, decode_bytes, decode_deposit,
}
use arm_multisig_application.Contracts.Erc20.{Erc20}
use arm_multisig_application.Contracts.Forwarder.{
  Revert, only_pa, wrong_logic, bad_calldata, token_reverted, WrapForwarder, op_wrap, deposit_call,
}

-- The enum has one member, and decoding checks it.
decode_op-zero : (input : Bytes) (at : ℕ) {op : ℕ} → decode_op input at ≡ ok op → op ≡ 0
unfolding decode_op
decode_op-zero input at h =
    let (read, _, h₁) = >>=-eq-ok (decode_uint input at) _ h in
    let (small, last) = reject_if-bind (leb 1 read) _ _ h₁ in ok_unique last refl ∙ ground arith

decode_deposit-op : (input : Bytes) {d : DepositCall} → decode_deposit input ≡ ok d → d.op ≡ 0
unfolding decode_deposit
decode_deposit-op input h =
    let (_, h₁) = reject_if-bind (ltb (length input) 160) _ _ h in
    let (op, checked, h₂) = >>=-eq-ok (decode_op input 0) _ h₁ in
    let (_, _, h₃) = >>=-eq-ok (decode_address input 32) _ h₂ in
    let (_, _, h₄) = >>=-eq-ok (decode_address input 64) _ h₃ in
    let (_, _, h₅) = >>=-eq-ok (decode_uint input 96) _ h₄ in
    let (offset, _, h₆) = >>=-eq-ok (decode_uint input 128) _ h₅ in
    let (_, _, last) = >>=-eq-ok (decode_bytes input offset) _ h₆ in
    ap (λ d. d.op) (ok_unique last refl) ∙ decode_op-zero input 0 checked

module _ (e : Erc20) (sender logic_ref input : Bytes) (s : e.State) where
  -- A call is executed: it is the protocol adapter's for the right logic, it decodes, and the token
  -- makes the transfer from the depositor.
  pub record Deposited (f : WrapForwarder) (t : e.State) (out : Bytes) : Type 0 where
    pub allowed : Allowed f.pa f.wrap_logic_ref sender logic_ref
    pub call : DepositCall
    pub decoded : decode_deposit input ≡ ok call
    pub moved :
        e.safe_transfer_from s call.token f.this call.from f.multisig_forwarder call.amount ≡ some t
    pub expected : out ≡ call.expected

  -- `UnsupportedOp` has no rule: calldata with another operation does not decode.
  pub data DepositReverts (f : WrapForwarder) : Revert → Type 0 where
    deposit_not_adapter : sender ≢ f.pa → DepositReverts f only_pa
    deposit_other_logic :
        sender ≡ f.pa
        → logic_ref ≢ f.wrap_logic_ref
        → DepositReverts f (wrong_logic f.wrap_logic_ref logic_ref)
    deposit_undecodable :
        Allowed f.pa f.wrap_logic_ref sender logic_ref
        → decode_deposit input ≡ err tt
        → DepositReverts f bad_calldata
    deposit_token_refuses :
        (call : DepositCall)
        → Allowed f.pa f.wrap_logic_ref sender logic_ref
        → decode_deposit input ≡ ok call
        → e.safe_transfer_from s call.token f.this call.from f.multisig_forwarder call.amount ≡ none
        → DepositReverts f token_reverted

  deposit_call-Deposited :
      (f : WrapForwarder) (t : e.State) (out : Bytes)
      → (deposit_call e f sender s logic_ref input ≡ ok (t, out)) ↔ Deposited f t out
  unfolding deposit_call
  deposit_call-Deposited f t out = (
    λ h.
        let (pa, h₁) = reject_if-bind (not (bytes_eq sender f.pa)) _ _ h in
        let (logic, h₂) = reject_if-bind (not (bytes_eq logic_ref f.wrap_logic_ref)) _ _ h₁ in
        let (d, decoded, h₃) = >>=-eq-ok (ok_or (decode_deposit input) _) _ h₂ in
        let (_, h₄) = reject_if-bind (not (d.op == op_wrap)) _ _ h₃ in
        let (s', moved, h₅) =
          >>=-eq-ok
            (some_or (e.safe_transfer_from s d.token f.this d.from f.multisig_forwarder d.amount) _)
            _ h₄ in
        let result = ok_unique refl h₅ in
        record {
          allowed = record {
            by_pa = not-bytes_eq sender f.pa pa;
            logic = not-bytes_eq logic_ref f.wrap_logic_ref logic;
          };
          call = d;
          decoded = ok_or-eq-ok _ _ decoded;
          moved = some_or-eq-ok _ _ moved ∙ ap (λ r. some r.0) result;
          expected = sym (ap (λ r. r.1) result);
        },
    λ c.
        rw
          (
            eq→bytes_eq sender f.pa c.allowed.by_pa,
            eq→bytes_eq logic_ref f.wrap_logic_ref c.allowed.logic,
            c.decoded,
            decode_deposit-op input c.decoded,
            c.moved,
            c.expected,
          )
          refl,
  )

  DepositReverts-sound :
      (f : WrapForwarder) → AllErrors (DepositReverts f) (deposit_call e f sender s logic_ref input)
  unfolding deposit_call
  DepositReverts-sound f =
      let P = DepositReverts f in
      bytes_test-AllErrors P sender f.pa _ _ (λ h. deposit_not_adapter h)
        (λ pa.
          bytes_test-AllErrors P logic_ref f.wrap_logic_ref _ _ (λ h. deposit_other_logic pa h)
            (λ logic.
              let allowed : Allowed f.pa f.wrap_logic_ref sender logic_ref = record {
                by_pa = pa;
                logic = logic;
              } in
              >>=-AllErrors P (ok_or (decode_deposit input) _) _
                (ok_or-AllErrors P (decode_deposit input) _ (λ h. deposit_undecodable allowed h))
                (λ d decoded.
                  let known = ok_or-eq-ok _ _ decoded in
                  let move =
                    e.safe_transfer_from s d.token f.this d.from f.multisig_forwarder d.amount in
                  number_test-AllErrors P d.op op_wrap _ _
                    (λ other. absurd (other (decode_deposit-op input known)))
                    (λ _.
                      >>=-AllErrors P (some_or move _) _
                        (some_or-AllErrors P move _ (λ h. deposit_token_refuses d allowed known h))
                        (λ t _. ok-AllErrors P _)))))

  DepositReverts-complete :
      (f : WrapForwarder) {r : Revert}
      → DepositReverts f r
      → deposit_call e f sender s logic_ref input ≡ err r
  unfolding deposit_call
  DepositReverts-complete f (deposit_not_adapter h) = rw (ne→bytes_eq sender f.pa h) refl
  DepositReverts-complete f (deposit_other_logic pa h) =
      rw (eq→bytes_eq sender f.pa pa, ne→bytes_eq logic_ref f.wrap_logic_ref h) refl
  DepositReverts-complete f (deposit_undecodable a h) =
      rw (eq→bytes_eq sender f.pa a.by_pa, eq→bytes_eq logic_ref f.wrap_logic_ref a.logic, h) refl
  DepositReverts-complete f (deposit_token_refuses d a decoded h) =
      rw
        (
          eq→bytes_eq sender f.pa a.by_pa,
          eq→bytes_eq logic_ref f.wrap_logic_ref a.logic,
          decoded,
          decode_deposit-op input decoded,
          h,
        )
        refl

  -- The wrap forwarder executes a call, with that state and that output, exactly where it is the
  -- protocol adapter's for the right logic, it decodes, and the token makes the transfer from the
  -- depositor to the multisig forwarder; and it reverts exactly with the error whose rule holds,
  -- which is never `UnsupportedOp`, since calldata with another operation does not decode.
  pub deposit_call-DepositReverts :
      (f : WrapForwarder)
      → ((t : e.State) (out : Bytes)
          → (deposit_call e f sender s logic_ref input ≡ ok (t, out)) ↔ Deposited f t out)
        × ((r : Revert) → (deposit_call e f sender s logic_ref input ≡ err r) ↔ DepositReverts f r)
  deposit_call-DepositReverts f =
      (deposit_call-Deposited f, λ r. (DepositReverts-sound f r, DepositReverts-complete f))
