-- ===== src/Contracts/Reverts/Transfers.antt =====
-- `MultisigForwarder.forwardCall` on any call: when it executes it, and why it reverts.
use arm_multisig_application.Base.{
  ◌≡◌, ◌≢◌, ◌↔◌, ◌∙◌, refl, sym, ap, not, some, none, ok, err, ok_or, some_or, ok_or-eq-ok,
  some_or-eq-ok, ok_unique, reject_if-bind, >>=-eq-ok, AllErrors, ok-AllErrors, >>=-AllErrors,
  ok_or-AllErrors, some_or-AllErrors,
}
use arm_multisig_application.Base.Bytes.{Bytes, bytes_eq, not-bytes_eq, eq→bytes_eq, ne→bytes_eq}
use arm_multisig_application.Base.Guards.{bytes_test-AllErrors}
use arm_multisig_application.Contracts.Agreement.{Allowed}
use arm_multisig_application.Contracts.Decode.{TransferCall, decode_transfer}
use arm_multisig_application.Contracts.Erc20.{Erc20}
use arm_multisig_application.Contracts.Forwarder.{
  Revert, only_pa, wrong_logic, bad_calldata, token_reverted, MultisigForwarder, transfer_call,
}

module _ (e : Erc20) (sender logic_ref input : Bytes) (s : e.State) where
  -- A call is executed: it is the protocol adapter's for the right logic, it decodes, and the token
  -- makes the transfer.
  pub record Transferred (f : MultisigForwarder) (t : e.State) (out : Bytes) : Type 0 where
    pub allowed : Allowed f.pa f.wrap_logic_ref sender logic_ref
    pub call : TransferCall
    pub decoded : decode_transfer input ≡ ok call
    pub moved : e.safe_transfer s call.token f.this call.to call.amount ≡ some t
    pub expected : out ≡ call.expected

  -- A call reverts, with what is in order where it does.
  pub data TransferReverts (f : MultisigForwarder) : Revert → Type 0 where
    not_adapter : sender ≢ f.pa → TransferReverts f only_pa
    other_logic :
        sender ≡ f.pa
        → logic_ref ≢ f.wrap_logic_ref
        → TransferReverts f (wrong_logic f.wrap_logic_ref logic_ref)
    undecodable :
        Allowed f.pa f.wrap_logic_ref sender logic_ref
        → decode_transfer input ≡ err tt
        → TransferReverts f bad_calldata
    token_refuses :
        (call : TransferCall)
        → Allowed f.pa f.wrap_logic_ref sender logic_ref
        → decode_transfer input ≡ ok call
        → e.safe_transfer s call.token f.this call.to call.amount ≡ none
        → TransferReverts f token_reverted

  transfer_call-Transferred :
      (f : MultisigForwarder) (t : e.State) (out : Bytes)
      → (transfer_call e f sender s logic_ref input ≡ ok (t, out)) ↔ Transferred f t out
  unfolding transfer_call
  transfer_call-Transferred f t out = (
    λ h.
        let (pa, h₁) = reject_if-bind (not (bytes_eq sender f.pa)) _ _ h in
        let (logic, h₂) = reject_if-bind (not (bytes_eq logic_ref f.wrap_logic_ref)) _ _ h₁ in
        let (d, decoded, h₃) = >>=-eq-ok (ok_or (decode_transfer input) _) _ h₂ in
        let (s', moved, h₄) =
          >>=-eq-ok (some_or (e.safe_transfer s d.token f.this d.to d.amount) _) _ h₃ in
        let result = ok_unique refl h₄ in
        record {
          allowed = record {
            by_pa = not-bytes_eq sender f.pa pa;
            logic = not-bytes_eq logic_ref f.wrap_logic_ref logic;
          };
          call = d;
          decoded = ok_or-eq-ok _ _ decoded;
          moved = some_or-eq-ok _ _ moved ∙ ap (λ r. some r.0) result;
          expected = sym (ap (λ r. r.1) result);
        },
    λ c.
        rw
          (
            eq→bytes_eq sender f.pa c.allowed.by_pa,
            eq→bytes_eq logic_ref f.wrap_logic_ref c.allowed.logic,
            c.decoded,
            c.moved,
            c.expected,
          )
          refl,
  )

  TransferReverts-sound :
      (f : MultisigForwarder)
      → AllErrors (TransferReverts f) (transfer_call e f sender s logic_ref input)
  unfolding transfer_call
  TransferReverts-sound f =
      let P = TransferReverts f in
      bytes_test-AllErrors P sender f.pa _ _ (λ h. not_adapter h)
        (λ pa.
          bytes_test-AllErrors P logic_ref f.wrap_logic_ref _ _ (λ h. other_logic pa h)
            (λ logic.
              let allowed : Allowed f.pa f.wrap_logic_ref sender logic_ref = record {
                by_pa = pa;
                logic = logic;
              } in
              >>=-AllErrors P (ok_or (decode_transfer input) _) _
                (ok_or-AllErrors P (decode_transfer input) _ (λ h. undecodable allowed h))
                (λ d decoded.
                  >>=-AllErrors P (some_or (e.safe_transfer s d.token f.this d.to d.amount) _) _
                    (some_or-AllErrors P (e.safe_transfer s d.token f.this d.to d.amount) _
                      (λ h. token_refuses d allowed (ok_or-eq-ok _ _ decoded) h))
                    (λ t _. ok-AllErrors P _))))

  TransferReverts-complete :
      (f : MultisigForwarder) {r : Revert}
      → TransferReverts f r
      → transfer_call e f sender s logic_ref input ≡ err r
  unfolding transfer_call
  TransferReverts-complete f (not_adapter h) = rw (ne→bytes_eq sender f.pa h) refl
  TransferReverts-complete f (other_logic pa h) =
      rw (eq→bytes_eq sender f.pa pa, ne→bytes_eq logic_ref f.wrap_logic_ref h) refl
  TransferReverts-complete f (undecodable a h) =
      rw (eq→bytes_eq sender f.pa a.by_pa, eq→bytes_eq logic_ref f.wrap_logic_ref a.logic, h) refl
  TransferReverts-complete f (token_refuses d a decoded h) =
      rw
        (
          eq→bytes_eq sender f.pa a.by_pa,
          eq→bytes_eq logic_ref f.wrap_logic_ref a.logic,
          decoded,
          h,
        )
        refl

  -- The multisig forwarder executes a call, with that state and that output, exactly where it is
  -- the protocol adapter's for the right logic, it decodes, and the token makes the transfer from
  -- the forwarder; and it reverts exactly with the error whose rule holds: the caller, then the
  -- logic, then the calldata, then the token.
  pub transfer_call-TransferReverts :
      (f : MultisigForwarder)
      → ((t : e.State) (out : Bytes)
          → (transfer_call e f sender s logic_ref input ≡ ok (t, out)) ↔ Transferred f t out)
        × ((r : Revert)
            → (transfer_call e f sender s logic_ref input ≡ err r) ↔ TransferReverts f r)
  transfer_call-TransferReverts f =
      (transfer_call-Transferred f, λ r. (TransferReverts-sound f r, TransferReverts-complete f))
