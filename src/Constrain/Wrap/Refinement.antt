-- ===== src/Constrain/Wrap/Refinement.antt =====
-- `constrain_wrap_inflow` and `constrain_wrap_outflow` against descriptions of what they admit.
use arm_multisig_application.Base.{
  ◌≡◌, ◌↔◌, true, false, not, some, List, [], ◌∷◌, ◌++◌, ok, ok_or, some_or, >>=-eq-ok,
  reject_if-bind, reject_if-eq-ok, ok_or-eq-ok, some_or-eq-ok, length, ◌==◌, ==_iff, arith,
}
use arm_multisig_application.Base.Bytes.{Bytes, bytes_eq, not-bytes_eq, eq→bytes_eq}
use arm_multisig_application.Abi.{
  ParsedExternalCall, WrapInput, parse_external_call, parse_wrap_call_input,
}
use arm_multisig_application.Constants.{wrap_forwarder_op_wrap}
use arm_multisig_application.Constrain.Errors.{
  created_instance, consumed_instance, digest_to_array, derive_nullifier_key_bytes,
}
use arm_multisig_application.Constrain.Wrap.{
  check_inflow, check_deposit, constrain_wrap_inflow, constrain_wrap_outflow,
}
use arm_multisig_application.Journal.{ExpirableBlob}
use arm_multisig_application.Journal.Layout.{layout, FitsAll, encode-layout, encode-eq_layout}
use arm_multisig_application.Label
use arm_multisig_application.Label.{label_ref, nullifier_key_domain}
use arm_multisig_application.Machine.{Build, index}
use arm_multisig_application.Platform.{Platform, IsLawful}
use arm_multisig_application.Witness.{WrapInflowWitness, WrapOutflowWitness}

-- The one external call is a wrap of the vault's token by the depositor, and its amount is the
-- paired quantity that is witnessed.
pub record Deposit (p : Platform) (b : Build) (w : WrapInflowWitness p) (forwarder : Bytes)
    : Type 0 where
  pub blob : ExpirableBlob
  pub only : w.app_data.external_payload ≡ blob ∷ []
  pub parsed : ParsedExternalCall
  pub call : parse_external_call b blob.blob ≡ ok parsed
  pub to_forwarder : parsed.forwarder ≡ forwarder
  pub inner : WrapInput
  pub input : parse_wrap_call_input b parsed.input ≡ ok inner
  pub op : inner.op ≡ wrap_forwarder_op_wrap
  pub token : inner.token ≡ w.paired_vault_label_preimage.token_addr
  pub amount : inner.amount ≡ w.paired_vault_quantity
  pub from : inner.from ≡ w.depositor

-- The resource is ephemeral and its keys and label are those of the paired vault.
pub record Paired (p : Platform) (w : WrapInflowWitness p) : Type 0 where
  pub ephemeral : w.resource.is_ephemeral ≡ true
  pub nullifier_key :
      p.inner w.nf_key
      ≡ p.sha256 (nullifier_key_domain ++ Label.encode w.paired_vault_label_preimage)
  pub nk_commitment : p.commit w.nf_key ≡ w.resource.nk_commitment
  pub label_ref :
      p.as_bytes w.resource.label_ref ≡ p.sha256 (Label.encode w.paired_vault_label_preimage)

-- The journal is that of a consumed resource tagged by its nullifier.
pub record Nullified (p : Platform) (w : WrapInflowWitness p) (journal : Bytes) : Type 0 where
  pub nullifier : p.Digest
  pub tagged : p.tag w.resource true w.nf_key ≡ some nullifier
  pub fits : FitsAll w.app_data
  pub journal_layout :
      journal
      ≡ layout (record {
        tag = p.as_bytes nullifier;
        is_consumed = true;
        action_tree_root = p.as_bytes w.action_tree_root;
        app_data = w.app_data;
      })

pub only_item :
    {A E : Type 0} (xs : List A) {x : A}
    → not (length xs == 1) ≡ false
    → index {E = E} xs 0 ≡ ok x
    → xs ≡ x ∷ []
unfolding index
only_item [] h e = cc
only_item (x ∷ []) h e = ground arith
only_item (x ∷ y ∷ xs) h e = ground arith

pub check_deposit_sound :
    (p : Platform) (b : Build) (w : WrapInflowWitness p) (forwarder : Bytes)
    → check_deposit p b w forwarder ≡ ok tt
    → Deposit p b w forwarder
unfolding check_deposit
check_deposit_sound p b w forwarder h =
    let payload = w.app_data.external_payload in
    let (one, h₁) = reject_if-bind (not (length payload == 1)) _ _ h in
    let (blob, at, h₂) = >>=-eq-ok (index payload 0) _ h₁ in
    let (parsed, call, h₃) = >>=-eq-ok (ok_or (parse_external_call b blob.blob) _) _ h₂ in
    let (to, h₄) = reject_if-bind (not (bytes_eq parsed.forwarder forwarder)) _ _ h₃ in
    let (inner, input, h₅) = >>=-eq-ok (ok_or (parse_wrap_call_input b parsed.input) _) _ h₄ in
    let (op, h₆) = reject_if-bind (not (inner.op == wrap_forwarder_op_wrap)) _ _ h₅ in
    let token_addr = w.paired_vault_label_preimage.token_addr in
    let (token, h₇) = reject_if-bind (not (bytes_eq inner.token token_addr)) _ _ h₆ in
    let (amount, h₈) = reject_if-bind (not (inner.amount == w.paired_vault_quantity)) _ _ h₇ in
    record {
      blob = blob;
      only = only_item payload one at;
      parsed = parsed;
      call = ok_or-eq-ok _ _ call;
      to_forwarder = not-bytes_eq parsed.forwarder forwarder to;
      inner = inner;
      input = ok_or-eq-ok _ _ input;
      op = ground arith;
      token = not-bytes_eq inner.token token_addr token;
      amount = ground arith;
      from =
          not-bytes_eq inner.from w.depositor
            (reject_if-eq-ok (not (bytes_eq inner.from w.depositor)) _ h₈);
    }

pub check_deposit_complete :
    (p : Platform) (b : Build) (w : WrapInflowWitness p) (forwarder : Bytes)
    → Deposit p b w forwarder
    → check_deposit p b w forwarder ≡ ok tt
unfolding check_deposit index
check_deposit_complete p b w forwarder d = rw (
  d.only,
  d.call,
  eq→bytes_eq d.parsed.forwarder forwarder d.to_forwarder,
  d.input,
  d.op,
  eq→bytes_eq d.inner.token w.paired_vault_label_preimage.token_addr d.token,
  (==_iff d.inner.amount w.paired_vault_quantity).1 d.amount,
  eq→bytes_eq d.inner.from w.depositor d.from,
)

pub check_inflow_sound :
    (p : Platform) → IsLawful p → (w : WrapInflowWitness p) → check_inflow p w ≡ ok tt → Paired p w
unfolding check_inflow derive_nullifier_key_bytes label_ref
check_inflow_sound p law w h =
    let label = w.paired_vault_label_preimage in
    let key = p.sha256 (nullifier_key_domain ++ Label.encode label) in
    let ref = p.as_bytes w.resource.label_ref in
    let expected = p.sha256 (Label.encode label) in
    let same_nk = p.nk_commitment_eq (p.commit w.nf_key) w.resource.nk_commitment in
    let (ephemeral, h₁) = reject_if-bind (not w.resource.is_ephemeral) _ _ h in
    let (nf, h₂) = reject_if-bind (not (bytes_eq (p.inner w.nf_key) key)) _ _ h₁ in
    let (nk, h₃) = reject_if-bind (not same_nk) _ _ h₂ in
    let yes_nk : same_nk ≡ true = ground arith in
    record {
      ephemeral = ground arith;
      nullifier_key = not-bytes_eq (p.inner w.nf_key) key nf;
      nk_commitment =
          (law.nk_commitment_eq_iff (p.commit w.nf_key) w.resource.nk_commitment).0 yes_nk;
      label_ref = not-bytes_eq ref expected (reject_if-eq-ok (not (bytes_eq ref expected)) _ h₃);
    }

pub check_inflow_complete :
    (p : Platform) → IsLawful p → (w : WrapInflowWitness p) → Paired p w → check_inflow p w ≡ ok tt
unfolding check_inflow derive_nullifier_key_bytes label_ref
check_inflow_complete p law w a =
    let label = w.paired_vault_label_preimage in
    let key = p.sha256 (nullifier_key_domain ++ Label.encode label) in
    rw (
      a.ephemeral,
      eq→bytes_eq (p.inner w.nf_key) key a.nullifier_key,
      (law.nk_commitment_eq_iff (p.commit w.nf_key) w.resource.nk_commitment).1 a.nk_commitment,
      eq→bytes_eq (p.as_bytes w.resource.label_ref) (p.sha256 (Label.encode label)) a.label_ref,
    )

-- `constrain_wrap_inflow` returns a journal exactly where the resource is ephemeral and has the
-- paired vault's keys and label, the one external call deposits the paired quantity that
-- is witnessed, whatever the quantity of any note is, from the depositor, and the journal is that of
-- the consumed resource.
pub constrain_wrap_inflow-Deposit :
    (p : Platform) (b : Build) (w : WrapInflowWitness p) (forwarder journal : Bytes)
    → IsLawful p
    → (constrain_wrap_inflow p b w forwarder ≡ ok journal)
      ↔ (Paired p w × (Deposit p b w forwarder × Nullified p w journal))
unfolding constrain_wrap_inflow consumed_instance digest_to_array
constrain_wrap_inflow-Deposit p b w forwarder journal law = (
  λ h.
      let (_, paired, h₁) = >>=-eq-ok (check_inflow p w) _ h in
      let (_, deposit, h₂) = >>=-eq-ok (check_deposit p b w forwarder) _ h₁ in
      let (i, made, h₃) = >>=-eq-ok (consumed_instance p w.resource w.nf_key _ _) _ h₂ in
      let (nullifier, tagged, same) =
        >>=-eq-ok (some_or (p.tag w.resource true w.nf_key) _) _ made in
      let found : p.tag w.resource true w.nf_key ≡ some nullifier = some_or-eq-ok _ _ tagged in
      let (fits, written) = encode-eq_layout _ (rw found at h₂) in
      (
        check_inflow_sound p law w paired,
        (
          check_deposit_sound p b w forwarder deposit,
          record { nullifier = nullifier; tagged = found; fits = fits; journal_layout = written },
        ),
      ),
  λ (paired, (deposit, n)).
      rw
        (
          check_inflow_complete p law w paired,
          check_deposit_complete p b w forwarder deposit,
          n.tagged,
          n.journal_layout,
        )
        (encode-layout _ n.fits),
)

-- An ephemeral resource with the vault's label, whose journal is that of a created resource.
pub record Ephemeral (p : Platform) (w : WrapOutflowWitness p) (journal : Bytes) : Type 0 where
  pub ephemeral : w.resource.is_ephemeral ≡ true
  pub label_ref : p.as_bytes w.resource.label_ref ≡ p.sha256 (Label.encode w.label_preimage)
  pub fits : FitsAll w.app_data
  pub journal_layout :
      journal
      ≡ layout (record {
        tag = p.as_bytes (p.commitment w.resource);
        is_consumed = false;
        action_tree_root = p.as_bytes w.action_tree_root;
        app_data = w.app_data;
      })

-- `constrain_wrap_outflow` returns a journal exactly where the resource is ephemeral and has the
-- vault's label, and the journal is that of the created resource. The external payload only has to
-- fit the journal.
pub constrain_wrap_outflow-Ephemeral :
    (p : Platform) (w : WrapOutflowWitness p) (journal : Bytes)
    → (constrain_wrap_outflow p w ≡ ok journal) ↔ Ephemeral p w journal
unfolding constrain_wrap_outflow created_instance digest_to_array label_ref
constrain_wrap_outflow-Ephemeral p w journal =
    let ref = p.as_bytes w.resource.label_ref in
    let expected = p.sha256 (Label.encode w.label_preimage) in
    (
      λ h.
          let (ephemeral, h₁) = reject_if-bind (not w.resource.is_ephemeral) _ _ h in
          let (same, h₂) = reject_if-bind (not (bytes_eq ref expected)) _ _ h₁ in
          let (fits, written) = encode-eq_layout _ h₂ in
          record {
            ephemeral = ground arith;
            label_ref = not-bytes_eq ref expected same;
            fits = fits;
            journal_layout = written;
          },
      λ a.
          simp a.ephemeral
            (rw (eq→bytes_eq ref expected a.label_ref, a.journal_layout) (encode-layout _ a.fits)),
    )
