-- ===== src/Constrain/Consumed/Returns.antt =====
-- The steps of `constrain_multisig_consumed` do not panic.
use arm_multisig_application.Base.{
  ok_or-eq-ok, ℕ, ◌+◌, ◌<◌, refl, ◌≢◌, not, Option, some, none, List, [], ◌∷◌, ◌++◌, Outcome, ok,
  err, panic, ok_or, some_or, >>=_returns, reject_if-bind_returns, some_or_returns, ok_or_returns,
  length, leb, if◌then◌else◌, All, arith,
}
use arm_multisig_application.Base.Bytes.{Bytes, bytes_eq, bytes_lt}
use arm_multisig_application.Abi.{
  ParsedExternalCall, parse_external_call, parse_multisig_call_input,
}
use arm_multisig_application.Abi.Panics.{index_returns}
use arm_multisig_application.Abi.Returns.{
  Readable, parse_external_call_returns, parse_multisig_call_input_returns,
}
use arm_multisig_application.Constrain.Consumed.{
  repeats, check_indices, check_identity, check_policy, check_change, gather_recipients, add_call,
  walk_payloads, check_conservation, verify_slots,
}
use arm_multisig_application.Constrain.Errors.{
  unsorted_pubkeys, any_tag, from_sig_error, digest_to_array,
}
use arm_multisig_application.Journal.{ExpirableBlob}
use arm_multisig_application.Label.{check_sorted}
use arm_multisig_application.Machine.{Build, index, checked_add, u128_mod}
use arm_multisig_application.Platform.{Platform}
use arm_multisig_application.Sig.{SigError, verify_secp256k1}
use arm_multisig_application.Witness.{ResourceOf, SignerSlot, MultisigConsumedWitness}

check_sorted_returns : {E : Type 0} (e : E) (keys : List Bytes) → check_sorted e keys ≢ panic
unfolding check_sorted
check_sorted_returns e [] h = cc h
check_sorted_returns e (x ∷ []) h = cc h
check_sorted_returns e (x ∷ y ∷ rest) h =
    reject_if-bind_returns (not (bytes_lt x y)) e _ (λ _. check_sorted_returns e (y ∷ rest)) h

check_indices_returns :
    (n : ℕ) (prev : Option ℕ) (slots : List SignerSlot) → check_indices n prev slots ≢ panic
unfolding check_indices
check_indices_returns n prev [] h = cc h
check_indices_returns n prev (slot ∷ slots) h =
    reject_if-bind_returns (leb n slot.idx) _ _
      (λ _.
        reject_if-bind_returns (repeats prev slot.idx) _ _
          (λ _. check_indices_returns n (some slot.idx) slots))
      h

from_sig_error_returns : (m : Outcome SigError (Unit {0})) → m ≢ panic → from_sig_error m ≢ panic
from_sig_error_returns panic h k = h refl
from_sig_error_returns (ok x) h k = cc k
from_sig_error_returns (err e) h k = cc k

verify_secp256k1_returns :
    (p : Platform) (key msg sig : Bytes) → verify_secp256k1 p key msg sig ≢ panic
unfolding verify_secp256k1
verify_secp256k1_returns p key msg sig h = ground arith

module _ (p : Platform) where
  pub check_identity_returns : (w : MultisigConsumedWitness p) → check_identity p w ≢ panic
  unfolding check_identity
  check_identity_returns w h = ground arith

  pub check_policy_returns : (w : MultisigConsumedWitness p) → check_policy p w ≢ panic
  unfolding check_policy
  check_policy_returns w h = ground (
    arith,
    check_sorted_returns unsorted_pubkeys w.pubkeys,
    check_indices_returns w.label_preimage.n none w.signatures,
  )

  pub check_change_returns : (w : MultisigConsumedWitness p) → check_change p w ≢ panic
  unfolding check_change
  check_change_returns w h = ground arith

  pub gather_recipients_returns :
      (w : MultisigConsumedWitness p) (sum : ℕ) (cs : List Bytes) (idx : ℕ)
      (rs : List (ResourceOf p))
      → gather_recipients p w sum cs idx rs ≢ panic
  unfolding gather_recipients
  gather_recipients_returns w sum cs idx [] h = cc h
  gather_recipients_returns w sum cs idx (r ∷ rs) h =
      reject_if-bind_returns (not (any_tag p w.action_tags (p.commitment r))) _ _
        (λ _.
          >>=_returns (some_or (checked_add u128_mod sum r.quantity) _) _ (some_or_returns _ _)
            (λ sum' _.
              gather_recipients_returns w sum' (cs ++ digest_to_array p (p.commitment r) ∷ [])
                (idx + 1) rs))
        h

  pub check_conservation_returns :
      (w : MultisigConsumedWitness p) (ext rec : ℕ) → check_conservation p w ext rec ≢ panic
  unfolding check_conservation checked_add
  check_conservation_returns w ext rec h = ground arith

  -- Every slot has a key.
  pub verify_slots_returns :
      (keys : List Bytes) (msg : Bytes) (slots : List SignerSlot)
      → All (λ s. s.idx < length keys) slots
      → verify_slots p keys msg slots ≢ panic
  unfolding verify_slots
  verify_slots_returns keys msg [] within h = cc h
  verify_slots_returns keys msg (slot ∷ slots) (here, within) h =
      >>=_returns (index keys slot.idx) _ (index_returns keys slot.idx here)
        (λ pk _.
          >>=_returns (from_sig_error (verify_secp256k1 p pk msg slot.sig_der)) _
            (from_sig_error_returns _ (verify_secp256k1_returns p pk msg slot.sig_der))
            (λ _ _. verify_slots_returns keys msg slots within))
        h

  module _ (b : Build) (w : MultisigConsumedWitness p) (forwarder : Bytes) (rec_sum : ℕ) where
    add_call_returns :
        (sum idx : ℕ) (parsed : ParsedExternalCall)
        → parse_multisig_call_input b parsed.input ≢ panic
        → add_call p b w rec_sum sum idx parsed ≢ panic
    unfolding add_call
    add_call_returns sum idx parsed safe h =
        >>=_returns (ok_or (parse_multisig_call_input b parsed.input) _) _ (ok_or_returns _ _ safe)
          (λ inner _.
            reject_if-bind_returns (not (bytes_eq inner.token w.label_preimage.token_addr)) _ _
              (λ _. some_or_returns (checked_add u128_mod sum inner.amount) _))
          h

    pub walk_payloads_returns :
        (sum idx : ℕ) (blobs : List ExpirableBlob)
        → All (λ blob. Readable b blob.blob) blobs
        → walk_payloads p b w forwarder rec_sum sum idx blobs ≢ panic
    unfolding walk_payloads
    walk_payloads_returns sum idx [] fine h = cc h
    walk_payloads_returns sum idx (blob ∷ blobs) (here, fine) h =
        >>=_returns (ok_or (parse_external_call b blob.blob) _) _
          (ok_or_returns _ _
            (parse_external_call_returns b blob.blob here.input_offset here.expected_offset))
          (λ parsed read.
            let inner = here.inner parsed (ok_or-eq-ok _ _ read) in
            >>=_returns
              (if bytes_eq parsed.forwarder forwarder
                then add_call p b w rec_sum sum idx parsed
                else ok sum)
              _
              (λ k. ground (
                arith,
                add_call_returns sum idx parsed
                    (parse_multisig_call_input_returns b parsed.input inner),
              ))
              (λ sum' _. walk_payloads_returns sum' (idx + 1) blobs fine))
          h
