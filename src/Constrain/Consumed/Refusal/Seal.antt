-- ===== src/Constrain/Consumed/Refusal/Seal.antt =====
-- Steps 12 to 14 of `constrain_multisig_consumed` fail exactly with the errors of the rules.
use arm_multisig_application.Base.{
  ◌≡◌, true, List, [], ◌∷◌, ◌++◌, Outcome, ok, err, panic, refl, sym, subst, ap, some_or, AllErrors,
  err-AllErrors, ok-AllErrors, >>=-AllErrors, some_or-AllErrors, All,
}
use arm_multisig_application.Base.Bytes.{Bytes}
use arm_multisig_application.Constrain.Errors.{
  CircuitError, signature_error, from_sig_error, consumed_instance, digest_to_array,
}
use arm_multisig_application.Constrain.Consumed.{verify_slots, seal}
use arm_multisig_application.Constrain.Consumed.Refinement.{
  commitments, index-eq-ok, eq-some-index, from_sig_error-eq-ok, spend_message-signed,
  spend_message-counted, consumed_instance-tag,
}
use arm_multisig_application.Constrain.Consumed.Refusal.{
  message_of, SlotRefused, bad_signature, Unsealed, no_nullifier, unsigned,
}
use arm_multisig_application.Constrain.Consumed.Spec.{Signed, instance_of, signed_bytes}
use arm_multisig_application.Journal
use arm_multisig_application.Journal.Errors.{
  encode-AllErrors, expect_u32-AllErrors, index-AllErrors,
}
use arm_multisig_application.Journal.Layout.{layout, encode-eq_layout, encode-layout}
use arm_multisig_application.Machine.{index}
use arm_multisig_application.Platform.{Platform}
use arm_multisig_application.Sig.{SigError, verify_secp256k1}
use arm_multisig_application.Spend
use arm_multisig_application.Spend.{spend_message, spend_preimage, len}
use arm_multisig_application.Witness.{SignerSlot, MultisigConsumedWitness}

-- A signature check's error, as the branch's.
from_sig_error-AllErrors :
    (P : CircuitError → Type 0) {A : Type 0} (r : Outcome SigError A)
    → ((d : SigError) → r ≡ err d → P (signature_error d))
    → AllErrors P (from_sig_error r)
from_sig_error-AllErrors P (ok a) h = ok-AllErrors P a
from_sig_error-AllErrors P (err d) h = err-AllErrors P (signature_error d) (h d refl)
from_sig_error-AllErrors P panic h = λ e k. cc k

-- The message has no error of its own.
spend_message-AllErrors :
    (P : CircuitError → Type 0) (p : Platform) (digest : Bytes) (cs : Spend.RecipientCommitments)
    → AllErrors P (spend_message p digest cs)
unfolding spend_message spend_preimage
spend_message-AllErrors P p digest cs =
    >>=-AllErrors P (spend_preimage digest cs) _
      (>>=-AllErrors P (Journal.expect_u32 (len cs)) _ (expect_u32-AllErrors P (len cs))
        (λ n _. ok-AllErrors P _))
      (λ taken _. ok-AllErrors P _)

module _ (p : Platform) (keys : List Bytes) (msg : Bytes) where
  SlotRefused-sound :
      (slots : List SignerSlot)
      → AllErrors (SlotRefused p keys msg slots) (verify_slots p keys msg slots)
  unfolding verify_slots
  SlotRefused-sound [] = ok-AllErrors (SlotRefused p keys msg []) tt
  SlotRefused-sound (slot ∷ slots) =
      let P = SlotRefused p keys msg (slot ∷ slots) in
      >>=-AllErrors P (index keys slot.idx) _ (index-AllErrors P keys slot.idx) (λ pk at.
        let found = index-eq-ok keys slot.idx at in
        let checked = verify_secp256k1 p pk msg slot.sig_der in
        >>=-AllErrors P (from_sig_error checked) _
          (from_sig_error-AllErrors P checked
            (λ d h. bad_signature [] slot slots pk refl tt found h))
          (λ _ valid e h.
            later slot slots e (pk, found, from_sig_error-eq-ok checked valid)
              (SlotRefused-sound slots e h)))
    where
      later :
          (slot : SignerSlot) (slots : List SignerSlot) (e : CircuitError)
          → Signed p keys msg slot
          → SlotRefused p keys msg slots e
          → SlotRefused p keys msg (slot ∷ slots) e
      later slot slots _ s (bad_signature before last after pk at ss found h) =
          bad_signature (slot ∷ before) last after pk (ap (◌∷◌ slot) at) (s, ss) found h

  -- The loop gets past signed slots.
  verify_slots-before :
      (before rest : List SignerSlot)
      → All (Signed p keys msg) before
      → verify_slots p keys msg (before ++ rest) ≡ verify_slots p keys msg rest
  unfolding verify_slots
  verify_slots-before [] rest h = refl
  verify_slots-before (s ∷ before) rest ((pk, at, valid), hs) =
      rw (eq-some-index keys s.idx at, valid) (verify_slots-before before rest hs)

  SlotRefused-complete :
      (slots : List SignerSlot) {e : CircuitError}
      → SlotRefused p keys msg slots e
      → verify_slots p keys msg slots ≡ err e
  unfolding verify_slots
  SlotRefused-complete slots (bad_signature before slot after pk at ss found h) =
      rw (at, verify_slots-before before (slot ∷ after) ss, eq-some-index keys slot.idx found, h)
        refl

module _ (p : Platform) (w : MultisigConsumedWitness p) where
  pub Unsealed-sound : AllErrors (Unsealed p w) (seal p w (commitments p w))
  unfolding seal consumed_instance
  Unsealed-sound =
      let P = Unsealed p w in
      >>=-AllErrors P (consumed_instance p w.resource w.nf_key w.action_tree_root w.app_data) _
        (>>=-AllErrors P (some_or (p.tag w.resource true w.nf_key) _) _
          (some_or-AllErrors P (p.tag w.resource true w.nf_key) _ (λ h. no_nullifier h))
          (λ tag _. ok-AllErrors P _))
        (λ i made. >>=-AllErrors P (Journal.encode i) _ (encode-AllErrors P i) (λ bytes encoded.
          let call = spend_message p (p.sha256 bytes) (Spend.new (commitments p w)) in
          >>=-AllErrors P call _ (spend_message-AllErrors P p (p.sha256 bytes) _) (λ msg hashed.
            let (nullifier, tagged, same) = consumed_instance-tag p w made in
            let (fits, written) =
              encode-eq_layout (instance_of p w nullifier)
                (subst (λ x. Journal.encode {E = CircuitError} x ≡ ok bytes) (sym same) encoded) in
            let counted = spend_message-counted p w (p.sha256 bytes) hashed in
            let message : msg ≡ message_of p w nullifier =
              subst (λ bs. msg ≡ p.sha256 (signed_bytes p w (p.sha256 bs))) written
                (cc (hashed, spend_message-signed p w (p.sha256 bytes) counted)) in
            >>=-AllErrors P (verify_slots p w.pubkeys msg w.signatures) _
              (λ e h.
                unsigned nullifier tagged fits counted
                  (SlotRefused-sound p w.pubkeys _ w.signatures e (rw message at h)))
              (λ _ _. ok-AllErrors P bytes))))

  pub Unsealed-complete : {e : CircuitError} → Unsealed p w e → seal p w (commitments p w) ≡ err e
  unfolding seal consumed_instance digest_to_array
  Unsealed-complete (no_nullifier h) = rw h refl
  Unsealed-complete (unsigned nullifier tagged fits counted h) =
      rw
        (
          tagged,
          encode-layout {E = CircuitError} (instance_of p w nullifier) fits,
          spend_message-signed p w (p.sha256 (layout (instance_of p w nullifier))) counted,
          SlotRefused-complete p w.pubkeys (message_of p w nullifier) w.signatures h,
        )
        refl
