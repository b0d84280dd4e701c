-- ===== src/Constrain/Consumed/Builds.antt =====
-- `constrain_multisig_consumed` in the guest, where `usize` has 32 bits, and on the host.
use arm_multisig_application.Base.{
  ◌+◌, ℕ, ◌^◌, ◌<◌, ◌≡◌, refl, List, [], ◌∷◌, ok, ok_or, ok_or-eq-ok, >>=-congr, length, All, arith,
  Bool-cases, inl, inr,
}
use arm_multisig_application.Base.Bytes.{Bytes, bytes_eq, bytes_eq→eq}
use arm_multisig_application.Abi.{ParsedExternalCall}
use arm_multisig_application.Abi.Exact.{
  exact_call, PartFits, CallFits, length-exact_call, parse_external_call-exact,
  parse_multisig_call_input-exact,
}
use arm_multisig_application.Constrain.Consumed.{
  check_identity, check_policy, check_change, gather_recipients, add_call, walk_payloads,
  constrain_multisig_consumed,
}
use arm_multisig_application.Journal.{ExpirableBlob}
use arm_multisig_application.Machine.{Build}
use arm_multisig_application.Platform.{Platform}
use arm_multisig_application.Witness.{MultisigConsumedWitness}

-- The offsets and lengths in a call fit 32 bits, and those in its input do if the call is the
-- forwarder's.
pub record TransferFits (forwarder blob : Bytes) : Type 0 where
  pub outer : CallFits blob
  pub inner :
      (parsed : ParsedExternalCall)
      → exact_call blob ≡ ok parsed
      → parsed.forwarder ≡ forwarder
      → PartFits parsed.input 96

module _ (p : Platform) (b c : Build) (w : MultisigConsumedWitness p) (forwarder : Bytes)
    (rec_sum : ℕ) where
  add_call-builds :
      (sum idx : ℕ) (parsed : ParsedExternalCall)
      → length parsed.input < 2 ^ 32
      → PartFits parsed.input 96
      → add_call p b w rec_sum sum idx parsed ≡ add_call p c w rec_sum sum idx parsed
  unfolding add_call
  add_call-builds sum idx parsed size fits =
      rw
        (
          parse_multisig_call_input-exact b parsed.input size fits,
          parse_multisig_call_input-exact c parsed.input size fits,
        )
        refl

  pub walk_payloads-builds :
      (sum idx : ℕ) (blobs : List ExpirableBlob)
      → All (λ blob. TransferFits forwarder blob.blob) blobs
      → walk_payloads p b w forwarder rec_sum sum idx blobs
        ≡ walk_payloads p c w forwarder rec_sum sum idx blobs
  unfolding walk_payloads
  walk_payloads-builds sum idx [] fine = refl
  walk_payloads-builds sum idx (blob ∷ blobs) (here, fine) =
      let o = here.outer in
      rw
        (
          parse_external_call-exact b blob.blob o.size o.input o.expected,
          parse_external_call-exact c blob.blob o.size o.input o.expected,
        )
        (>>=-congr (ok_or (exact_call blob.blob) _) (λ parsed read.
          let got = ok_or-eq-ok _ _ read in
          elim (Bool-cases (bytes_eq parsed.forwarder forwarder)) [
            | inl e ↦
                let fits = here.inner parsed got (bytes_eq→eq parsed.forwarder forwarder e) in
                rw
                  (
                    e,
                    add_call-builds sum idx parsed
                        (omega (arith, o.size, length-exact_call blob.blob got)) fits,
                  )
                  (>>=-congr (add_call p c w rec_sum sum idx parsed)
                    (λ s _. walk_payloads-builds s (idx + 1) blobs fine))
            | inr e ↦ rw e (walk_payloads-builds sum (idx + 1) blobs fine)
          ]))

-- Where every external call is shorter than 2 ^ 32 bytes, and the offsets in it and in the input of
-- a call of the forwarder are below 2 ^ 32 - 32 and lead to lengths below 2 ^ 32, every build gives
-- the same result, journal, error or panic: 32 bits or 64, with overflow checks or without.
pub constrain_multisig_consumed-any_build :
    (p : Platform) (b c : Build) (w : MultisigConsumedWitness p) (forwarder : Bytes)
    → All (λ blob. TransferFits forwarder blob.blob) w.app_data.external_payload
    → constrain_multisig_consumed p b w forwarder ≡ constrain_multisig_consumed p c w forwarder
unfolding constrain_multisig_consumed
constrain_multisig_consumed-any_build p b c w forwarder fine =
    >>=-congr (check_identity p w) (λ _ _. >>=-congr (check_policy p w) (λ _ _.
      >>=-congr (check_change p w) (λ _ _.
        >>=-congr (gather_recipients p w 0 [] 0 w.recipient_resources) (λ (sum, cms) _.
          rw (walk_payloads-builds p b c w forwarder sum 0 0 w.app_data.external_payload fine)
            refl))))
