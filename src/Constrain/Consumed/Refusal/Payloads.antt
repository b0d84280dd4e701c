-- ===== src/Constrain/Consumed/Refusal/Payloads.antt =====
-- The loop over the external payloads fails exactly with the errors of the rules.
use arm_multisig_application.Base.{
  ℕ, ◌+◌, ◌<◌, ◌≡◌, inl, inr, List, [], ◌∷◌, ◌++◌, ok, err, refl, subst, ap, >>=-eq-ok, ok_or,
  ok_or-eq-ok, AllErrors, ok-AllErrors, >>=-AllErrors, some_or-AllErrors, ok_or-AllErrors,
  Bool-cases, length, if◌then◌else◌, arith,
}
use arm_multisig_application.Base.Bytes.{
  Bytes, bytes_eq, bytes_eq→eq, bytes_eq→ne, eq→bytes_eq, ne→bytes_eq,
}
use arm_multisig_application.Base.Guards.{bytes_test-AllErrors}
use arm_multisig_application.Abi.{
  ParsedExternalCall, parse_external_call, parse_multisig_call_input,
}
use arm_multisig_application.Constrain.Errors.{Circuit, CircuitError}
use arm_multisig_application.Constrain.Consumed.{add_call, walk_payloads}
use arm_multisig_application.Constrain.Consumed.Refusal.{
  BlobRefused, unreadable, unreadable_input, other_token, call_overflow, CallRefused, stops_at,
}
use arm_multisig_application.Constrain.Consumed.Spec.{Withdraws, done, other, call}
use arm_multisig_application.Constrain.Consumed.Sums.{
  checked_add-none, checked_add-overflow, add_call_sound, add_call_complete,
}
use arm_multisig_application.Journal.{ExpirableBlob}
use arm_multisig_application.Machine.{Build, u128_mod, checked_add}
use arm_multisig_application.Platform.{Platform}
use arm_multisig_application.Witness.{MultisigConsumedWitness}

module _ (p : Platform) (b : Build) (w : MultisigConsumedWitness p) (forwarder : Bytes)
    (rec_sum : ℕ) where
  -- What one payload adds to the sum.
  abbrev step : ℕ → ℕ → ParsedExternalCall → Circuit ℕ
  step sum idx parsed =
      if bytes_eq parsed.forwarder forwarder then add_call p b w rec_sum sum idx parsed else ok sum

  -- The loop gets past payloads that withdraw `t` units in all, if the sum fits.
  walk_payloads-before :
      (sum idx : ℕ) {before : List ExpirableBlob} {t : ℕ} (rest : List ExpirableBlob) (s i : ℕ)
      → Withdraws b forwarder w.label_preimage.token_addr before t
      → s ≡ sum + t
      → i ≡ idx + length before
      → s < u128_mod
      → walk_payloads p b w forwarder rec_sum sum idx (before ++ rest)
        ≡ walk_payloads p b w forwarder rec_sum s i rest
  unfolding walk_payloads
  walk_payloads-before sum idx rest s i done total count fits =
      let same_sum : s ≡ sum = omega arith in
      let same_idx : i ≡ idx = omega arith in rw (same_sum, same_idx) refl
  walk_payloads-before sum idx rest s i (other parsed read ne ws) total count fits =
      rw (read, ne→bytes_eq _ _ ne)
        (walk_payloads-before sum (idx + 1) rest s i ws total (omega arith) fits)
  walk_payloads-before sum idx rest s i (call parsed inner read e got token add ws) total count
        fits =
      rw
        (
          read,
          eq→bytes_eq _ _ e,
          add_call_complete p b w forwarder rec_sum sum idx parsed inner got token (omega arith),
        )
        (walk_payloads-before (sum + inner.amount) (idx + 1) rest s i ws (omega arith) (omega arith)
          fits)

  -- The errors of one payload.
  BlobRefused-sound :
      (sum idx : ℕ) (blob : ExpirableBlob) (parsed : ParsedExternalCall)
      → parse_external_call b blob.blob ≡ ok parsed
      → AllErrors (BlobRefused p b w forwarder rec_sum sum idx blob) (step sum idx parsed)
  unfolding add_call
  BlobRefused-sound sum idx blob parsed read =
      let P = BlobRefused p b w forwarder rec_sum sum idx blob in
      elim (Bool-cases (bytes_eq parsed.forwarder forwarder)) [
        | inr there ↦ rw there (ok-AllErrors P sum)
        | inl here ↦
            let to : parsed.forwarder ≡ forwarder = bytes_eq→eq parsed.forwarder forwarder here in
            let input = parse_multisig_call_input b parsed.input in
            rw here (
              >>=-AllErrors P (ok_or input _) _
                (ok_or-AllErrors P input _ (λ h. unreadable_input parsed read to h))
                (λ inner got.
                  bytes_test-AllErrors P inner.token w.label_preimage.token_addr _ _
                    (λ h. other_token parsed inner read to (ok_or-eq-ok _ _ got) h)
                    (λ t. some_or-AllErrors P (checked_add u128_mod sum inner.amount) _ (λ h.
                      call_overflow parsed inner read to (ok_or-eq-ok _ _ got) t
                        (checked_add-none u128_mod sum inner.amount h)))))
      ]

  BlobRefused-complete :
      (sum idx : ℕ) (blob : ExpirableBlob) (blobs : List ExpirableBlob) {e : CircuitError}
      → BlobRefused p b w forwarder rec_sum sum idx blob e
      → walk_payloads p b w forwarder rec_sum sum idx (blob ∷ blobs) ≡ err e
  unfolding walk_payloads add_call
  BlobRefused-complete sum idx blob blobs (unreadable h) = rw h refl
  BlobRefused-complete sum idx blob blobs (unreadable_input parsed read to h) =
      rw (read, eq→bytes_eq parsed.forwarder forwarder to, h) refl
  BlobRefused-complete sum idx blob blobs (other_token parsed inner read to got h) =
      rw
        (
          read,
          eq→bytes_eq parsed.forwarder forwarder to,
          got,
          ne→bytes_eq inner.token w.label_preimage.token_addr h,
        )
        refl
  BlobRefused-complete sum idx blob blobs (call_overflow parsed inner read to got t over) =
      rw
        (
          read,
          eq→bytes_eq parsed.forwarder forwarder to,
          got,
          eq→bytes_eq inner.token w.label_preimage.token_addr t,
          checked_add-overflow u128_mod sum inner.amount over,
        )
        refl

  -- What the loop adds for a payload that it gets past.
  step-Withdraws :
      (sum idx : ℕ) (blob : ExpirableBlob) (parsed : ParsedExternalCall) {s : ℕ}
      → parse_external_call b blob.blob ≡ ok parsed
      → step sum idx parsed ≡ ok s
      → sum < u128_mod
      → (amount : ℕ) × (s ≡ sum + amount)
        × (s < u128_mod)
        × ((blobs : List ExpirableBlob) (t : ℕ)
            → Withdraws b forwarder w.label_preimage.token_addr blobs t
            → Withdraws b forwarder w.label_preimage.token_addr (blob ∷ blobs) (amount + t))
  step-Withdraws sum idx blob parsed read added fits =
      elim (Bool-cases (bytes_eq parsed.forwarder forwarder)) [
        | inl here ↦
            let (inner, got, token, now, bound) =
              add_call_sound p b w forwarder rec_sum sum idx parsed (rw here at added) in
            (
              inner.amount,
              now,
              bound,
              λ blobs t ws. call parsed inner read (bytes_eq→eq _ _ here) got token refl ws,
            )
        | inr there ↦
            let same = rw there at added in
            (
              0,
              ground arith,
              ground arith,
              λ blobs t ws.
                  subst (Withdraws b forwarder w.label_preimage.token_addr _) (omega arith)
                    (other parsed read (bytes_eq→ne _ _ there) ws),
            )
      ]

  -- A rule for the rest of the payloads is one for all of them, behind a payload that passes.
  later :
      (sum s idx : ℕ) (blob : ExpirableBlob) (blobs : List ExpirableBlob)
      (parsed : ParsedExternalCall) (e : CircuitError)
      → parse_external_call b blob.blob ≡ ok parsed
      → step sum idx parsed ≡ ok s
      → sum < u128_mod
      → CallRefused p b w forwarder rec_sum s (idx + 1) blobs e
      → CallRefused p b w forwarder rec_sum sum idx (blob ∷ blobs) e
  later sum s idx blob blobs parsed e read added fits
        (stops_at before last after {moved} at ws inside h) =
      let (amount, now, _, extend) = step-Withdraws sum idx blob parsed read added fits in
      let sums : s + moved ≡ sum + (amount + moved) = omega arith in
      let counts : idx + 1 + length before ≡ idx + length (blob ∷ before) = omega arith in
      stops_at (blob ∷ before) last after (ap (◌∷◌ blob) at) (extend before moved ws) (omega arith)
        (rw (sums, counts) at h)

  pub CallRefused-sound :
      (sum idx : ℕ) (blobs : List ExpirableBlob)
      → sum < u128_mod
      → AllErrors
          (CallRefused p b w forwarder rec_sum sum idx blobs)
          (walk_payloads p b w forwarder rec_sum sum idx blobs)
  unfolding walk_payloads
  CallRefused-sound sum idx [] fits =
      ok-AllErrors (CallRefused p b w forwarder rec_sum sum idx []) _
  CallRefused-sound sum idx (blob ∷ blobs) fits =
      let P = CallRefused p b w forwarder rec_sum sum idx (blob ∷ blobs) in
      let here : (e : CircuitError) → BlobRefused p b w forwarder rec_sum sum idx blob e → P e =
        λ e h.
          let none_yet : sum + 0 ≡ sum = omega arith in
          let first : idx + 0 ≡ idx = omega arith in
          stops_at [] blob blobs refl done (omega arith) (rw (none_yet, first) h) in
      let outer = parse_external_call b blob.blob in
      >>=-AllErrors P (ok_or outer _) _ (ok_or-AllErrors P outer _ (λ h. here _ (unreadable h)))
        (λ parsed read.
          let call_ = ok_or-eq-ok _ _ read in
          >>=-AllErrors P (step sum idx parsed) _
            (λ e h. here e (BlobRefused-sound sum idx blob parsed call_ e h))
            (λ s added e h.
              let (_, _, bound, _) = step-Withdraws sum idx blob parsed call_ added fits in
              later sum s idx blob blobs parsed e call_ added fits
                (CallRefused-sound s (idx + 1) blobs bound e h)))

  pub CallRefused-complete :
      (sum idx : ℕ) (blobs : List ExpirableBlob) {e : CircuitError}
      → CallRefused p b w forwarder rec_sum sum idx blobs e
      → walk_payloads p b w forwarder rec_sum sum idx blobs ≡ err e
  CallRefused-complete sum idx blobs (stops_at before blob after at ws fits h) =
      rw (at, walk_payloads-before sum idx (blob ∷ after) _ _ ws refl refl fits)
        (BlobRefused-complete _ _ blob after h)

  -- The sum that the loop returns fits 128 bits.
  pub walk_payloads-bound :
      (sum idx : ℕ) (blobs : List ExpirableBlob) {s : ℕ}
      → sum < u128_mod
      → walk_payloads p b w forwarder rec_sum sum idx blobs ≡ ok s
      → s < u128_mod
  unfolding walk_payloads
  walk_payloads-bound sum idx [] fits h = ground arith
  walk_payloads-bound sum idx (blob ∷ blobs) fits h =
      let (parsed, read, h₁) = >>=-eq-ok (ok_or (parse_external_call b blob.blob) _) _ h in
      let (s, added, h₂) = >>=-eq-ok (step sum idx parsed) _ h₁ in
      let (_, _, bound, _) = step-Withdraws sum idx blob parsed (ok_or-eq-ok _ _ read) added fits in
      walk_payloads-bound s (idx + 1) blobs bound h₂
