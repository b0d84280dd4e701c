-- ===== src/Constrain/Consumed/Refusal/Recipients.antt =====
-- The loop over the recipients fails exactly with the errors of the rules.
use arm_multisig_application.Base.{
  ℕ, ◌+◌, ◌<◌, ◌≡◌, not, List, [], ◌∷◌, ◌++◌, ok, err, refl, subst, ap, reject_if-bind, >>=-eq-ok,
  some_or, some_or-eq-ok, AllErrors, ok-AllErrors, >>=-AllErrors, reject_if-AllErrors,
  some_or-AllErrors, ne_true, not-eq_true, not-eq_false, length, All, arith,
}
use arm_multisig_application.Base.Bytes.{Bytes}
use arm_multisig_application.Constrain.Errors.{
  CircuitError, any_tag, recipient_not_in_action, digest_to_array,
}
use arm_multisig_application.Constrain.Consumed.{gather_recipients}
use arm_multisig_application.Constrain.Consumed.Refusal.{
  Undelivered, recipient_not_created, recipient_overflow,
}
use arm_multisig_application.Constrain.Consumed.Spec.{InAction, total_quantity, commitment_bytes}
use arm_multisig_application.Constrain.Consumed.Steps.{any_tag-Mem, Mem-any_tag}
use arm_multisig_application.Constrain.Consumed.Sums.{
  checked_add-some, checked_add-fits, checked_add-none, checked_add-overflow,
}
use arm_multisig_application.Machine.{u128_mod, checked_add}
use arm_multisig_application.Platform.{Platform, IsLawful}
use arm_multisig_application.Witness.{ResourceOf, MultisigConsumedWitness}

module _ (p : Platform) (law : IsLawful p) (w : MultisigConsumedWitness p) where
  -- The loop gets past recipients that are in the action and whose sum fits.
  gather_recipients-before :
      (sum : ℕ) (cs : List Bytes) (idx : ℕ) (before rest : List (ResourceOf p)) (s i : ℕ)
      → All (InAction p w) before
      → s ≡ sum + total_quantity p before
      → i ≡ idx + length before
      → s < u128_mod
      → (out : List Bytes) × (gather_recipients p w sum cs idx (before ++ rest)
          ≡ gather_recipients p w s out i rest)
  unfolding gather_recipients digest_to_array
  gather_recipients-before sum cs idx [] rest s i inside total count fits =
      let same_sum : s ≡ sum = omega arith in
      let same_idx : i ≡ idx = omega arith in (cs, rw (same_sum, same_idx) refl)
  gather_recipients-before sum cs idx (r ∷ before) rest s i (m, ms) total count fits =
      rw
        (
          Mem-any_tag p law w.action_tags (p.commitment r) m,
          checked_add-fits u128_mod sum r.quantity (omega arith),
        )
        (gather_recipients-before (sum + r.quantity) (cs ++ commitment_bytes p r ∷ []) (idx + 1)
          before rest s i ms (omega arith) (omega arith) fits)

  -- A rule for the rest of the list is one for the list, behind a recipient that passes.
  later :
      (sum idx : ℕ) (r : ResourceOf p) (rs : List (ResourceOf p)) (e : CircuitError)
      → InAction p w r
      → Undelivered p w (sum + r.quantity) (idx + 1) rs e
      → Undelivered p w sum idx (r ∷ rs) e
  later sum idx r rs _ m (recipient_not_created before s after at ms fits out) =
      subst (λ i. Undelivered p w sum idx (r ∷ rs) (recipient_not_in_action i)) (omega arith)
        (recipient_not_created (r ∷ before) s after (ap (◌∷◌ r) at) (m, ms) (omega arith) out)
  later sum idx r rs _ m (recipient_overflow before s after at ms fits in_ over) =
      recipient_overflow (r ∷ before) s after (ap (◌∷◌ r) at) (m, ms) (omega arith) in_
        (omega arith)

  pub Undelivered-sound :
      (sum : ℕ) (cs : List Bytes) (idx : ℕ) (rs : List (ResourceOf p))
      → sum < u128_mod
      → AllErrors (Undelivered p w sum idx rs) (gather_recipients p w sum cs idx rs)
  unfolding gather_recipients
  Undelivered-sound sum cs idx [] fits = ok-AllErrors (Undelivered p w sum idx []) _
  Undelivered-sound sum cs idx (r ∷ rs) fits =
      let P = Undelivered p w sum idx (r ∷ rs) in
      let cm = p.commitment r in
      reject_if-AllErrors P (not (any_tag p w.action_tags cm)) _ _
        (λ h.
          let out : ¬ InAction p w r =
            λ m. cc (not-eq_true h, Mem-any_tag p law w.action_tags cm m) in
          subst (λ i. P (recipient_not_in_action i)) (omega arith)
            (recipient_not_created [] r rs refl tt (omega arith) out))
        (λ h.
          let m : InAction p w r = any_tag-Mem p law w.action_tags cm (not-eq_false h) in
          >>=-AllErrors P (some_or (checked_add u128_mod sum r.quantity) _) _
            (some_or-AllErrors P (checked_add u128_mod sum r.quantity) _ (λ h.
              recipient_overflow [] r rs refl tt (omega arith) m
                (omega (arith, checked_add-none u128_mod sum r.quantity h))))
            (λ s added e k.
              let (same, bound) =
                checked_add-some u128_mod sum r.quantity (some_or-eq-ok _ _ added) in
              later sum idx r rs e m (
                subst (λ t. Undelivered p w t (idx + 1) rs e) same
                  (Undelivered-sound s (cs ++ digest_to_array p cm ∷ []) (idx + 1) rs (omega arith)
                    e k))))

  pub Undelivered-complete :
      (sum : ℕ) (cs : List Bytes) (idx : ℕ) (rs : List (ResourceOf p)) {e : CircuitError}
      → Undelivered p w sum idx rs e
      → gather_recipients p w sum cs idx rs ≡ err e
  unfolding gather_recipients
  Undelivered-complete sum cs idx rs (recipient_not_created before r after at ms fits out) =
      let (_, passed) =
        gather_recipients-before sum cs idx before (r ∷ after) _ _ ms refl refl fits in
      rw (at, passed, ne_true (λ h. out (any_tag-Mem p law w.action_tags (p.commitment r) h))) refl
  Undelivered-complete sum cs idx rs (recipient_overflow before r after at ms fits m over) =
      let (_, passed) =
        gather_recipients-before sum cs idx before (r ∷ after) _ _ ms refl refl fits in
      rw
        (
          at,
          passed,
          Mem-any_tag p law w.action_tags (p.commitment r) m,
          checked_add-overflow u128_mod _ _ over,
        )
        refl

  -- The sum that the loop returns fits 128 bits.
  pub gather_recipients-bound :
      (sum : ℕ) (cs : List Bytes) (idx : ℕ) (rs : List (ResourceOf p)) {s : ℕ} {out : List Bytes}
      → sum < u128_mod
      → gather_recipients p w sum cs idx rs ≡ ok (s, out)
      → s < u128_mod
  unfolding gather_recipients
  gather_recipients-bound sum cs idx [] fits h = ground arith
  gather_recipients-bound sum cs idx (r ∷ rs) fits h =
      let (_, h₁) = reject_if-bind (not (any_tag p w.action_tags (p.commitment r))) _ _ h in
      let (s, added, h₂) = >>=-eq-ok (some_or (checked_add u128_mod sum r.quantity) _) _ h₁ in
      let (same, bound) = checked_add-some u128_mod sum r.quantity (some_or-eq-ok _ _ added) in
      gather_recipients-bound s _ (idx + 1) rs (omega arith) h₂
