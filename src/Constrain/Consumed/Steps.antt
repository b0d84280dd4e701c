-- ===== src/Constrain/Consumed/Steps.antt =====
-- Each step of `constrain_multisig_consumed` passes exactly where its part of the specification
-- holds.
use arm_multisig_application.Base.{
  ◌⊎◌, err, ℕ, ◌<◌, ◌≡◌, ◌↔◌, true, false, not, Option, none, some, List, [], ◌∷◌, ok, refl, sym,
  reject_if-bind, reject_if-eq-ok, >>=-eq-ok, ==_iff, length, leb, ltb, ◌==◌, All, arith, inl, inr,
  Bool, Bool-cases,
}
use arm_multisig_application.Base.Bytes.{
  Bytes, bytes_eq, bytes_lt, bytes_lt_trans, not-bytes_eq, bytes_eq→eq, eq→bytes_eq,
}
use arm_multisig_application.Constrain.Errors.{
  derive_nullifier_key_bytes, any_tag, unsorted_pubkeys,
}
use arm_multisig_application.Constrain.Consumed.{
  check_identity, check_policy, check_change, check_indices, repeats,
}
use arm_multisig_application.Constrain.Consumed.Spec.{
  Ascending, AreSigners, Identity, Policy, Change,
}
use arm_multisig_application.Label.{check_sorted, label_ref}
use arm_multisig_application.Label.Layout.{absorb-flatten}
use arm_multisig_application.Platform.{Platform, IsLawful}
use arm_multisig_application.Witness.{SignerSlot, MultisigConsumedWitness}
use mathlib.Core.List.{Mem, mem-cons, not-mem-nil}
use mathlib.Core.Bool.{Bool-set}
use mathlib.Core.Logic.Or

module _ {E : Type 0} (e : E) where
  Ascending-cons :
      (x y : Bytes) (xs : List Bytes)
      → bytes_lt x y ≡ true
      → All (λ z. bytes_lt y z ≡ true) xs
      → All (λ z. bytes_lt x z ≡ true) xs
  Ascending-cons x y [] h hs = tt
  Ascending-cons x y (z ∷ zs) h (k, ks) = (bytes_lt_trans x y z h k, Ascending-cons x y zs h ks)

  -- The comparison of neighbours passes only on ascending lists.
  pub check_sorted-Ascending : (xs : List Bytes) → check_sorted e xs ≡ ok tt → Ascending xs
  unfolding check_sorted
  check_sorted-Ascending [] h = tt
  check_sorted-Ascending (x ∷ []) h = (tt, tt)
  check_sorted-Ascending (x ∷ y ∷ rest) h =
      let (lt, h') = reject_if-bind (not (bytes_lt x y)) e _ h in
      let (below, asc) = check_sorted-Ascending (y ∷ rest) h' in
      let first : bytes_lt x y ≡ true = ground arith in
      ((first, Ascending-cons x y rest first below), (below, asc))

  pub Ascending-check_sorted : (xs : List Bytes) → Ascending xs → check_sorted e xs ≡ ok tt
  unfolding check_sorted
  Ascending-check_sorted [] h = refl
  Ascending-check_sorted (x ∷ []) h = refl
  Ascending-check_sorted (x ∷ y ∷ rest) ((lt, _), asc) =
      rw lt (Ascending-check_sorted (y ∷ rest) asc)

-- The comparison of neighbours has one error.
pub check_sorted-cases :
    {E : Type 0} (e : E) (keys : List Bytes)
    → (check_sorted e keys ≡ ok tt) ⊎ (check_sorted e keys ≡ err e)
unfolding check_sorted
check_sorted-cases e [] = inl refl
check_sorted-cases e (x ∷ []) = inl refl
check_sorted-cases e (x ∷ y ∷ rest) = ground (arith, check_sorted-cases e (y ∷ rest))

-- The index that a slot must pass.
abbrev Passes : Option ℕ → ℕ → Type 0
Passes none i = Unit {0}
Passes (some prev) i = prev < i

Passes-lt :
    (prev : Option ℕ) (i : ℕ) (slots : List SignerSlot)
    → Passes prev i
    → All (λ s. i < s.idx) slots
    → All (λ s. Passes prev s.idx) slots
Passes-lt prev i [] h hs = tt
Passes-lt none i (s ∷ slots) h (k, ks) = (tt, Passes-lt none i slots h ks)
Passes-lt (some j) i (s ∷ slots) h (k, ks) = (omega arith, Passes-lt (some j) i slots h ks)

repeats-Passes : (prev : Option ℕ) (i : ℕ) → repeats prev i ≡ false → Passes prev i
repeats-Passes none i h = tt
repeats-Passes (some j) i h = ground arith

Passes-repeats : (prev : Option ℕ) (i : ℕ) → Passes prev i → repeats prev i ≡ false
Passes-repeats none i h = refl
Passes-repeats (some j) i h = ground arith

pub check_indices-AreSigners :
    (n : ℕ) (prev : Option ℕ) (slots : List SignerSlot)
    → check_indices n prev slots ≡ ok tt
    → AreSigners n slots × All (λ s. Passes prev s.idx) slots
unfolding check_indices
check_indices-AreSigners n prev [] h = (record { in_range = tt; increasing = tt }, tt)
check_indices-AreSigners n prev (s ∷ slots) h =
    let (inside, h₁) = reject_if-bind (leb n s.idx) _ _ h in
    let (later, h₂) = reject_if-bind (repeats prev s.idx) _ _ h₁ in
    let (rest, above) = check_indices-AreSigners n (some s.idx) slots h₂ in
    let passes = repeats-Passes prev s.idx later in
    let bound : s.idx < n = ground arith in
    (
      record { in_range = (bound, rest.in_range); increasing = (above, rest.increasing) },
      (passes, Passes-lt prev s.idx slots passes above),
    )

pub AreSigners-check_indices :
    (n : ℕ) (prev : Option ℕ) (slots : List SignerSlot)
    → AreSigners n slots
    → All (λ s. Passes prev s.idx) slots
    → check_indices n prev slots ≡ ok tt
unfolding check_indices
AreSigners-check_indices n prev [] v h = refl
AreSigners-check_indices n prev (s ∷ slots) v (passes, _) =
    let (bound, in_range) = v.in_range in
    let (above, increasing) = v.increasing in
    let inside : leb n s.idx ≡ false = ground arith in
    rw (inside, Passes-repeats prev s.idx passes)
      (AreSigners-check_indices n (some s.idx) slots
        (record { in_range = in_range; increasing = increasing }) above)

pub All-Passes-none : (slots : List SignerSlot) → All (λ s. Passes none s.idx) slots
All-Passes-none [] = tt
All-Passes-none (s ∷ slots) = (tt, All-Passes-none slots)

-- `not b` as a guard that lets pass.
pub not-false : (b : Bool) → not b ≡ false → b ≡ true
not-false b h = ground arith

module _ (p : Platform) (law : IsLawful p) where
  pub any_tag-Mem : (tags : List p.Digest) (d : p.Digest) → any_tag p tags d ≡ true → Mem d tags
  unfolding any_tag
  any_tag-Mem [] d h = cc
  any_tag-Mem (t ∷ tags) d h = elim (Bool-cases (p.digest_eq t d)) [
    | inl e ↦ mem-cons.1 (Or.inl (sym ((law.digest_eq_iff t d).0 e)))
    | inr e ↦ mem-cons.1 (Or.inr (any_tag-Mem tags d (rw e at h)))
  ]

  pub Mem-any_tag : (tags : List p.Digest) (d : p.Digest) → Mem d tags → any_tag p tags d ≡ true
  unfolding any_tag
  Mem-any_tag [] d m = absurd (not-mem-nil m)
  Mem-any_tag (t ∷ tags) d m =
      Or.elim (Bool-set _ _) (mem-cons.0 m) (λ e. rw ((law.digest_eq_iff t d).1 (sym e)))
        (λ m'. let found = Mem-any_tag tags d m' in ground arith)

  -- Steps 1 to 3.
  pub check_identity-Identity :
      (w : MultisigConsumedWitness p) → check_identity p w ≡ ok tt ↔ Identity p w
  unfolding check_identity derive_nullifier_key_bytes label_ref
  check_identity-Identity w = (
    λ h. ground (
      arith,
      bytes_eq→eq (p.inner w.nf_key) (derive_nullifier_key_bytes p w.label_preimage),
      (law.nk_commitment_eq_iff (p.commit w.nf_key) w.resource.nk_commitment).0,
      bytes_eq→eq (p.as_bytes w.resource.label_ref) (label_ref p w.label_preimage),
    ),
    λ v. ground (
      arith,
      eq→bytes_eq (p.inner w.nf_key) (derive_nullifier_key_bytes p w.label_preimage),
      (law.nk_commitment_eq_iff (p.commit w.nf_key) w.resource.nk_commitment).1,
      eq→bytes_eq (p.as_bytes w.resource.label_ref) (label_ref p w.label_preimage),
    ),
  )

  pub check_policy-Policy : (w : MultisigConsumedWitness p) → check_policy p w ≡ ok tt ↔ Policy p w
  unfolding check_policy
  check_policy-Policy w = (
    λ h.
        let (count, h₁) = reject_if-bind (not (length w.pubkeys == w.label_preimage.n)) _ _ h in
        let (_, asc, h₂) = >>=-eq-ok (check_sorted unsorted_pubkeys w.pubkeys) _ h₁ in
        let (root, h₃) = reject_if-bind (not (bytes_eq _ w.label_preimage.pubkey_root)) _ _ h₂ in
        let (slots, h₄) = reject_if-bind (not (length w.signatures == w.label_preimage.k)) _ _ h₃ in
        record {
          key_count = ground arith;
          keys_ascend = check_sorted-Ascending unsorted_pubkeys w.pubkeys asc;
          pubkey_root = rw absorb-flatten at (not-bytes_eq _ _ root);
          signer_count = ground arith;
          signers = (check_indices-AreSigners w.label_preimage.n none w.signatures h₄).0;
        },
    λ v.
        rw
          (
            (==_iff (length w.pubkeys) w.label_preimage.n).1 v.key_count,
            Ascending-check_sorted unsorted_pubkeys w.pubkeys v.keys_ascend,
            absorb-flatten [] w.pubkeys,
            eq→bytes_eq _ _ v.pubkey_root,
            (==_iff (length w.signatures) w.label_preimage.k).1 v.signer_count,
          )
          (AreSigners-check_indices w.label_preimage.n none w.signatures v.signers
            (All-Passes-none w.signatures)),
  )

  pub check_change-Change : (w : MultisigConsumedWitness p) → check_change p w ≡ ok tt ↔ Change p w
  unfolding check_change
  check_change-Change w = (
    λ h.
        let (label, h₁) =
          reject_if-bind (not (p.digest_eq w.change_resource.label_ref w.resource.label_ref)) _ _
            h in
        let (small, h₂) =
          reject_if-bind (ltb w.resource.quantity w.change_resource.quantity) _ _ h₁ in
        let found =
          reject_if-eq-ok (not (any_tag p w.action_tags (p.commitment w.change_resource))) _ h₂ in
        record {
          label_ref =
              (law.digest_eq_iff w.change_resource.label_ref w.resource.label_ref).0
                (not-false _ label);
          quantity = ground arith;
          in_action =
              any_tag-Mem w.action_tags (p.commitment w.change_resource) (not-false _ found);
        },
    λ v.
        let small : ltb w.resource.quantity w.change_resource.quantity ≡ false =
          ground (arith, v.quantity) in
        rw (
          (law.digest_eq_iff w.change_resource.label_ref w.resource.label_ref).1 v.label_ref,
          small,
          Mem-any_tag w.action_tags (p.commitment w.change_resource) v.in_action,
        ),
  )
