-- ===== src/Spend/Multiset.antt =====
-- The recipients of a spend as the signers see them: a multiset of commitments, the lists of
-- commitments up to order.
use arm_multisig_application.Base.{◌≡◌, ◌↔◌, ◌∙◌, refl, sym, ap, subst, List, ok, ok_unique, All}
use arm_multisig_application.Base.Bytes.{Bytes}
use arm_multisig_application.Spend.{RecipientCommitments, sort, new, spend_preimage}
use arm_multisig_application.Spend.Injective.{IsDigest, spend_preimage_inj}
use arm_multisig_application.Spend.Message.{lists_of_bytes-set, sort-perm, sort-perm_eq}
use mathlib.Core.List.{Perm}
use mathlib.Core.Quot
use mathlib.Core.Quot.{Quot, Quot-set}

-- Lists of commitments up to order.
abbrev pub Multiset : Type 0
Multiset = Quot (Perm {A = Bytes})

abbrev pub multiset : List Bytes → Multiset
multiset xs = Quot.mk xs

-- The multiset's items in ascending order: sorting does not depend on the order it starts from.
abbrev pub sorted : Multiset → List Bytes
sorted = Quot.lift lists_of_bytes-set sort (λ xs ys h. sort-perm_eq h)

-- What `RecipientCommitments::new` makes of a multiset.
abbrev pub recipients_of : Multiset → RecipientCommitments
recipients_of m = record { commitments = sorted m }

multiset-sort : (xs : List Bytes) → multiset (sort xs) ≡ multiset xs
multiset-sort xs = Quot.sound (sort-perm xs)

-- Sorted items are the multiset's own.
multiset-sorted : (m : Multiset) → multiset (sorted m) ≡ m
multiset-sorted = Quot.ind (λ m. Quot-set _ _) multiset-sort

sorted_inj : (m n : Multiset) → sorted m ≡ sorted n → m ≡ n
sorted_inj m n h = sym (multiset-sorted m) ∙ ap multiset h ∙ multiset-sorted n

-- Sorting sorted items changes nothing.
sort-sorted : (m : Multiset) → sort (sorted m) ≡ sorted m
sort-sorted = Quot.ind (λ m. lists_of_bytes-set _ _) (λ xs. sort-perm_eq (sort-perm xs))

pub multiset_eq_iff : (xs ys : List Bytes) → (multiset xs ≡ multiset ys) ↔ (sort xs ≡ sort ys)
multiset_eq_iff xs ys = (λ h. ap sorted h, λ h. sorted_inj (multiset xs) (multiset ys) h)

-- `RecipientCommitments::new` forgets the order of the commitments and nothing else: it is a
-- function of their multiset, different multisets have different recipients, and the values that
-- come from a multiset are those whose commitments sorting leaves alone.
pub new-Multiset :
    ((xs : List Bytes) → new xs ≡ recipients_of (multiset xs))
    × ((m n : Multiset) → recipients_of m ≡ recipients_of n → m ≡ n)
    × ((rc : RecipientCommitments)
        → (sort rc.commitments ≡ rc.commitments) ↔ ((m : Multiset) × (recipients_of m ≡ rc)))
unfolding new
new-Multiset = (
  λ xs. refl,
  λ m n h. sorted_inj m n (ap (λ rc. rc.commitments) h),
  λ rc. (
    λ h. (multiset rc.commitments, ap (λ cs. record { commitments = cs }) h),
    λ (m, e). subst (λ r. sort r.commitments ≡ r.commitments) e (sort-sorted m),
  ),
)

-- Two spends whose journal digests and recipient commitments have 32 bytes, and whose signed bytes
-- `spend_message` can make, sign the same bytes exactly where the journal digests are equal and the
-- recipients are the same multiset.
pub spend_preimage-Multiset :
    {E : Type 0} (c d : Bytes) (xs ys : List Bytes) {bs cs : Bytes}
    → IsDigest c
    → IsDigest d
    → All IsDigest xs
    → All IsDigest ys
    → spend_preimage {E = E} c (new xs) ≡ ok bs
    → spend_preimage {E = E} d (new ys) ≡ ok cs
    → (bs ≡ cs) ↔ ((c ≡ d) × (multiset xs ≡ multiset ys))
unfolding new
spend_preimage-Multiset {E} c d xs ys {bs} {cs} hc hd hx hy h k = (
  λ same.
      let (digests, perm) =
        spend_preimage_inj c d xs ys hc hd hx hy h
          (subst (λ b. spend_preimage {E = E} d (new ys) ≡ ok b) (sym same) k) in
      (digests, Quot.sound perm),
  λ (digests, together).
      let sorts = (multiset_eq_iff xs ys).0 together in ok_unique (rw (digests, sorts) at h) k,
)
