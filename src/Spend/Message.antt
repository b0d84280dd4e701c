-- ===== src/Spend/Message.antt =====
-- What `spend_message` hashes, and that it depends on the recipients only as a multiset.
use arm_multisig_application.Base.{
  ℕ, ◌+◌, ◌^◌, ◌<◌, ◌≡◌, ◌↔◌, ◌∙◌, refl, ap, ap₂, true, false, List, [], ◌∷◌, ◌++◌, ok, length,
  arith, Bool-cases, inl, inr, lt→ltb,
}
use arm_multisig_application.Base.Bytes.{
  Bytes, bytes_lt, bytes_lt_antisymm, bytes_lt_asymm, bytes_lt_trans,
}
use arm_multisig_application.Base.Words.{to_le_bytes}
use arm_multisig_application.Journal.Layout.{expect_u32-bind}
use arm_multisig_application.Label.Layout.{absorb-flatten}
use arm_multisig_application.Platform.{Platform}
use arm_multisig_application.Sig.{k_domain_sep}
use arm_multisig_application.Spend.{is_empty, insert, sort, new, spend_preimage, spend_message}
use mathlib.Core.List.{flatten, append_assoc, Perm, Permᴰ}
use mathlib.Core.Logic.{∥∥₁_elim}
use mathlib.Core.List.Perm
use native.Mathlib.Decide.{ℕ_discrete}

insert-perm : (x : Bytes) (xs : List Bytes) → Perm (insert x xs) (x ∷ xs)
unfolding insert
insert-perm x [] = Perm.rfl
insert-perm x (y ∷ ys) = elim (Bool-cases (bytes_lt y x)) [
  | inl e ↦ rw (e, insert) (Perm.trans (Perm.cons y (insert-perm x ys)) (Perm.swap x y ys))
  | inr e ↦ rw (e, insert) Perm.rfl
]

-- Sorting loses and invents nothing.
pub sort-perm : (xs : List Bytes) → Perm (sort xs) xs
unfolding sort
sort-perm [] = Perm.rfl
sort-perm (x ∷ xs) = Perm.trans (insert-perm x (sort xs)) (Perm.cons x (sort-perm xs))

-- Where `x` is not below `z`, and `z` is below `y`, `x` is below `y` or they would be in a cycle.
bytes_lt_of_le_of_lt :
    (x z y : Bytes) → bytes_lt z x ≡ false → bytes_lt z y ≡ true → bytes_lt x y ≡ true
bytes_lt_of_le_of_lt x z y h k = elim (Bool-cases (bytes_lt x z)) [
  | inl e ↦ bytes_lt_trans x z y e k
  | inr e ↦ rw (bytes_lt_antisymm x z e h) k
]

-- Inserting two items in either order gives the same list.
insert_comm : (x y : Bytes) (zs : List Bytes) → insert x (insert y zs) ≡ insert y (insert x zs)
unfolding insert
insert_comm x y [] = ground (arith, bytes_lt_antisymm x y, bytes_lt_asymm x y)
insert_comm x y (z ∷ zs) = ground (
  arith,
  insert_comm x y zs,
  bytes_lt_antisymm x y,
  bytes_lt_asymm x y,
  bytes_lt_of_le_of_lt x z y,
  bytes_lt_of_le_of_lt y z x,
)

sort-perm_eqᴰ : {xs ys : List Bytes} → Permᴰ xs ys → sort xs ≡ sort ys
unfolding sort
sort-perm_eqᴰ Permᴰ.nil = refl
sort-perm_eqᴰ (Permᴰ.cons e h) = ap₂ insert e (sort-perm_eqᴰ h)
sort-perm_eqᴰ (Permᴰ.swap {a} {b} {a'} {b'} {l} e k) = rw (e, k) (insert_comm b' a' (sort l))
sort-perm_eqᴰ (Permᴰ.trans h k) = sort-perm_eqᴰ h ∙ sort-perm_eqᴰ k

pub lists_of_bytes-set : IsSet (List Bytes)
lists_of_bytes-set = hlevel ℕ_discrete

-- Rearranging the commitments does not change the sorted list.
pub sort-perm_eq : {xs ys : List Bytes} → Perm xs ys → sort xs ≡ sort ys
sort-perm_eq h = ∥∥₁_elim h (lists_of_bytes-set _ _) sort-perm_eqᴰ

-- The signers sign the same message whatever the order of the recipients is.
pub spend_message-perm :
    {E : Type 0} (p : Platform) (digest : Bytes) {xs ys : List Bytes}
    → Perm xs ys
    → spend_message {E = E} p digest (new xs) ≡ spend_message p digest (new ys)
unfolding new
spend_message-perm p digest h = rw (sort-perm_eq h)

length-insert : (x : Bytes) (xs : List Bytes) → length (insert x xs) ≡ length xs + 1
unfolding insert
length-insert x [] = refl
length-insert x (y ∷ ys) = ground (arith, length-insert x ys)

pub length-sort : (xs : List Bytes) → length (sort xs) ≡ length xs
unfolding sort
length-sort [] = refl
length-sort (x ∷ xs) = omega (arith, length-insert x (sort xs), length-sort xs)

-- What the hasher takes in for `n` recipients with the sorted commitments `sorted`.
abbrev pub message_bytes : Bytes → ℕ → List Bytes → Bytes
message_bytes digest n sorted = k_domain_sep ++ (digest ++ (to_le_bytes n ++ flatten sorted))

module _ {E : Type 0} (digest : Bytes) (xs : List Bytes) where
  -- With fewer than 2 ^ 32 recipients the hasher takes in the domain, the journal digest, the
  -- number of recipients and their sorted commitments.
  pub spend_preimage-bytes :
      length xs < 2 ^ 32
      → spend_preimage {E = E} digest (new xs) ≡ ok (message_bytes digest (length xs) (sort xs))
  unfolding spend_preimage new
  spend_preimage-bytes h =
      rw (length-sort xs, lt→ltb _ _ h)
        (ap ok (
          absorb-flatten (k_domain_sep ++ (digest ++ to_le_bytes (length xs))) (sort xs)
          ∙ ap (λ bs. k_domain_sep ++ bs)
              (append_assoc digest (to_le_bytes (length xs)) (flatten (sort xs)))))

  pub spend_preimage-counted :
      {bs : Bytes} → spend_preimage {E = E} digest (new xs) ≡ ok bs → length xs < 2 ^ 32
  unfolding spend_preimage new
  spend_preimage-counted h =
      let (fits, _) = expect_u32-bind (length (sort xs)) _ h in omega (arith, length-sort xs)

is_empty-len : (xs : List Bytes) → (is_empty (record { commitments = xs }) ≡ true) ↔ (length xs ≡ 0)
unfolding is_empty
is_empty-len [] = (λ h. refl, λ h. refl)
is_empty-len (x ∷ xs) = (λ h. cc h, λ h. absurd (omega arith))

-- Sorting keeps the number of recipients, so that the count is 0 exactly for a spend without any.
pub is_empty-new : (xs : List Bytes) → (is_empty (new xs) ≡ true) ↔ (length xs ≡ 0)
unfolding new
is_empty-new xs = (
  λ h. omega (arith, length-sort xs, (is_empty-len (sort xs)).0 h),
  λ h. (is_empty-len (sort xs)).1 (length-sort xs ∙ h),
)
