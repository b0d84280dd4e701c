-- ===== src/Constrain/Consumed/Authority.antt =====
-- Who signed: an accepted spend carries valid signatures of K distinct keys of the policy.
use arm_multisig_application.Base.{
  ℕ, ◌+◌, ◌≤◌, ◌<◌, ◌≡◌, true, some, List, [], ◌∷◌, ok, zero, suc, length, get_elem?, All, Ordered,
  refl, ap, subst, arith,
}
use arm_multisig_application.Base.Bytes.{Bytes, bytes_lt}
use arm_multisig_application.Constrain.Consumed.{constrain_multisig_consumed}
use arm_multisig_application.Constrain.Consumed.Spec.{Ascending, AreSigners, Signed, signed_bytes}
use arm_multisig_application.Constrain.Consumed.Refinement.{constrain_sound}
use arm_multisig_application.Machine.{Build}
use arm_multisig_application.Platform.{Platform, IsLawful}
use arm_multisig_application.Sig.{verify_secp256k1}
use arm_multisig_application.Witness.{SignerSlot, MultisigConsumedWitness}
use mathlib.Core.List.{Mem, mem-cons}
use mathlib.Core.Logic.Or

get_elem?-mem : (xs : List Bytes) (i : ℕ) {x : Bytes} → get_elem? xs i ≡ some x → Mem x xs
get_elem?-mem [] i h = cc
get_elem?-mem (y ∷ ys) zero h = mem-cons.1 (Or.inl (cc))
get_elem?-mem (y ∷ ys) (suc i) h = mem-cons.1 (Or.inr (get_elem?-mem ys i h))

get_elem?-below :
    (y : Bytes) (xs : List Bytes) (i : ℕ) {x : Bytes}
    → All (λ z. bytes_lt y z ≡ true) xs
    → get_elem? xs i ≡ some x
    → bytes_lt y x ≡ true
get_elem?-below y [] i h e = cc
get_elem?-below y (z ∷ zs) zero (h, hs) e = ground arith
get_elem?-below y (z ∷ zs) (suc i) (h, hs) e = get_elem?-below y zs i hs e

-- In ascending keys a smaller index names a smaller key.
get_elem?-lt :
    (xs : List Bytes) (i j : ℕ) {x y : Bytes}
    → Ascending xs
    → i < j
    → get_elem? xs i ≡ some x
    → get_elem? xs j ≡ some y
    → bytes_lt x y ≡ true
get_elem?-lt [] i j asc lt ex ey = cc
get_elem?-lt (z ∷ zs) i zero asc lt ex ey = absurd (omega arith)
get_elem?-lt (z ∷ zs) zero (suc j) (below, _) lt ex ey =
    let first : bytes_lt z _ ≡ true = get_elem?-below z zs j below ey in ground arith
get_elem?-lt (z ∷ zs) (suc i) (suc j) (_, asc) lt ex ey =
    get_elem?-lt zs i j asc (omega arith) ex ey

-- A valid signature of `msg` by `key`.
abbrev pub SignedBy : (p : Platform) → Bytes → Bytes → Type 0
SignedBy p msg key = (sig_der : Bytes) × (verify_secp256k1 p key msg sig_der ≡ ok tt)

-- K different keys of the policy have signed `msg`.
pub record Quorum (p : Platform) (k : ℕ) (pubkeys : List Bytes) (msg : Bytes) : Type 0 where
  pub keys : List Bytes
  pub count : length keys ≡ k
  pub distinct : Ascending keys
  pub members : All (λ key. Mem key pubkeys) keys
  pub signed : All (SignedBy p msg) keys

module _ (p : Platform) (pubkeys : List Bytes) (msg : Bytes) (asc : Ascending pubkeys) where
  -- The keys of slots with increasing numbers ascend, and lie above the key of a smaller number.
  slots-Quorum :
      (slots : List SignerSlot)
      → All (Signed p pubkeys msg) slots
      → Ordered (λ s t. s.idx < t.idx) slots
      → (q : Quorum p (length slots) pubkeys msg) × ((x : Bytes) (i : ℕ)
          → get_elem? pubkeys i ≡ some x
          → All (λ s. i < s.idx) slots
          → All (λ y. bytes_lt x y ≡ true) q.keys)
  slots-Quorum [] h inc =
      (record { keys = []; count = refl; distinct = tt; members = tt; signed = tt }, λ x i e lt. tt)
  slots-Quorum (s ∷ slots) ((key, at, valid), hs) (later, inc) =
      let (q, above) = slots-Quorum slots hs inc in
      (
        record {
          keys = key ∷ q.keys;
          count = ap suc q.count;
          distinct = (above key s.idx at later, q.distinct);
          members = (get_elem?-mem pubkeys s.idx at, q.members);
          signed = ((s.sig_der, valid), q.signed);
        },
        λ x i e (lt, lts). (get_elem?-lt pubkeys i s.idx asc lt e at, above x i e lts),
      )

-- Increasing numbers from `lo` to below `n` are at most `n - lo`.
AreSigners-count :
    (n lo : ℕ) (slots : List SignerSlot)
    → lo ≤ n
    → AreSigners n slots
    → All (λ s. lo ≤ s.idx) slots
    → lo + length slots ≤ n
AreSigners-count n lo [] h v above = omega arith
AreSigners-count n lo (s ∷ slots) h v (here, _) =
    let (bound, in_range) = v.in_range in
    let (later, increasing) = v.increasing in
    omega (
      arith,
      AreSigners-count n (suc s.idx) slots bound
          (record { in_range = in_range; increasing = increasing }) later,
    )

All-zero-le : (slots : List SignerSlot) → All (λ s. 0 ≤ s.idx) slots
All-zero-le [] = tt
All-zero-le (s ∷ slots) = (omega arith, All-zero-le slots)

-- An accepted spend carries valid signatures, of the message that names its journal and its
-- recipients, by K different keys of the policy, for the K of the label; and K is at most N.
pub constrain_multisig_consumed-Quorum :
    (p : Platform) (b : Build) (w : MultisigConsumedWitness p) (forwarder : Bytes) {journal : Bytes}
    → IsLawful p
    → constrain_multisig_consumed p b w forwarder ≡ ok journal
    → Quorum p w.label_preimage.k w.pubkeys (p.sha256 (signed_bytes p w (p.sha256 journal)))
      × (w.label_preimage.k ≤ w.label_preimage.n)
constrain_multisig_consumed-Quorum p b w forwarder {journal} law h =
    let a = constrain_sound p law b w forwarder h in
    let msg = p.sha256 (signed_bytes p w (p.sha256 journal)) in
    let v = a.policy.signers in
    (
      subst (λ k. Quorum p k w.pubkeys msg) a.policy.signer_count
          (slots-Quorum p w.pubkeys msg a.policy.keys_ascend w.signatures a.sealed.signed
            v.increasing).0,
      omega (
        arith,
        a.policy.signer_count,
        AreSigners-count w.label_preimage.n 0 w.signatures (omega arith) v
            (All-zero-le w.signatures),
      ),
    )
