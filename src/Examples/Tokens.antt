-- ===== src/Examples/Tokens.antt =====
-- Tokens that are tables of balances, and that approve every transfer which the payer can pay.
use arm_multisig_application.Base.{
  ℕ, ◌+◌, ◌-◌, ◌≤◌, ◌≡◌, refl, sym, subst, Bool, true, false, Option, some, none, leb,
  if◌then◌else◌, arith,
}
use arm_multisig_application.Base.Bytes.{Bytes, bytes_eq, bytes_eq_refl, ne→bytes_eq}
use arm_multisig_application.Contracts.Erc20.{Erc20, Moves, IsStandard}
use arm_multisig_application.Contracts.Settlement.{Others, Spares}

-- What each holder has of each token.
abbrev pub Balances : Type 0
Balances = Bytes → Bytes → ℕ

unfoldable pub moved : Balances → Bytes → Bytes → Bytes → ℕ → Balances
moved s token from to amount tk holder =
    if bytes_eq from to
    then s tk holder
    else if bytes_eq tk token
    then if bytes_eq holder from
      then s tk holder - amount
      else if bytes_eq holder to
      then s tk holder + amount
      else s tk holder
    else s tk holder

unfoldable pub move : Balances → Bytes → Bytes → Bytes → ℕ → Option Balances
move s token from to amount =
    if leb amount (s token from) then some (moved s token from to amount) else none

abbrev pub tokens : Erc20
tokens = record {
  State = Balances;
  balance_of = λ s token holder. s token holder;
  safe_transfer = move;
  safe_transfer_from = λ s token caller from to amount. move s token from to amount;
}

move-eq-some :
    (s t : Balances) (token from to : Bytes) (amount : ℕ)
    → move s token from to amount ≡ some t
    → (amount ≤ s token from) × (moved s token from to amount ≡ t)
unfolding move
move-eq-some s t token from to amount h = ground arith

either : (b : Bool) (n : ℕ) → (if b then n else n) ≡ n
either true n = refl
either false n = refl

moved-Moves :
    (s : Balances) (token from to : Bytes) (amount : ℕ)
    → amount ≤ s token from
    → Moves tokens token from to amount s (moved s token from to amount)
unfolding moved
moved-Moves s token from to amount le = record {
  pays = λ ne. rw (ne→bytes_eq from to ne, bytes_eq_refl token, bytes_eq_refl from) (omega arith);
  receives = λ ne.
      rw
        (
          ne→bytes_eq from to ne,
          bytes_eq_refl token,
          ne→bytes_eq to from (λ e. ne (sym e)),
          bytes_eq_refl to,
        )
        refl;
  to_itself = λ e. rw e (rw (bytes_eq_refl to) refl);
  others = λ holder nf nt.
      rw (ne→bytes_eq holder from nf, ne→bytes_eq holder to nt, bytes_eq_refl token)
        (either (bytes_eq from to) (s token holder));
}

move-Moves :
    (s t : Balances) (token from to : Bytes) (amount : ℕ)
    → move s token from to amount ≡ some t
    → Moves tokens token from to amount s t
move-Moves s t token from to amount h =
    let (le, same) = move-eq-some s t token from to amount h in
    subst (Moves tokens token from to amount s) same (moved-Moves s token from to amount le)

pub tokens-IsStandard : (token : Bytes) → IsStandard tokens token
tokens-IsStandard token = record {
  transfer = λ s t caller to amount h. move-Moves s t token caller to amount h;
  transfer_from = λ s t caller from to amount h. move-Moves s t token from to amount h;
}

-- Other contracts that move no tokens.
abbrev pub idle : Others tokens
idle target logic_ref input s t out = t ≡ s

pub idle-Spares : (token this : Bytes) → Spares tokens idle token this
idle-Spares token this target logic_ref input s t out apart same = rw same (omega arith)
