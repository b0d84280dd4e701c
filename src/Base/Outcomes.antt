-- ===== src/Base/Outcomes.antt =====
-- What a Rust call does: it returns a value, it returns an error (`Err`, or `None` of a parser,
-- whose error type has one value), or it panics.
use mathlib.Core.Path.{◌≡◌, refl}
use mathlib.Core.Logic.{◌≢◌, ◌⊎◌, inl, inr}
use mathlib.Core.Option.{Option, none, some}
use mathlib.Core.Bool.{Bool, true, false}

pub data Outcome {ℓ} (E A : Type ℓ) : Type ℓ where
  ok : A → Outcome E A
  err : E → Outcome E A
  panic : Outcome E A

-- `if bad { return Err(e) }`
abbrev pub reject_if : {E : Type 0} → Bool → E → Outcome E (Unit {0})
reject_if true e = err e
reject_if false e = ok tt

infixl 5 ◌>>=◌
-- `?` on a call, and then the rest of the body: an error or a panic ends it.
abbrev pub ◌>>=◌ {ℓ} : {E X Y : Type ℓ} → Outcome E X → (X → Outcome E Y) → Outcome E Y
panic >>= rest = panic
err reason >>= rest = err reason
ok x >>= rest = rest x

infixl 5 ◌>>◌
-- The same for a call whose value is dropped.
abbrev pub ◌>>◌ {ℓ} : {E X Y : Type ℓ} → Outcome E X → Outcome E Y → Outcome E Y
first >> rest = first >>= (λ _. rest)

-- `.ok_or(e)` and `.map_err(|_| e)`
abbrev pub ok_or {ℓ} : {D E A : Type ℓ} → Outcome D A → E → Outcome E A
ok_or (ok a) e = ok a
ok_or (err d) e = err e
ok_or panic e = panic

-- The same at an `Option`.
abbrev pub some_or {ℓ} : {E A : Type ℓ} → Option A → E → Outcome E A
some_or (some a) e = ok a
some_or none e = err e

-- `is_some()`
abbrev pub is_some {ℓ} : {A : Type ℓ} → Option A → Bool
is_some none = false
is_some (some a) = true

-- Where a body returned, its first call returned, and so did what follows it.
pub >>=-eq-ok {ℓ} :
    {E X Y : Type ℓ} (first : Outcome E X) (rest : X → Outcome E Y) {y : Y}
    → (first >>= rest) ≡ ok y
    → (x : X) × (first ≡ ok x) × (rest x ≡ ok y)
>>=-eq-ok panic rest returned = cc
>>=-eq-ok (err reason) rest returned = cc
>>=-eq-ok (ok x) rest returned = (x, refl, returned)

-- What a passed guard says, and the rest of the block.
pub reject_if-bind :
    {E A : Type 0} (b : Bool) (e : E) (m : Outcome E A) {a : A}
    → (reject_if b e >> m) ≡ ok a
    → (b ≡ false) × (m ≡ ok a)
reject_if-bind true e m h = cc
reject_if-bind false e m h = (refl, h)

pub reject_if-eq-ok : {E : Type 0} (b : Bool) (e : E) → reject_if b e ≡ ok tt → b ≡ false
reject_if-eq-ok true e h = cc
reject_if-eq-ok false e h = refl

pub ok_or-eq-ok : {D E A : Type 0} (m : Outcome D A) (e : E) {a : A} → ok_or m e ≡ ok a → m ≡ ok a
ok_or-eq-ok (ok x) e h = cc
ok_or-eq-ok (err d) e h = cc
ok_or-eq-ok panic e h = cc

pub some_or-eq-ok : {E A : Type 0} (o : Option A) (e : E) {a : A} → some_or o e ≡ ok a → o ≡ some a
some_or-eq-ok (some x) e h = cc
some_or-eq-ok none e h = cc

-- A call has one result.
pub ok_unique : {E A : Type 0} {m : Outcome E A} {x y : A} → m ≡ ok x → m ≡ ok y → x ≡ y
ok_unique h k = cc

-- A body does not panic where its first call does not, nor what follows a value of it.
pub >>=_returns :
    {E X Y : Type 0} (first : Outcome E X) (rest : X → Outcome E Y)
    → first ≢ panic
    → ((x : X) → first ≡ ok x → rest x ≢ panic)
    → (first >>= rest) ≢ panic
>>=_returns panic rest h k e = h refl
>>=_returns (err reason) rest h k e = cc e
>>=_returns (ok x) rest h k e = k x refl e

pub reject_if_returns : {E : Type 0} (b : Bool) (e : E) → reject_if b e ≢ panic
reject_if_returns true e h = cc h
reject_if_returns false e h = cc h

-- The same after a guard.
pub reject_if-bind_returns :
    {E A : Type 0} (b : Bool) (e : E) (m : Outcome E A)
    → (b ≡ false → m ≢ panic)
    → (reject_if b e >> m) ≢ panic
reject_if-bind_returns true e m h k = cc k
reject_if-bind_returns false e m h k = h refl k

pub some_or_returns : {E A : Type 0} (o : Option A) (e : E) → some_or o e ≢ panic
some_or_returns none e h = cc h
some_or_returns (some a) e h = cc h

pub ok_or_returns : {D E A : Type 0} (m : Outcome D A) (e : E) → m ≢ panic → ok_or m e ≢ panic
ok_or_returns panic e h k = h refl
ok_or_returns (ok a) e h k = cc k
ok_or_returns (err d) e h k = cc k

-- Bodies that go on alike from every value of the first call are alike.
pub >>=-congr :
    {E X Y : Type 0} (first : Outcome E X) {rest rest' : X → Outcome E Y}
    → ((x : X) → first ≡ ok x → rest x ≡ rest' x)
    → (first >>= rest) ≡ (first >>= rest')
>>=-congr panic h = refl
>>=-congr (err e) h = refl
>>=-congr (ok x) h = h x refl

pub reject_if-congr :
    {E A : Type 0} (b : Bool) (e : E) {m m' : Outcome E A}
    → (b ≡ false → m ≡ m')
    → (reject_if b e >> m) ≡ (reject_if b e >> m')
reject_if-congr true e h = refl
reject_if-congr false e h = h refl

pub >>=-assoc :
    {E X Y Z : Type 0} (first : Outcome E X) (second : X → Outcome E Y) (third : Y → Outcome E Z)
    → ((first >>= second) >>= third) ≡ (first >>= (λ x. second x >>= third))
>>=-assoc panic second third = refl
>>=-assoc (err e) second third = refl
>>=-assoc (ok x) second third = refl

-- A call that does not panic returns a value or an error.
pub returns-cases :
    {E X : Type 0} (m : Outcome E X) → m ≢ panic → ((x : X) × (m ≡ ok x)) ⊎ ((e : E) × (m ≡ err e))
returns-cases (ok x) h = inl (x, refl)
returns-cases (err e) h = inr (e, refl)
returns-cases panic h = absurd (h refl)
