-- ===== src/Prelude/Results.antt =====
-- The result of a contract call: a value, or a panic with its message. A panic aborts the call and
-- the state is what it was before it, so the state is part of the value.
use mathlib.Core.Path.{◌≡◌, refl, subst}
use mathlib.Core.Logic.{◌⊎◌, inl, inr}
use mathlib.Core.Bool.{Bool, true, false}
use mathlib.Core.Option.{Option, none, some}
use cheddar.Prelude.Tests.{if◌then◌else◌}
use Prim.Native.String.{String}

pub data Result {ℓ} (A : Type ℓ) : Type ℓ where
  panic : String → Result A
  ok : A → Result A

-- The rest of a call runs on the value of its first part, or not at all.
infixl 5 ◌>>=◌ ◌>>◌
abbrev pub ◌>>=◌ {ℓ κ} : {A : Type ℓ} {B : Type κ} → Result A → (A → Result B) → Result B
panic message >>= rest = panic message
ok value >>= rest = rest value

abbrev pub ◌>>◌ {ℓ} : {B : Type ℓ} → Result (Unit {0}) → Result B → Result B
check >> rest = check >>= λ _. rest

-- `assert!(b, message)`
abbrev pub assert : Bool → String → Result (Unit {0})
assert true message = ok tt
assert false message = panic message

-- `o.expect(message)`
abbrev pub expect {ℓ} : {A : Type ℓ} → Option A → String → Result A
expect none message = panic message
expect (some a) message = ok a

pub Result-cases {ℓ} :
    {A : Type ℓ} (r : Result A) → ((a : A) × (r ≡ ok a)) ⊎ ((e : String) × (r ≡ panic e))
Result-cases (ok a) = inl (a, refl)
Result-cases (panic e) = inr (e, refl)

-- What holds of the value, where there is one.
abbrev pub Ensures {ℓ κ} : {A : Type ℓ} → (A → Type κ) → Result A → Type κ
Ensures P (ok a) = P a
Ensures P (panic e) = Unit

pub Ensures-intro {ℓ κ} :
    {A : Type ℓ} (P : A → Type κ) (r : Result A) → ((a : A) → r ≡ ok a → P a) → Ensures P r
Ensures-intro P (ok a) h = h a refl
Ensures-intro P (panic e) h = tt

-- What holds of the rest of a call on every value of its first part holds of the whole.
pub Ensures-bind {ℓ κ μ} :
    {A : Type ℓ} {B : Type κ} (P : B → Type μ) (r : Result A) (f : A → Result B)
    → ((a : A) → r ≡ ok a → Ensures P (f a))
    → Ensures P (r >>= f)
Ensures-bind P (ok a) f h = h a refl
Ensures-bind P (panic e) f h = tt

pub Ensures-if {ℓ κ} :
    {A : Type ℓ} (P : A → Type κ) (b : Bool) (r s : Result A)
    → (b ≡ true → Ensures P r)
    → (b ≡ false → Ensures P s)
    → Ensures P (if b then r else s)
Ensures-if P true r s h k = h refl
Ensures-if P false r s h k = k refl

pub Ensures-at {ℓ κ} :
    {A : Type ℓ} (P : A → Type κ) (r : Result A) {a : A} → Ensures P r → r ≡ ok a → P a
Ensures-at P r {a} h e = subst (Ensures P) e h
