-- ===== src/Base/Outcome.antt =====
-- The result of a Go function that may fail: a value, or the text of its error.
use mathlib.Core.Path.{◌≡◌, refl, subst}
use mathlib.Core.Bool.{Bool, true, false}
use mathlib.Core.Option.{Option, none, some}
use mathlib.Core.Logic.{◌⊎◌, inl, inr}
use Prim.Native.String.{String}

pub data Outcome {ℓ} (A : Type ℓ) : Type ℓ where
  ok : A → Outcome A
  failed : String → Outcome A

-- The next statement runs on the value, an error is passed on.
infixl 5 ◌>>=◌ ◌>>◌
abbrev pub ◌>>=◌ {ℓ κ} :
    {A : Type ℓ} {B : Type κ} (m : Outcome A) (next : A → Outcome B) → Outcome B
m >>= next = elim m [ ok value ↦ next value | failed text ↦ failed text ]

abbrev pub ◌>>◌ {ℓ} : {B : Type ℓ} (check : Outcome (Unit {0})) (next : Outcome B) → Outcome B
check >> next = elim check [ ok passed ↦ next | failed text ↦ failed text ]

-- `if bad { return error }`.
abbrev pub reject : Bool → String → Outcome (Unit {0})
reject true e = failed e
reject false e = ok tt

-- `value, err := f()` with an error of the caller's own.
abbrev pub require {ℓ} : {A : Type ℓ} → Option A → String → Outcome A
require none e = failed e
require (some a) e = ok a

-- Whatever comes out has the property.
abbrev pub Ensures {ℓ κ} : {A : Type ℓ} → (A → Type κ) → Outcome A → Type κ
Ensures P (ok a) = P a
Ensures P (failed e) = Unit

pub >>=-Ensures {ℓ κ} :
    {A B : Type ℓ} (P : A → Type κ) (Q : B → Type κ) (m : Outcome A) (f : A → Outcome B)
    → Ensures P m
    → ((a : A) → P a → Ensures Q (f a))
    → Ensures Q (m >>= f)
>>=-Ensures P Q (ok a) f h k = k a h
>>=-Ensures P Q (failed e) f h k = tt

-- Where the whole succeeds, so does its first step.
pub bind_result {ℓ κ} :
    {A : Type ℓ} {B : Type κ} (m : Outcome A) (next : A → Outcome B) {result : B}
    → (m >>= next) ≡ ok result
    → (value : A) × (m ≡ ok value) × (next value ≡ ok result)
bind_result (ok value) next h = (value, refl, h)
bind_result (failed text) next h = cc

pub ok-Ensures {ℓ κ} :
    {A : Type ℓ} (P : A → Type κ) (m : Outcome A) {a : A} → Ensures P m → m ≡ ok a → P a
ok-Ensures P (ok b) h e = subst P (cc) h
ok-Ensures P (failed t) h e = absurd (cc e)

pub Outcome-cases {ℓ} :
    {A : Type ℓ} (m : Outcome A) → ((a : A) × (m ≡ ok a)) ⊎ ((e : String) × (m ≡ failed e))
Outcome-cases (ok a) = inl (a, refl)
Outcome-cases (failed e) = inr (e, refl)
