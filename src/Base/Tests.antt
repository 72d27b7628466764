-- ===== src/Base/Tests.antt =====
-- Boolean tests on the native numbers, the conditional, and case splits that keep the equation.
use Prim.Native.Nat.{ℕ, ◌≤◌, ◌<◌, compare, Ordering}
use mathlib.Core.Path.{◌≡◌, refl, sym}
use mathlib.Core.Logic.{◌⊎◌, inl, inr}
use mathlib.Core.Bool.{Bool, true, false, not, ◌&&◌, ◌||◌, true≢false}
use mathlib.Core.Option.{Option, none, some}
use native.Mathlib.Omega.{arith}

abbrev pub ltb : ℕ → ℕ → Bool
ltb a b = elim (compare a b) [ Ordering.lt ↦ true | _ ↦ false ]

abbrev pub leb : ℕ → ℕ → Bool
leb a b = elim (compare a b) [ Ordering.gt ↦ false | _ ↦ true ]

infix 50 ◌==◌
abbrev pub ◌==◌ : ℕ → ℕ → Bool
a == b = elim (compare a b) [ Ordering.eq ↦ true | _ ↦ false ]

infix 1 if◌then◌else◌
abbrev pub if◌then◌else◌ {ℓ} : {A : Type ℓ} → Bool → A → A → A
if true then x else y = x
if false then x else y = y

pub ltb→lt : (a b : ℕ) → ltb a b ≡ true → a < b
ltb→lt a b h = ground arith

pub leb→le : (a b : ℕ) → leb a b ≡ true → a ≤ b
leb→le a b h = ground arith

pub ltb-false→le : (a b : ℕ) → ltb a b ≡ false → b ≤ a
ltb-false→le a b h = ground arith

pub Bool-cases : (b : Bool) → (b ≡ true) ⊎ (b ≡ false)
Bool-cases true = inl refl
Bool-cases false = inr refl

pub Option-cases {ℓ} : {A : Type ℓ} (o : Option A) → (o ≡ none) ⊎ ((a : A) × (o ≡ some a))
Option-cases none = inl refl
Option-cases (some a) = inr (a, refl)

abbrev pub is_some {ℓ} : {A : Type ℓ} → Option A → Bool
is_some none = false
is_some (some a) = true

pub not-false : (b : Bool) → not b ≡ false → b ≡ true
not-false true h = refl
not-false false h = absurd (true≢false h)

pub or_false : (a b : Bool) → (a || b) ≡ false → (a ≡ false) × (b ≡ false)
or_false true b h = absurd (true≢false h)
or_false false b h = (refl, h)

pub and_false : (a b : Bool) → (a && b) ≡ false → (a ≡ false) ⊎ (b ≡ false)
and_false true b h = inr h
and_false false b h = inl refl

pub not-true : (b : Bool) → b ≡ true → not b ≡ false
not-true true h = refl
not-true false h = sym h

pub or_intro : (a b : Bool) → a ≡ false → b ≡ false → (a || b) ≡ false
or_intro true b h k = h
or_intro false b h k = k

pub and_right : (a b : Bool) → (a && b) ≡ true → b ≡ true
and_right true b h = h
and_right false b h = absurd (true≢false (sym h))

-- Conditionals under a predicate: the branch that is taken, and the test that a predicate implies.
module _ {ℓ κ} {A : Type ℓ} (P : A → Type κ) where
  pub if_taken : (b : Bool) (x y : A) → b ≡ true → P x → P (if b then x else y)
  if_taken true x y e h = h
  if_taken false x y e h = absurd (true≢false (sym e))

  pub if_skipped : (b : Bool) (x y : A) → b ≡ false → P y → P (if b then x else y)
  if_skipped true x y e h = absurd (true≢false e)
  if_skipped false x y e h = h

  pub if_left : (b : Bool) (x y : A) → ¬ (P y) → P (if b then x else y) → (b ≡ true) × P x
  if_left true x y other h = (refl, h)
  if_left false x y other h = absurd (other h)

  pub if_right : (b : Bool) (x y : A) → ¬ (P x) → P (if b then x else y) → (b ≡ false) × P y
  if_right true x y other h = absurd (other h)
  if_right false x y other h = (refl, h)

  pub if_both : (b : Bool) (x y : A) → P x → P y → P (if b then x else y)
  if_both true x y h k = h
  if_both false x y h k = k

  -- As `if_both`, each branch with what the test then says.
  pub if_split :
      (b : Bool) (x y : A) → (b ≡ true → P x) → (b ≡ false → P y) → P (if b then x else y)
  if_split true x y h k = h refl
  if_split false x y h k = k refl

pub Sum-cases {ℓ κ} :
    {A : Type ℓ} {B : Type κ} (s : A ⊎ B) → ((a : A) × (s ≡ inl a)) ⊎ ((b : B) × (s ≡ inr b))
Sum-cases (inl a) = inl (a, refl)
Sum-cases (inr b) = inr (b, refl)
