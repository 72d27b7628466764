-- ===== src/Base/Texts.antt =====
-- Lists of texts: membership as the code's maps and scans compute it, and lists without repetition.
use mathlib.Core.Path.{◌≡◌, refl, ap}
use mathlib.Core.Bool.{Bool, true, false, ◌||◌}
use mathlib.Core.List.{List, [], ◌∷◌, ◌++◌}
use native.Mathlib.Omega.{arith}
use domains_checker_infomati.Base.Text.{Text, text_eq}

abbrev pub has : Text → List Text → Bool
has t [] = false
has t (x ∷ xs) = text_eq x t || has t xs

-- Lists without repetition.
abbrev pub Nub : List Text → Type 0
Nub [] = Unit {0}
Nub (x ∷ xs) = (has x xs ≡ false) × Nub xs

pub text_eq_sound : (x y : Text) → text_eq x y ≡ true → x ≡ y
text_eq_sound [] [] h = refl
text_eq_sound [] (b ∷ y) h = cc
text_eq_sound (a ∷ x) [] h = cc
text_eq_sound (a ∷ x) (b ∷ y) h = ground (arith, text_eq_sound x y)

pub text_eq_refl : (x : Text) → text_eq x x ≡ true
text_eq_refl [] = refl
text_eq_refl (a ∷ x) = ground (arith, text_eq_refl x)

pub text_eq_sym : (x y : Text) → text_eq x y ≡ text_eq y x
text_eq_sym [] [] = refl
text_eq_sym [] (b ∷ y) = refl
text_eq_sym (a ∷ x) [] = refl
text_eq_sym (a ∷ x) (b ∷ y) = ground (arith, text_eq_sym x y)

pub has_same : (x y : Text) (xs : List Text) → text_eq x y ≡ true → has x xs ≡ has y xs
has_same x y xs e = ap (λ t. has t xs) (text_eq_sound x y e)

pub has-snoc : (t x : Text) (xs : List Text) → has t (xs ++ x ∷ []) ≡ (has t xs || text_eq x t)
has-snoc t x [] = ground arith
has-snoc t x (y ∷ ys) = ground (arith, has-snoc t x ys)

-- A list without repetition keeps so with a new text at its end.
pub Nub-snoc : (x : Text) (xs : List Text) → Nub xs → has x xs ≡ false → Nub (xs ++ x ∷ [])
Nub-snoc x [] h k = (refl, tt)
Nub-snoc x (y ∷ ys) h k =
    (ground (arith, has-snoc y x ys, text_eq_sym x y), Nub-snoc x ys h.1 (ground arith))
