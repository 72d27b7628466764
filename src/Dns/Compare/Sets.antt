-- ===== src/Dns/Compare/Sets.antt =====
-- The comparison of answers is a comparison of sets (internal/dnscheck/compare.go).
use domains_checker_infomati.Base.{
  ◌≡◌, ◌↔◌, inl, inr, refl, sym, ap, subst, ◌∙◌, List, [], ◌∷◌, Option, true, false, ◌||◌, arith,
  Bool-cases,
}
use domains_checker_infomati.Base.Text.{Text, text_eq}
use domains_checker_infomati.Base.Texts.{
  has, Nub, has_same, text_eq_sound, text_eq_refl, text_eq_sym,
}
use domains_checker_infomati.Dns.Types.{QueryType, Answer}
use domains_checker_infomati.Dns.Compare.{
  text_lt, distinct, insert_sorted, sort, lists_eq, keys, canonical_values, equal_answer_sets,
}

text_lt_irrefl : (x : Text) → text_lt x x ≡ false
unfolding text_lt
text_lt_irrefl [] = refl
text_lt_irrefl (a ∷ x) = ground (arith, text_lt_irrefl x)

text_lt_trans : (x y z : Text) → text_lt x y ≡ true → text_lt y z ≡ true → text_lt x z ≡ true
unfolding text_lt
text_lt_trans x y [] h k = cc
text_lt_trans x [] (c ∷ z) h k = absurd (cc)
text_lt_trans [] (b ∷ y) (c ∷ z) h k = refl
text_lt_trans (a ∷ x) (b ∷ y) (c ∷ z) h k = ground (arith, text_lt_trans x y z)

text_lt-total : (x y : Text) → text_lt x y ≡ false → text_eq x y ≡ false → text_lt y x ≡ true
unfolding text_lt
text_lt-total [] [] h k = cc
text_lt-total [] (b ∷ y) h k = cc
text_lt-total (a ∷ x) [] h k = refl
text_lt-total (a ∷ x) (b ∷ y) h k = ground (arith, text_lt-total x y)

-- Strictly increasing lists.
abbrev Above : Text → List Text → Type 0
Above x [] = Unit {0}
Above x (y ∷ ys) = (text_lt x y ≡ true) × Above x ys

abbrev Strict : List Text → Type 0
Strict [] = Unit {0}
Strict (x ∷ xs) = Above x xs × Strict xs

Above-mono : (x y : Text) (ys : List Text) → text_lt x y ≡ true → Above y ys → Above x ys
Above-mono x y [] h a = tt
Above-mono x y (z ∷ ys) h a = (text_lt_trans x y z h a.0, Above-mono x y ys h a.1)

Above-has : (x y : Text) (ys : List Text) → Above x ys → has y ys ≡ true → text_lt x y ≡ true
Above-has x y [] a h = cc
Above-has x y (z ∷ ys) a h = ground (arith, text_eq_sound z y, Above-has x y ys a.1)

has-insert_sorted :
    (t x : Text) (ys : List Text) → has t (insert_sorted x ys) ≡ (text_eq x t || has t ys)
unfolding insert_sorted
has-insert_sorted t x [] = refl
has-insert_sorted t x (y ∷ ys) = ground (arith, has-insert_sorted t x ys)

Above-insert_sorted :
    (z x : Text) (ys : List Text) → text_lt z x ≡ true → Above z ys → Above z (insert_sorted x ys)
unfolding insert_sorted
Above-insert_sorted z x [] h a = (h, tt)
Above-insert_sorted z x (y ∷ ys) h a = ground (arith, Above-insert_sorted z x ys h a.1)

insert_sorted-Strict :
    (x : Text) (ys : List Text) → has x ys ≡ false → Strict ys → Strict (insert_sorted x ys)
unfolding insert_sorted
insert_sorted-Strict x [] h s = (tt, tt)
insert_sorted-Strict x (y ∷ ys) h s = elim (Bool-cases (text_lt y x)) [
  | inl below ↦
      rw below (Above-insert_sorted y x ys below s.0, insert_sorted-Strict x ys (ground arith) s.1)
  | inr above ↦
      let first : text_lt x y ≡ true = ground (arith, text_lt-total y x, text_eq_sym x y) in
      rw above ((first, Above-mono x y ys first s.0), s)
]

has-sort : (t : Text) (xs : List Text) → has t (sort xs) ≡ has t xs
unfolding sort
has-sort t [] = refl
has-sort t (x ∷ xs) = has-insert_sorted t x (sort xs) ∙ ap (λ b. text_eq x t || b) (has-sort t xs)

sort-Strict : (xs : List Text) → Nub xs → Strict (sort xs)
unfolding sort
sort-Strict [] n = tt
sort-Strict (x ∷ xs) n = insert_sorted-Strict x (sort xs) (has-sort x xs ∙ n.0) (sort-Strict xs n.1)

has-distinct : (t : Text) (xs : List Text) → has t (distinct xs) ≡ has t xs
unfolding distinct
has-distinct t [] = refl
has-distinct t (x ∷ xs) = elim (Bool-cases (has x (distinct xs))) [
  | inl again ↦ rw again (ground (arith, has-distinct t xs, has_same x t (distinct xs)))
  | inr new ↦ rw new (ap (λ b. text_eq x t || b) (has-distinct t xs))
]

distinct-Nub : (xs : List Text) → Nub (distinct xs)
unfolding distinct
distinct-Nub [] = tt
distinct-Nub (x ∷ xs) = ground (arith, distinct-Nub xs)

-- Strictly increasing lists with the same members are equal.
abbrev SameMembers : List Text → List Text → Type 0
SameMembers xs ys = (t : Text) → has t xs ≡ has t ys

heads_equal :
    (x y : Text) (xs ys : List Text)
    → Above x xs
    → Above y ys
    → SameMembers (x ∷ xs) (y ∷ ys)
    → text_eq x y ≡ true
heads_equal x y xs ys a b same = ground (
  arith,
  same x,
  same y,
  text_eq_refl x,
  text_eq_refl y,
  text_eq_sym x y,
  Above-has x y xs a,
  Above-has y x ys b,
  text_lt_trans x y x,
  text_lt_irrefl x,
)

Above-irrefl : (x : Text) (xs : List Text) → Above x xs → has x xs ≡ false
Above-irrefl x xs a = ground (arith, Above-has x x xs a, text_lt_irrefl x)

tails_same :
    (x : Text) (xs ys : List Text)
    → Above x xs
    → Above x ys
    → SameMembers (x ∷ xs) (x ∷ ys)
    → SameMembers xs ys
tails_same x xs ys a b same t =
    ground
      (arith, same t, has_same x t xs, has_same x t ys, Above-irrefl x xs a, Above-irrefl x ys b)

Strict-unique : (xs ys : List Text) → Strict xs → Strict ys → SameMembers xs ys → xs ≡ ys
Strict-unique [] [] s r same = refl
Strict-unique [] (y ∷ ys) s r same = ground (arith, same y, text_eq_refl y)
Strict-unique (x ∷ xs) [] s r same = ground (arith, same x, text_eq_refl x)
Strict-unique (x ∷ xs) (y ∷ ys) s r same =
    let e = text_eq_sound x y (heads_equal x y xs ys s.0 r.0 same) in
    let moved = subst (λ z. Above z ys × SameMembers (x ∷ xs) (z ∷ ys)) (sym e) (r.0, same) in
    let rest = Strict-unique xs ys s.1 r.1 (tails_same x xs ys s.0 moved.0 moved.1) in cc

lists_eq_sound : (xs ys : List Text) → lists_eq xs ys ≡ true → xs ≡ ys
lists_eq_sound [] [] h = refl
lists_eq_sound [] (y ∷ ys) h = cc
lists_eq_sound (x ∷ xs) [] h = cc
lists_eq_sound (x ∷ xs) (y ∷ ys) h = ground (arith, text_eq_sound x y, lists_eq_sound xs ys)

pub lists_eq_refl : (xs : List Text) → lists_eq xs xs ≡ true
lists_eq_refl [] = refl
lists_eq_refl (x ∷ xs) = ground (arith, text_eq_refl x, lists_eq_refl xs)

pub lists_eq_sym : (xs ys : List Text) → lists_eq xs ys ≡ lists_eq ys xs
lists_eq_sym [] [] = refl
lists_eq_sym [] (y ∷ ys) = refl
lists_eq_sym (x ∷ xs) [] = refl
lists_eq_sym (x ∷ xs) (y ∷ ys) = ground (arith, text_eq_sym x y, lists_eq_sym xs ys)

module _ (parse : Text → Option Text) where
  has-canonical_values :
      (t : QueryType) (answers : List Answer) (v : Text)
      → has v (canonical_values parse answers t) ≡ has v (keys parse t answers)
  unfolding canonical_values
  has-canonical_values t answers v =
      has-sort v (distinct (keys parse t answers)) ∙ has-distinct v (keys parse t answers)

  canonical_values-Strict :
      (t : QueryType) (answers : List Answer) → Strict (canonical_values parse answers t)
  unfolding canonical_values
  canonical_values-Strict t answers = sort-Strict _ (distinct-Nub (keys parse t answers))

  -- Two lists of answers compare as equal exactly if the answers that count for the query type have
  -- the same keys as a set: order and repetition make no difference.
  pub equal_answer_sets_iff :
      (left right : List Answer) (t : QueryType)
      → (equal_answer_sets parse left right t ≡ true)
        ↔ ((v : Text) → has v (keys parse t left) ≡ has v (keys parse t right))
  unfolding equal_answer_sets
  equal_answer_sets_iff left right t = (
    λ h v.
        sym (has-canonical_values t left v)
        ∙ (ap (has v) (lists_eq_sound _ _ h) ∙ has-canonical_values t right v),
    λ same.
        let e =
          Strict-unique (canonical_values parse left t) (canonical_values parse right t)
            (canonical_values-Strict t left) (canonical_values-Strict t right)
            (λ v.
              has-canonical_values t left v ∙ (same v ∙ sym (has-canonical_values t right v))) in
        rw e (lists_eq_refl (canonical_values parse right t)),
  )
