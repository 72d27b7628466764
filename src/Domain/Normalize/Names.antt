-- ===== src/Domain/Normalize/Names.antt =====
-- The names that `validateASCIIName` of internal/domain/normalize.go accepts.
use domains_checker_infomati.Base.{
  ℕ, ◌≤◌, List, [], ◌∷◌, ◌++◌, false, not, ◌≡◌, ap, subst, ◌∙◌, ◌≢◌, ◌↔◌, ◌⊎◌, refl, All, arith,
}
use domains_checker_infomati.Base.Text.{Text, split, byte_length, contains, is_empty}
use domains_checker_infomati.Base.Outcome.{ok}
use domains_checker_infomati.Domain.Normalize.{
  is_name_char, check_label, check_labels, validate_ascii_name, first_is_hyphen, last_is_hyphen,
}

-- A lower-case letter, a digit or a hyphen.
abbrev pub NameChar : ℕ → Type 0
NameChar c = ((b'a' ≤ c) × (c ≤ b'z')) ⊎ (((b'0' ≤ c) × (c ≤ b'9')) ⊎ (c ≡ b'-'))

pub record IsLabel (label : Text) : Type 0 where
  pub nonempty : label ≢ []
  pub short : byte_length label ≤ 63
  pub plain : (first_is_hyphen label ≡ false) × (last_is_hyphen label ≡ false)
  pub characters : All NameChar label

-- The labels with a dot between them.
abbrev pub join : Text → List Text → Text
join first [] = first
join first (label ∷ labels) = first ++ b'.' ∷ join label labels

-- A host name: two labels or more, at most 253 bytes.
pub record IsName (name : Text) : Type 0 where
  pub first : Text
  pub labels : List Text
  pub joined : join first labels ≡ name
  pub short : byte_length name ≤ 253
  pub several : labels ≢ []
  pub each : All IsLabel (first ∷ labels)

contains_iff :
    (label : Text) → (contains (λ c. not (is_name_char c)) label ≡ false) ↔ All NameChar label
contains_iff [] = (λ h. tt, λ h. refl)
contains_iff (c ∷ s) = (
  λ h. (ground arith, (contains_iff s).0 (ground arith)),
  λ h. let rest = (contains_iff s).1 h.1 in let head : NameChar c = h.0 in ground arith,
)

is_empty_iff : {A : Type 0} (xs : List A) → (is_empty xs ≡ false) ↔ (xs ≢ [])
is_empty_iff [] = (λ h. cc, λ h. absurd (h refl))
is_empty_iff (x ∷ xs) = (λ h e. cc, λ h. refl)

check_label_iff : (label : Text) → (check_label label ≡ ok tt) ↔ IsLabel label
unfolding check_label
check_label_iff label = (
  λ h. record {
    nonempty = (is_empty_iff label).0 (ground arith);
    short = ground arith;
    plain = ground arith;
    characters = (contains_iff label).0 (ground arith);
  },
  λ v.
      let full = (is_empty_iff label).1 v.nonempty in
      let clean = (contains_iff label).1 v.characters in ground arith,
)

check_labels_iff : (labels : List Text) → (check_labels labels ≡ ok tt) ↔ All IsLabel labels
unfolding check_labels
check_labels_iff [] = (λ h. tt, λ h. refl)
check_labels_iff (label ∷ labels) = (
  λ h. ((check_label_iff label).0 (ground arith), (check_labels_iff labels).0 (ground arith)),
  λ v.
      let head = (check_label_iff label).1 v.0 in
      let rest = (check_labels_iff labels).1 v.1 in ground arith,
)

join_cons :
    (c : ℕ) (first : Text) (labels : List Text) → join (c ∷ first) labels ≡ c ∷ join first labels
join_cons c first [] = refl
join_cons c first (label ∷ labels) = refl

join-split : (s : Text) → join (split b'.' s).0 (split b'.' s).1 ≡ s
join-split [] = refl
join-split (c ∷ s) = ground (arith, join-split s, join_cons c (split b'.' s).0 (split b'.' s).1)

-- A label holds no dot, so splitting takes joined labels apart again.
split_plain : (label : Text) → All NameChar label → split b'.' label ≡ (label, [])
split_plain [] h = refl
split_plain (c ∷ s) h = let head : NameChar c = h.0 in ground (arith, split_plain s h.1)

split_append :
    (label rest : Text)
    → All NameChar label
    → split b'.' (label ++ b'.' ∷ rest) ≡ (label, (split b'.' rest).0 ∷ (split b'.' rest).1)
split_append [] rest h = refl
split_append (c ∷ s) rest h = let head : NameChar c = h.0 in ground (arith, split_append s rest h.1)

pub split-join :
    (first : Text) (labels : List Text)
    → All IsLabel (first ∷ labels)
    → split b'.' (join first labels) ≡ (first, labels)
split-join first [] h = split_plain first h.0.characters
split-join first (label ∷ labels) h =
    split_append first (join label labels) h.0.characters
    ∙ ap (λ (r : Text × List Text). (first, r.0 ∷ r.1)) (split-join label labels h.1)

-- `validateASCIIName` accepts exactly the host names: at least two labels joined by dots, at most 253
-- bytes together, each label of 1 to 63 lower-case letters, digits and hyphens with no hyphen at an end.
pub validate_ascii_name_iff : (name : Text) → (validate_ascii_name name ≡ ok tt) ↔ IsName name
unfolding validate_ascii_name
validate_ascii_name_iff name = (
  λ h. record {
    first = (split b'.' name).0;
    labels = (split b'.' name).1;
    joined = join-split name;
    short = ground arith;
    several = (is_empty_iff (split b'.' name).1).0 (ground arith);
    each = (check_labels_iff ((split b'.' name).0 ∷ (split b'.' name).1)).0 (ground arith);
  },
  λ v.
      let parts : split b'.' name ≡ (v.first, v.labels) =
        subst (λ n. split b'.' n ≡ (v.first, v.labels)) v.joined
          (split-join v.first v.labels v.each) in
      let several = (is_empty_iff v.labels).1 v.several in
      let each = (check_labels_iff (v.first ∷ v.labels)).1 v.each in ground (arith, v.short),
)
