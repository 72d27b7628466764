-- ===== src/Config/Env.antt =====
-- Reading one setting of the environment (internal/config/config.go). `getenv` is `os.Getenv`; the
-- parser of durations is the standard library's.
use Prim.Native.String.{◌++◌ as append}
use domains_checker_infomati.Base.{
  ℕ, String, Option, none, some, Bool, true, false, if◌then◌else◌, str_eq, ◌-◌, ◌%◌, ◌^◌, ltb, [],
  ◌∷◌, has_text,
}
use domains_checker_infomati.Base.Int.{ℤ, pos, negsuc, leb_ℤ}
use domains_checker_infomati.Base.Text.{codes, trim_space}
use domains_checker_infomati.Base.Digits.{atoi}
use domains_checker_infomati.Base.Outcome.{Outcome, ok, failed}

-- `int32(value)` of an int.
unfoldable pub int32 : ℤ → ℤ
int32 (pos n) = let m = n % 2 ^ 32 in if ltb m (2 ^ 31) then pos m else negsuc (2 ^ 32 - m - 1)
int32 (negsuc n) = let m = n % 2 ^ 32 in if ltb m (2 ^ 31) then negsuc m else pos (2 ^ 32 - 1 - m)

-- `strconv.ParseBool`.
parse_go_bool : String → Option Bool
parse_go_bool s =
    if has_text s ("1" ∷ "t" ∷ "T" ∷ "TRUE" ∷ "true" ∷ "True" ∷ [])
    then some true
    else if has_text s ("0" ∷ "f" ∷ "F" ∷ "FALSE" ∷ "false" ∷ "False" ∷ [])
    then some false
    else none

module _ (getenv : String → String) (parse_go_duration : String → Option ℤ) where
  unfoldable pub env : String → String → String
  env key fallback =
      let value = trim_space (getenv key) in if str_eq value "" then fallback else value

  unfoldable pub parse_int : String → ℤ → Outcome ℤ
  parse_int key fallback =
      let raw = trim_space (getenv key) in
      if str_eq raw "" then ok fallback else elim (atoi (codes raw)) [
        | none ↦ failed (append key " must be an integer")
        | some value ↦ ok value
      ]

  unfoldable pub parse_bool : String → Bool → Outcome Bool
  unfolding parse_go_bool
  parse_bool key fallback =
      let raw = trim_space (getenv key) in
      if str_eq raw "" then ok fallback else elim (parse_go_bool raw) [
        | none ↦ failed (append key " must be true or false")
        | some value ↦ ok value
      ]

  unfoldable pub parse_duration : String → ℕ → Outcome ℤ
  parse_duration key fallback =
      let raw = trim_space (getenv key) in
      if str_eq raw "" then ok (pos fallback) else elim (parse_go_duration raw) [
        | none ↦ failed (append key " must be a Go duration")
        | some value ↦
            if leb_ℤ value (pos 0) then failed (append key " must be positive") else ok value
      ]
