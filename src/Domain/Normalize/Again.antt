-- ===== src/Domain/Normalize/Again.antt =====
-- A normalized name normalizes to itself (internal/domain/normalize.go).
use domains_checker_infomati.Base.{ℕ, List, [], ◌∷◌, ◌++◌, some, Bool, true, false, ◌||◌, ◌≡◌, ◌⊎◌}
use domains_checker_infomati.Base.Text.{
  Text, codes, trim, trim_dot, is_empty, contains, to_lower, text_eq,
}
use domains_checker_infomati.Base.Outcome.{ok}
use domains_checker_infomati.Domain.Normalize.{
  Normalized, Libraries, has_scheme, is_control, validate_ascii_name,
}
use domains_checker_infomati.Domain.Normalize.Names.{NameChar, IsName}

abbrev HostChar : ℕ → Type 0
HostChar c = NameChar c ⊎ (c ≡ b'.')

abbrev has_empty : List Text → Bool
has_empty [] = false
has_empty (s ∷ ss) = is_empty s || has_empty ss

-- What a successful normalization has passed.
pub record IsNormalized (l : Libraries) (allow_unknown_tld : Bool) (n : Normalized) : Type 0 where
  pub valid : validate_ascii_name n.ascii ≡ ok tt
  pub suffix :
      (is_empty (l.public_suffix n.ascii).0 ≡ false)
      × (text_eq n.ascii (l.public_suffix n.ascii).0 ≡ false)
  pub known : ((l.public_suffix n.ascii).1 || allow_unknown_tld) ≡ true
  pub registrable : l.tld_plus_one n.ascii ≡ some n.registrable_domain
  pub display : l.to_unicode n.ascii ≡ some n.unicode

-- The libraries leave a host name that is in normal form alone.
pub record IsStable (l : Libraries) : Type 0 where
  pub parsed :
      (name : Text)
      → IsName name
      → l.parse_url (codes "https://" ++ name)
        ≡ some (record { scheme = "https"; has_user = false; has_port = false; hostname = name })
  pub kept : (name : Text) → IsName name → l.to_ascii name ≡ some name

-- What `Normalize` reads of a host name.
record Reads (name : Text) : Type 0 where
  trimmed : trim name ≡ name
  full : is_empty name ≡ false
  printed : contains is_control name ≡ false
  bare : has_scheme name ≡ false
  dotless : trim_dot name ≡ name
  lowered : to_lower name ≡ name
