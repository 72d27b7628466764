-- ===== src/Domain/Normalize.antt =====
-- internal/domain/normalize.go: `Normalize` and its helpers on texts of code points. The parser of URLs
-- and of IP addresses, the conversions of IDNA and the public suffix list are parameters.
pub mod Names
pub mod Again
use domains_checker_infomati.Base.{
  ℕ, String, List, [], ◌∷◌, ◌++◌, Option, none, some, Bool, true, false, not, ◌&&◌, ◌||◌,
  if◌then◌else◌, ◌==◌, leb, ltb, str_eq, last?,
}
use domains_checker_infomati.Base.Text.{
  Text, codes, text_eq, to_lower, trim, trim_dot, is_empty, contains, split, byte_length,
}
use domains_checker_infomati.Base.Outcome.{Outcome, ok, failed, ◌>>=◌, ◌>>◌, reject, require}

pub record Normalized : Type 0 where
  pub original_input : Text
  pub ascii : Text
  pub unicode : Text
  pub registrable_domain : Text

-- What `extractHost` reads of a parsed URL.
pub record Url : Type 0 where
  pub scheme : String
  pub has_user : Bool
  pub has_port : Bool
  pub hostname : Text

-- The libraries that `Normalize` calls.
pub record Libraries : Type 0 where
  pub parse_url : Text → Option Url
  pub is_ip : Text → Bool
  pub to_ascii : Text → Option Text
  pub to_unicode : Text → Option Text
  pub public_suffix : Text → Text × Bool
  pub tld_plus_one : Text → Option Text

-- `unicode.IsControl`.
abbrev pub is_control : ℕ → Bool
is_control c = ltb c 0x20 || (leb 0x7f c && leb c 0x9f)

abbrev pub has_prefix : Text → Text → Bool
has_prefix [] s = true
has_prefix (p ∷ ps) [] = false
has_prefix (p ∷ ps) (c ∷ s) = p == c && has_prefix ps s

-- `strings.Contains(input, "://")`.
abbrev pub has_scheme : Text → Bool
has_scheme [] = false
has_scheme (c ∷ s) = has_prefix (codes "://") (c ∷ s) || has_scheme s

abbrev pub with_scheme : Text → Text
with_scheme input = if has_scheme input then input else codes "https://" ++ input

unfoldable pub extract_host : (Text → Option Url) → Text → Outcome Text
extract_host parse_url input = do
  url ← require (parse_url (with_scheme input)) "cannot parse input"
  reject (not (str_eq url.scheme "http") && not (str_eq url.scheme "https"))
      "only http and https URLs are accepted"
  reject url.has_user "URL credentials are not allowed"
  reject url.has_port "custom ports are not allowed"
  reject (is_empty url.hostname) "hostname is missing"
  ok url.hostname

-- `c` is a lower-case letter, a digit or a hyphen.
abbrev pub is_name_char : ℕ → Bool
is_name_char c = not ((ltb c b'a' || ltb b'z' c) && (ltb c b'0' || ltb b'9' c) && not (c == b'-'))

abbrev pub first_is_hyphen : Text → Bool
first_is_hyphen [] = false
first_is_hyphen (c ∷ s) = c == b'-'

abbrev pub last_is_hyphen : Text → Bool
last_is_hyphen s = elim (last? s) [ none ↦ false | some c ↦ c == b'-' ]

unfoldable pub check_label : Text → Outcome (Unit {0})
check_label label = do
  reject (is_empty label) "domain contains an empty label"
  reject (ltb 63 (byte_length label)) "domain label exceeds 63 bytes"
  reject (first_is_hyphen label || last_is_hyphen label)
      "domain label cannot start or end with a hyphen"
  reject (contains (λ c. not (is_name_char c)) label) "domain contains an invalid character"

unfoldable pub check_labels : List Text → Outcome (Unit {0})
check_labels [] = ok tt
check_labels (label ∷ labels) = check_label label >> check_labels labels

unfoldable pub validate_ascii_name : Text → Outcome (Unit {0})
validate_ascii_name name = do
  reject (ltb 253 (byte_length name)) "domain exceeds 253 bytes"
  let labels = split b'.' name
  reject (is_empty labels.1) "domain must contain a public suffix"
  check_labels (labels.0 ∷ labels.1)

-- `Normalize`; of a `ValidationError` the reason is kept, its field and its code are always the same.
unfoldable pub normalize : Libraries → Bool → Text → Outcome Normalized
normalize l allow_unknown_tld input = do
  let original = trim input
  reject (is_empty original) "value is required"
  reject (contains is_control original) "control characters are not allowed"
  host ← extract_host l.parse_url original
  let name = trim_dot (trim host)
  reject (is_empty name) "hostname is empty"
  reject (l.is_ip name) "IP literals are not domains"
  converted ← require (l.to_ascii name) "IDNA conversion failed"
  let ascii = to_lower (trim_dot converted)
  validate_ascii_name ascii
  let suffix = l.public_suffix ascii
  reject (is_empty suffix.0 || text_eq ascii suffix.0) "a registrable domain is required"
  reject (not suffix.1 && not allow_unknown_tld) "unknown or private public suffix"
  registrable ← require (l.tld_plus_one ascii) "cannot determine registrable domain"
  display ← require (l.to_unicode ascii) "cannot produce Unicode display form"
  ok (record {
    original_input = original;
    ascii = ascii;
    unicode = display;
    registrable_domain = registrable;
  })
