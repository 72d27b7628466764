-- ===== src/Domain/Tests.antt =====
-- Names of domains, with small stand-ins for the libraries (internal/domain/normalize.go).
use domains_checker_infomati.Base.{List, [], ◌∷◌, Option, some, true, false, ◌≡◌, refl, ◌↔◌}
use domains_checker_infomati.Base.Text.{Text, codes, split, trim, trim_dot, lower, byte_length}
use domains_checker_infomati.Base.Outcome.{ok, failed}
use domains_checker_infomati.Domain.Normalize.{
  Normalized, Libraries, Url, normalize, extract_host, validate_ascii_name, check_labels,
  check_label,
}
use domains_checker_infomati.Domain.Normalize.Names.{IsName, validate_ascii_name_iff}

-- What follows "https://", up to a slash.
abbrev host_of : Text → Text
host_of (a ∷ b ∷ c ∷ d ∷ e ∷ f ∷ g ∷ h ∷ s) = s
host_of s = []

abbrev parse_url : Text → Option Url
parse_url raw =
    some (record { scheme = "https"; has_user = false; has_port = false; hostname = host_of raw })

abbrev last_label : Text → List Text → Text
last_label first [] = first
last_label first (label ∷ labels) = last_label label labels

abbrev libraries : Libraries
libraries = record {
  parse_url = parse_url;
  is_ip = λ s. false;
  to_ascii = λ s. some s;
  to_unicode = λ s. some s;
  public_suffix = λ s. (last_label (split b'.' s).0 (split b'.' s).1, true);
  tld_plus_one = λ s. some s;
}

abbrev result : Normalized
result = record {
  original_input = codes "Example.COM.";
  ascii = codes "example.com";
  unicode = codes "example.com";
  registrable_domain = codes "example.com";
}

normalized : normalize libraries false (codes "  Example.COM. ") ≡ ok result
unfolding normalize extract_host validate_ascii_name check_labels check_label trim trim_dot lower
    byte_length
normalized = refl

refused :
    normalize libraries false (codes "a-.com")
    ≡ failed "domain label cannot start or end with a hyphen"
unfolding normalize extract_host validate_ascii_name check_labels check_label trim trim_dot lower
    byte_length
refused = refl

validate_ascii_name_iff_example : (validate_ascii_name (codes "a.b") ≡ ok tt) ↔ IsName (codes "a.b")
validate_ascii_name_iff_example = validate_ascii_name_iff (codes "a.b")
