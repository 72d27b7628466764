-- ===== src/Safedial/Pinned.antt =====
-- internal/safedial/pinned_resolver.go: a resolver with approved addresses for some hosts. The map is
-- a list of hosts with their addresses; a resolver gives addresses or the text of an error.
pub mod Approved
use Prim.Native.String.{◌++◌ as append}
use domains_checker_infomati.Base.{
  String, List, [], ◌∷◌, Option, none, some, Bool, true, false, ◌⊎◌, inl, inr, if◌then◌else◌,
}
use domains_checker_infomati.Base.Text.{Text, text_eq, to_lower, trim, trim_dot, is_empty}

abbrev pub key_of : Text → Text
key_of host = to_lower (trim_dot (trim host))

module _ {Address : Type 0} where
  abbrev pub find : Text → List (Text × List Address) → Option (List Address)
  find key [] = none
  find key ((host, values) ∷ hosts) = if text_eq host key then some values else find key hosts

  -- `LookupNetIP`; `shown` prints a host.
  unfoldable pub lookup_net_ip :
      (Text → String)
      → List (Text × List Address)
      → Option (Text → List Address ⊎ String)
      → Text
      → List Address ⊎ String
  lookup_net_ip shown hosts fallback host = elim (find (key_of host) hosts) [
    | some values ↦
        if is_empty values
        then inr (append "pinned resolver has no addresses for " (shown (key_of host)))
        else inl values
    | none ↦ elim fallback [
      | none ↦
          inr (append "host " (append (shown (key_of host)) " is not in the pinned resolver set"))
      | some lookup ↦ lookup host
    ]
  ]
