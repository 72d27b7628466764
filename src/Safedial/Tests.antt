-- ===== src/Safedial/Tests.antt =====
-- A dial by example: addresses are numbers, those below 10 are private.
use domains_checker_infomati.Base.{
  ℕ, ◌≡◌, ◌⊎◌, inl, inr, refl, String, List, [], ◌∷◌, Option, none, some, Bool, true, false, ◌==◌,
  ltb, if◌then◌else◌,
}
use domains_checker_infomati.Base.Text.{Text, codes, trim, trim_dot, lower}
use domains_checker_infomati.Safedial.Pinned.{find, key_of, lookup_net_ip}
use domains_checker_infomati.Netcheck.{Failure, ContextState}
use domains_checker_infomati.Safedial.Dialer.{
  Dial, Traits, dial_context, dial_port, dial_all, dial_from, resolve, first_error, validate,
  refused, unique_addresses,
}
use domains_checker_infomati.Safedial.Dialer.Validated.{Checked, dial_context-Safe}

abbrev same : ℕ → ℕ → Bool
same a b = a == b

abbrev traits : ℕ → Traits
traits a = record {
  is_valid = true;
  is_global_unicast = true;
  is_private = ltb a 10;
  is_loopback = false;
  is_link_local_unicast = false;
  is_link_local_multicast = false;
  is_multicast = false;
  is_unspecified = false;
  text = "address";
}

abbrev unreachable : Failure
unreachable = record {
  check = none;
  canceled = false;
  deadline_exceeded = false;
  refused = true;
  reset = false;
  broken_pipe = false;
  net_timeout = false;
  op_temporary = none;
  syscall = true;
  text = "connection refused";
}

-- Only the address 20 accepts connections.
abbrev connect : ℕ → String ⊎ Failure
connect a = if a == 20 then inl "connection" else inr unreachable

abbrev unmap : ℕ → ℕ
unmap a = a

abbrev split : String → (Text × String) ⊎ String
split address = inl (codes "a.example", "443")

abbrev number : String → ℕ ⊎ String
number raw = inl 443

abbrev parse : Text → Option ℕ
parse host = none

abbrev public_only : Text → List ℕ ⊎ Failure
public_only host = inl (19 ∷ 20 ∷ 19 ∷ [])

abbrev mixed : Text → List ℕ ⊎ Failure
mixed host = inl (20 ∷ 7 ∷ [])

abbrev standard_port : ℕ → Bool
standard_port port = port == 443

abbrev shown : Text → String
shown host = "a.example"

abbrev decimal : ℕ → String
decimal n = "443"

abbrev dial : (Text → List ℕ ⊎ Failure) → Dial ℕ String
dial lookup =
    dial_context same traits connect ContextState.live unmap split number parse lookup standard_port
      [] [] shown decimal unreachable "tcp" "a.example:443"

two_attempts : (dial public_only).attempts ≡ 19 ∷ 20 ∷ []
unfolding dial_context dial_port dial_all dial_from resolve first_error validate unique_addresses
    trim trim_dot
two_attempts = refl

-- One private address among the resolved ones stops the dial.
no_attempt : (dial mixed).attempts ≡ []
unfolding dial_context dial_port dial_all dial_from resolve first_error validate refused
    unique_addresses trim trim_dot
no_attempt = refl

dial_context-Safe_example :
    Checked same traits connect ContextState.live unmap split number parse public_only standard_port
      [] [] shown decimal unreachable "a.example:443"
      (dial public_only)
dial_context-Safe_example =
    dial_context-Safe same traits connect ContextState.live unmap split number parse public_only
      standard_port [] [] shown decimal unreachable "tcp" "a.example:443"

-- One pinned host.
abbrev approved : List ℕ
approved = 20 ∷ []

abbrev pinned : List (Text × List ℕ)
pinned = (codes "a.example", approved) ∷ []

pinned_found : lookup_net_ip shown pinned none (codes " A.example.") ≡ inl approved
unfolding lookup_net_ip trim trim_dot lower
pinned_found = refl

pinned_key : find (key_of (codes " A.example.")) pinned ≡ some approved
unfolding trim trim_dot lower
pinned_key = refl
