-- ===== src/Safedial/Dialer.antt =====
-- internal/safedial/dialer.go, pinned_resolver.go. An address (`netip.Addr`, unmapped) is any type
-- with an equality test; what the standard library says of it is a parameter, as is what a connection
-- to it gives.
pub mod Validated
use Prim.Native.String.{◌++◌ as append}
use domains_checker_infomati.Base.{
  ℕ, map, String, List, [], ◌∷◌, Option, none, some, Bool, true, false, not, ◌&&◌, ◌||◌,
  if◌then◌else◌, ltb, leb, ◌⊎◌, inl, inr, ◌==◌, str_eq,
}
use domains_checker_infomati.Base.Text.{Text, is_empty, text_eq, to_lower, trim, trim_dot}
use domains_checker_infomati.Base.Int.{ℤ, pos, leb_ℤ}
use domains_checker_infomati.Netcheck.{Code, Error, Failure, ContextState, new, classify_tcp}

-- A value, or an error.
pub data Outcome {ℓ} (A : Type ℓ) : Type ℓ where
  done : A → Outcome A
  fail : Error → Outcome A

-- A dial: the attempts at a connection in their order, and what they gave.
pub record Dial (Address : Type 0) (Connection : Type 0) : Type 0 where
  pub attempts : List Address
  pub result : Outcome Connection

-- What `netip` says of an address.
pub record Traits : Type 0 where
  pub is_valid : Bool
  pub is_global_unicast : Bool
  pub is_private : Bool
  pub is_loopback : Bool
  pub is_link_local_unicast : Bool
  pub is_link_local_multicast : Bool
  pub is_multicast : Bool
  pub is_unspecified : Bool
  pub text : String

module _ {Address : Type 0} (same : Address → Address → Bool) (traits : Address → Traits) where
  -- A prefix is its test `Contains`.
  abbrev pub any_contains : List (Address → Bool) → Address → Bool
  any_contains [] address = false
  any_contains (p ∷ ps) address = p address || any_contains ps address

  unfoldable pub blocked : Address → Error
  unfolding new
  blocked address =
      new Code.ssrf_blocked_address "tcp" "validate target" false
        (some (append "address " (append (traits address).text " is blocked by policy")))

  -- `validate`; `blocked_prefixes` is the table of the package.
  unfoldable pub validate : List (Address → Bool) → List (Address → Bool) → Address → Option Error
  validate allowed blocked_prefixes address =
      let t = traits address in
      if any_contains allowed address
      then none
      else if not t.is_valid
          || not t.is_global_unicast
          || t.is_private
          || t.is_loopback
          || t.is_link_local_unicast
          || t.is_link_local_multicast
          || t.is_multicast
          || t.is_unspecified
      then some (blocked address)
      else if any_contains blocked_prefixes address
      then some (blocked address)
      else none

  abbrev pub member : Address → List Address → Bool
  member address [] = false
  member address (x ∷ xs) = same x address || member address xs

  -- The loop of `resolve` that keeps the first of equal addresses.
  unfoldable pub unique_addresses : List Address → List Address → List Address
  unique_addresses seen [] = []
  unique_addresses seen (x ∷ xs) =
      let skipped = unique_addresses seen xs in
      let kept = unique_addresses (x ∷ seen) xs in if member x seen then skipped else x ∷ kept

  -- The first error of the validation.
  unfoldable pub first_error : (Address → Option Error) → List Address → Option Error
  first_error check [] = none
  first_error check (x ∷ xs) =
      let rest = first_error check xs in elim (check x) [ some e ↦ some e | none ↦ rest ]

  module _ {Connection : Type 0} (connect : Address → Connection ⊎ Failure)
      (ctx : ContextState) where
    -- The loop over the candidates; `last` is the last error so far.
    unfoldable pub dial_from : String → Failure → List Address → Dial Address Connection
    dial_from host last [] = record {
      attempts = [];
      result = Outcome.fail (classify_tcp ctx (append "dial " host) last);
    }
    dial_from host last (x ∷ xs) = elim (connect x) [
      | inl connection ↦ record { attempts = x ∷ []; result = Outcome.done connection }
      | inr failure ↦
          let d = dial_from host failure xs in
          record { attempts = x ∷ d.attempts; result = d.result }
    ]

    -- `DialContext`. `split` is `net.SplitHostPort` and `number` `strconv.ParseUint`, which give the
    -- text of an error; `parse` is `netip.ParseAddr`, `lookup` the resolver's `LookupNetIP`.
    module _ (unmap : Address → Address) (split : String → (Text × String) ⊎ String)
        (number : String → ℕ ⊎ String) (parse : Text → Option Address)
        (lookup : Text → List Address ⊎ Failure) (allowed_port : ℕ → Bool)
        (allowed : List (Address → Bool)) (blocked_prefixes : List (Address → Bool))
        (shown : Text → String) (decimal : ℕ → String) (no_failure : Failure) where
      -- `resolve`, with an error that is not one of the program's as `DialContext` wraps it.
      unfoldable pub resolve : Text → Outcome (List Address)
      unfolding unique_addresses new
      resolve host =
          let name = trim_dot (trim host) in
          elim (parse name) [
            | some address ↦ Outcome.done (unmap address ∷ [])
            | none ↦ elim (lookup name) [
              | inl addresses ↦ Outcome.done (unique_addresses [] (map unmap addresses))
              | inr failure ↦ elim failure.check [
                | some existing ↦ Outcome.fail existing
                | none ↦
                    Outcome.fail
                      (new Code.dns_network_error "dns" "safe resolve" true (some failure.text))
              ]
            ]
          ]

      abbrev pub valid : Address → Option Error
      valid address = validate allowed blocked_prefixes (unmap address)

      unfoldable pub refused : Error → Dial Address Connection
      refused e = record { attempts = []; result = Outcome.fail e }

      -- From the resolved addresses on: all of them are validated before any is dialled.
      unfoldable pub dial_all : Text → List Address → Dial Address Connection
      unfolding refused first_error dial_from new
      dial_all host addresses =
          if is_empty addresses
          then refused (
              new Code.dns_network_error "dns" "safe resolve" false
                (some "resolver returned no addresses"))
          else elim (first_error valid addresses) [
            | some e ↦ refused e
            | none ↦ dial_from (shown host) no_failure addresses
          ]

      unfoldable pub dial_port : Text → ℕ → Dial Address Connection
      unfolding refused resolve dial_all new
      dial_port host port =
          if not (allowed_port port)
          then refused (
              new Code.ssrf_blocked_port "tcp" "dial" false
                (some (append "port " (append (decimal port) " is not allowed"))))
          else elim (resolve host) [
            | Outcome.fail e ↦ refused e
            | Outcome.done addresses ↦ dial_all host addresses
          ]

      unfoldable pub dial_context : String → String → Dial Address Connection
      unfolding refused dial_port new
      dial_context network address =
          if not (str_eq network "tcp" || str_eq network "tcp4" || str_eq network "tcp6")
          then refused (
              new Code.ssrf_blocked_address "tcp" "dial" false
                (some (append "network \"" (append network "\" is not allowed"))))
          else elim (split address) [
            | inr text ↦ refused (new Code.ssrf_blocked_port "tcp" "dial" false (some text))
            | inl (host, raw) ↦ elim (number raw) [
              | inr text ↦ refused (new Code.ssrf_blocked_port "tcp" "dial" false (some text))
              | inl port ↦ dial_port host port
            ]
          ]
