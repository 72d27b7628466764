-- ===== src/Safedial/Dialer/Validated.antt =====
-- No address is dialled that the policy blocks (internal/safedial/dialer.go).
use domains_checker_infomati.Base.{
  ℕ, ◌≡◌, ◌⊎◌, inl, inr, refl, String, List, [], ◌∷◌, Option, none, some, Bool, true, not, ◌||◌,
  All, if_both, if_split, Option-cases, Sum-cases, not-false, str_eq,
}
use domains_checker_infomati.Base.Text.{Text, is_empty}
use domains_checker_infomati.Netcheck.{Error, Failure, ContextState}
use domains_checker_infomati.Safedial.Dialer.{
  Outcome, Dial, Traits, first_error, dial_from, resolve, valid, refused, dial_all, dial_port,
  dial_context,
}

-- The one list begins with the other.
pub data Prefix {A : Type 0} : List A → List A → Type 0 where
  nothing : {xs : List A} → Prefix [] xs
  next : {x : A} {ys xs : List A} → Prefix ys xs → Prefix (x ∷ ys) (x ∷ xs)

Outcome-cases {ℓ} :
    {A : Type ℓ} (o : Outcome A)
    → ((a : A) × (o ≡ Outcome.done a)) ⊎ ((e : Error) × (o ≡ Outcome.fail e))
Outcome-cases (Outcome.done a) = inl (a, refl)
Outcome-cases (Outcome.fail e) = inr (e, refl)

both_none :
    (o rest : Option Error)
    → (elim o [ some e ↦ some e | none ↦ rest ]) ≡ none
    → (o ≡ none) × (rest ≡ none)
both_none none rest h = (refl, h)
both_none (some e) rest h = cc

module _ {Address : Type 0} (same : Address → Address → Bool) (traits : Address → Traits)
    {Connection : Type 0} (connect : Address → Connection ⊎ Failure) (ctx : ContextState)
    (unmap : Address → Address) (split : String → (Text × String) ⊎ String)
    (number : String → ℕ ⊎ String) (parse : Text → Option Address)
    (lookup : Text → List Address ⊎ Failure) (allowed_port : ℕ → Bool)
    (allowed : List (Address → Bool)) (blocked_prefixes : List (Address → Bool))
    (shown : Text → String) (decimal : ℕ → String) (no_failure : Failure) where
  abbrev pub Resolved : Text → Outcome (List Address)
  Resolved =
      resolve same traits connect ctx unmap split number parse lookup allowed_port allowed
        blocked_prefixes shown decimal no_failure

  abbrev pub IsValid : Address → Type 0
  IsValid a =
      valid same traits connect ctx unmap split number parse lookup allowed_port allowed
        blocked_prefixes shown decimal no_failure a
      ≡ none

  -- What was dialled: a beginning of the resolved addresses, which are all valid.
  abbrev pub Among : List Address → List Address → Type 0
  Among attempts addresses = All IsValid addresses × Prefix attempts addresses

  first_error-All :
      (xs : List Address)
      → first_error same traits
          (valid same traits connect ctx unmap split number parse lookup allowed_port allowed
            blocked_prefixes shown decimal no_failure)
          xs
        ≡ none
      → All IsValid xs
  unfolding first_error
  first_error-All [] h = tt
  first_error-All (x ∷ xs) h = let (e, rest) = both_none _ _ h in (e, first_error-All xs rest)

  dial_from-Prefix :
      (host : String) (f : Failure) (xs : List Address)
      → Prefix (dial_from same traits connect ctx host f xs).attempts xs
  unfolding dial_from
  dial_from-Prefix host f [] = nothing
  dial_from-Prefix host f (x ∷ xs) = elim (Sum-cases (connect x)) [
    | inl (c, e) ↦ rw (e, dial_from) (next nothing)
    | inr (g, e) ↦ rw (e, dial_from) (next (dial_from-Prefix host g xs))
  ]

  dial_all-Among :
      (host : Text) (xs : List Address)
      → let d =
          dial_all same traits connect ctx unmap split number parse lookup allowed_port allowed
            blocked_prefixes shown decimal no_failure host xs in
        (d.attempts ≡ []) ⊎ Among d.attempts xs
  unfolding dial_all refused
  dial_all-Among host xs =
      if_both (λ (d : Dial Address Connection). (d.attempts ≡ []) ⊎ Among d.attempts xs)
        (is_empty xs) _ _ (inl refl)
        (elim (Option-cases (
          first_error same traits
            (valid same traits connect ctx unmap split number parse lookup allowed_port allowed
              blocked_prefixes shown decimal no_failure)
            xs)) [
              | inl e ↦
                  rw e (inr (first_error-All xs e, dial_from-Prefix (shown host) no_failure xs))
              | inr (g, e) ↦ rw e (inl refl)
            ])

  -- A dial of `host` at `port`.
  abbrev pub Safe : Text → ℕ → Dial Address Connection → Type 0
  Safe host port d =
      (d.attempts ≡ [])
      ⊎ (allowed_port port ≡ true)
        × (addresses : List Address) × (Resolved host ≡ Outcome.done addresses)
        × Among d.attempts addresses

  dial_port-Safe :
      (host : Text) (port : ℕ)
      → Safe host port (
          dial_port same traits connect ctx unmap split number parse lookup allowed_port allowed
            blocked_prefixes shown decimal no_failure host port)
  unfolding dial_port refused
  dial_port-Safe host port =
      if_split (Safe host port) (not (allowed_port port)) _ _ (λ h. inl refl)
        (λ h. elim (Outcome-cases (Resolved host)) [
          | inl (xs, e) ↦ rw e (elim (dial_all-Among host xs) [
            | inl none_dialled ↦ inl none_dialled
            | inr among ↦ inr (not-false _ h, xs, refl, among)
          ])
          | inr (g, e) ↦ rw e (inl refl)
        ])

  -- A dial of an address as it is written.
  abbrev pub Checked : String → Dial Address Connection → Type 0
  Checked address d =
      (d.attempts ≡ [])
      ⊎ (host : Text) × (port : ℕ) × (raw : String) × (split address ≡ inl (host, raw))
        × (number raw ≡ inl port)
        × Safe host port d

  -- Only validated addresses are dialled: a dial makes no attempt at all, or the port of its address
  -- is allowed, every address that its host resolves to passes the validation, and the attempts are a
  -- beginning of those addresses, in their order.
  pub dial_context-Safe :
      (network address : String)
      → Checked address (
          dial_context same traits connect ctx unmap split number parse lookup allowed_port allowed
            blocked_prefixes shown decimal no_failure network address)
  unfolding dial_context refused
  dial_context-Safe network address =
      if_both (Checked address)
        (not (str_eq network "tcp" || str_eq network "tcp4" || str_eq network "tcp6")) _ _
        (inl refl)
        (elim (Sum-cases (split address)) [
          | inr (text, e) ↦ rw e (inl refl)
          | inl ((host, raw), e) ↦ rw e (elim (Sum-cases (number raw)) [
            | inr (text, f) ↦ rw f (inl refl)
            | inl (port, f) ↦ rw f (inr (host, port, raw, refl, f, dial_port-Safe host port))
          ])
        ])
