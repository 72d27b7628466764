-- ===== src/Tlscheck/Trusted.antt =====
-- internal/tlscheck/inspector.go: what a good status of an inspection is worth.
use domains_checker_infomati.Base.{
  ℕ, ◌≤◌, ◌<◌, String, List, [], ◌∷◌, ◌++◌, Bool, true, false, ◌≡◌, ◌↔◌, refl, ◌∙◌, ap, subst,
  arith, leb, length, length-append, Bool-cases, inl, inr,
}
use domains_checker_infomati.Base.Int.{ℤ, pos, ◌≤ℤ◌, ◌-ℤ◌, ltb_ℤ, leb_ℤ, pos_part}
use domains_checker_infomati.Base.Text.{Text}
use domains_checker_infomati.Netcheck.{Code, Error, Failure, ContextState}
use domains_checker_infomati.Status.{TlsStatus}
use domains_checker_infomati.Tlscheck.{
  Certificate, ConnectionState, Inspection, HandshakeFailure, Inspector, Dialed, connection,
  refused, Handshake, verified, broken, World, thirty_days, or_positive, add_names, lowered,
  certificate_sans, graded_certificate, connected, described, from_connection_state,
  invalid_certificate, classify_handshake, classify_tls_failure, normalized_inspector, diagnostic,
  is_unknown_tls, explained, inspect_dialed, inspect,
}

-- The two statuses of a certificate that can be used.
abbrev pub is_good : TlsStatus → Bool
is_good TlsStatus.valid = true
is_good TlsStatus.expiring = true
is_good _ = false

-- The handshake with verification succeeded with a certificate that covers the name and is not over.
pub record IsTrusted (i : Inspector) (name : String) (w : World) (r : Inspection) : Type 0 where
  pub state : ConnectionState
  pub certificate : Certificate
  pub chain : List Certificate
  pub handshake : w.handshake ≡ verified state
  pub first : state.peer_certificates ≡ certificate ∷ chain
  pub named : certificate.covers name ≡ true
  pub unexpired : w.now ≤ℤ certificate.not_after
  pub clean : r.error_code ≡ Code.no_code
  pub soon :
      (r.status ≡ TlsStatus.expiring)
      ↔ ((certificate.not_after -ℤ w.now) ≤ℤ or_positive i.expiring_soon thirty_days)
  pub names : length r.sans ≤ pos_part (or_positive i.max_sans (pos 100))

-- The loop stops at the limit, and below it otherwise.
add_names-Short :
    (most : ℕ) (values names : List Text)
    → length values < most
    → (length (add_names most values names).0 ≤ most)
      × ((add_names most values names).1 ≡ false → length (add_names most values names).0 < most)
unfolding add_names
add_names-Short most values [] h = (omega arith, λ e. h)
add_names-Short most values (name ∷ names) h =
    let longer = length-append values (name ∷ []) in
    elim (Bool-cases (leb most (length (values ++ name ∷ [])))) [
      | inl full ↦ rw full ((omega (arith, longer), λ e. absurd (cc e)))
      | inr room ↦ rw room (add_names-Short most (values ++ name ∷ []) names (ground (arith, room)))
    ]

sans_bound : (c : Certificate) (most : ℕ) → 1 ≤ most → length (certificate_sans c most) ≤ most
unfolding certificate_sans
sans_bound c most h =
    let names = add_names most [] (lowered c.dns_names) in
    let (short, below) = add_names-Short most [] (lowered c.dns_names) (omega arith) in
    elim (Bool-cases names.1) [
      | inl full ↦ rw full short
      | inr room ↦ rw room (add_names-Short most names.0 c.ip_addresses (below room)).0
    ]

failure_is_bad :
    (parent handshake : ContextState) (f : HandshakeFailure) (now : ℤ)
    → is_good (classify_tls_failure parent handshake f now).1 ≡ false
unfolding classify_tls_failure classify_handshake invalid_certificate
failure_is_bad parent handshake f now = ground arith

explained-status :
    (found : Inspection) (e : Error) (status : TlsStatus) (r : Inspection)
    → (explained found (e, status) r).status ≡ status
unfolding explained
explained-status found e status r = elim (Bool-cases (is_unknown_tls found.status)) [
  | inl u ↦ rw u refl
  | inr u ↦ rw u refl
]

or_positive-again :
    (value fallback : ℤ)
    → leb_ℤ fallback (pos 0) ≡ false
    → or_positive (or_positive value fallback) fallback ≡ or_positive value fallback
or_positive-again value fallback h = elim (Bool-cases (leb_ℤ value (pos 0))) [
  | inl e ↦ ground (arith, e)
  | inr e ↦ ground (arith, e)
]

or_positive_bound : (value : ℤ) (n : ℕ) → 1 ≤ n → 1 ≤ pos_part (or_positive value (pos n))
or_positive_bound value n h = ground arith

-- The grades of one certificate.
graded_good :
    (c : Certificate) (name : String) (soon now : ℤ) (r : Inspection)
    → r.status ≡ TlsStatus.valid
    → is_good (graded_certificate c name soon now r).status ≡ true
    → (c.covers name ≡ true)
      × (now ≤ℤ c.not_after)
      × ((graded_certificate c name soon now r).error_code ≡ r.error_code)
      × (((graded_certificate c name soon now r).status ≡ TlsStatus.expiring)
          ↔ ((c.not_after -ℤ now) ≤ℤ soon))
      × ((graded_certificate c name soon now r).sans ≡ r.sans)
unfolding graded_certificate
graded_good c name soon now r fresh h = elim (Bool-cases (ltb_ℤ c.not_after now)) [
  | inl over ↦ absurd (ground (arith, over))
  | inr lasting ↦ elim (Bool-cases (c.covers name)) [
    | inr other ↦ absurd (ground (arith, lasting, other))
    | inl named ↦ elim (Bool-cases (leb_ℤ (c.not_after -ℤ now) soon)) [
      | inl near ↦ (
        named,
        ground (arith, lasting),
        ground (arith, lasting, named, near),
        (λ e. ground (arith, near), λ e. ground (arith, lasting, named, near)),
        ground (arith, lasting, named, near),
      )
      | inr far ↦ (
        named,
        ground (arith, lasting),
        ground (arith, lasting, named, far),
        (
          λ e. absurd (ground (arith, lasting, named, far, fresh, e)),
          λ e. absurd (ground (arith, far)),
        ),
        ground (arith, lasting, named, far),
      )
    ]
  ]
]

described_good :
    (i : Inspector) (name : String) (w : World) (state : ConnectionState) (address : String)
    → w.handshake ≡ verified state
    → is_good
        (inspect_dialed
          (normalized_inspector i)
          name
          w
          (connection address)
          (verified state)).status
      ≡ true
    → IsTrusted i name w
        (inspect_dialed (normalized_inspector i) name w (connection address) (verified state))
unfolding inspect_dialed from_connection_state normalized_inspector described
described_good i name w state address e h = go state.peer_certificates refl h
  where
    most : ℕ
    most = pos_part (or_positive (or_positive i.max_sans (pos 100)) (pos 100))

    soon : ℤ
    soon = or_positive (or_positive i.expiring_soon thirty_days) thirty_days

    answer : List Certificate → Inspection
    answer cs = record (described cs name soon w.now most (connected state name w.now)) {
      remote_address = address;
      checked_at = w.now;
    }

    go :
        (cs : List Certificate)
        → state.peer_certificates ≡ cs
        → is_good (answer cs).status ≡ true
        → IsTrusted i name w (answer cs)
    go [] p h = absurd (cc h)
    go (c ∷ cs) p h =
        let (named, lasting, code, near, names) = graded_good c name soon w.now _ refl h in
        record {
          state = state;
          certificate = c;
          chain = cs;
          handshake = e;
          first = p;
          named = named;
          unexpired = lasting;
          clean = code;
          soon =
              subst
                (λ s.
                  ((answer (c ∷ cs)).status ≡ TlsStatus.expiring) ↔ ((c.not_after -ℤ w.now) ≤ℤ s))
                (or_positive-again i.expiring_soon thirty_days refl) near;
          names =
              subst (λ m. length (answer (c ∷ cs)).sans ≤ pos_part m)
                (or_positive-again i.max_sans (pos 100) refl)
                (rw names (
                  sans_bound c most
                    (or_positive_bound (or_positive i.max_sans (pos 100)) 100 (omega arith))));
        }

refused_bad :
    (i : Inspector) (name : String) (w : World) (f : Failure) (s : Handshake)
    → is_good (inspect_dialed i name w (refused f) s).status ≡ false
unfolding inspect_dialed
refused_bad i name w f s = refl

broken_bad :
    (i : Inspector) (name : String) (w : World) (address : String) (f : HandshakeFailure)
    → is_good (inspect_dialed i name w (connection address) (broken f)).status ≡ false
unfolding inspect_dialed
broken_bad i name w address f =
    ap is_good (explained-status (diagnostic i name address w) _ _ _)
    ∙ failure_is_bad w.parent w.handshake_context f w.now

-- `Inspect` calls a certificate VALID or EXPIRING only if the handshake that verifies it succeeded and its
-- first certificate covers the server's name and is not over. There is then no error code, the status is
-- EXPIRING exactly when no more than the configured time is left (30 days where none is configured), and
-- at most the configured number of names is listed (100 where none is configured).
pub inspect-IsTrusted :
    (i : Inspector) (name : String) (w : World)
    → is_good (inspect i name w).status ≡ true
    → IsTrusted i name w (inspect i name w)
unfolding inspect
inspect-IsTrusted i name w h = go w.dialed w.handshake refl h
  where
    go :
        (d : Dialed) (s : Handshake)
        → w.handshake ≡ s
        → is_good (inspect_dialed (normalized_inspector i) name w d s).status ≡ true
        → IsTrusted i name w (inspect_dialed (normalized_inspector i) name w d s)
    go (refused f) s e h = absurd (cc (h, refused_bad (normalized_inspector i) name w f s))
    go (connection address) (verified state) e h = described_good i name w state address e h
    go (connection address) (broken f) e h =
        absurd (cc (h, broken_bad (normalized_inspector i) name w address f))
