-- ===== src/Config/Links.antt =====
-- What `check` of internal/config/config.go demands of URLs and of the key.
use domains_checker_infomati.Base.{
  ℕ, String, List, Option, some, false, ◌≡◌, ◌≢◌, ◌⊎◌, inl, inr, ◌↔◌, arith, length, eq_iff,
  Option-cases,
}
use domains_checker_infomati.Config.Checks.{Link, not_https, not_public, bad_redirect, bad_key}

-- Base64 of 32 bytes.
abbrev pub IsKey : (String → Option (List ℕ)) → String → Type 0
IsKey decode_base64 raw = (key : List ℕ) × (decode_base64 raw ≡ some key) × (length key ≡ 32)

pub bad_key_iff :
    (decode_base64 : String → Option (List ℕ)) (raw : String)
    → (bad_key decode_base64 raw ≡ false) ↔ IsKey decode_base64 raw
unfolding bad_key
bad_key_iff decode_base64 raw = elim (Option-cases (decode_base64 raw)) [
  | inl e ↦ (λ h. ground arith, λ v. ground arith)
  | inr (key, e) ↦ (λ h. (key, e, ground arith), λ v. ground arith)
]

module _ (parse_url : String → Option Link) where
  -- An absolute HTTPS URL.
  abbrev pub IsHttps : String → Type 0
  IsHttps raw =
      (link : Link) × (parse_url raw ≡ some link) × (link.scheme ≡ "https") × (link.hostname ≢ "")

  -- An absolute HTTPS URL without credentials.
  abbrev pub IsPublic : String → Type 0
  IsPublic raw =
      (link : Link) × (parse_url raw ≡ some link)
      × (link.scheme ≡ "https")
      × (link.hostname ≢ "")
      × (link.has_user ≡ false)

  -- HTTPS, or HTTP to this machine.
  abbrev pub IsCallback : String → Type 0
  IsCallback raw =
      (link : Link) × (parse_url raw ≡ some link)
      × (link.hostname ≢ "")
      × ((link.scheme ≡ "https")
          ⊎ ((link.scheme ≡ "http")
              × ((link.hostname ≡ "localhost") ⊎ (link.hostname ≡ "127.0.0.1"))))

  pub not_https_iff : (raw : String) → (not_https parse_url raw ≡ false) ↔ IsHttps raw
  unfolding not_https
  not_https_iff raw = elim (Option-cases (parse_url raw)) [
    | inl e ↦ (λ h. ground arith, λ v. ground arith)
    | inr (link, e) ↦ (
      λ h. (
        link,
        e,
        ground (arith, eq_iff link.scheme "https"),
        ground (arith, eq_iff link.hostname ""),
      ),
      λ v. ground (arith, eq_iff link.scheme "https", eq_iff link.hostname ""),
    )
  ]

  pub not_public_iff : (raw : String) → (not_public parse_url raw ≡ false) ↔ IsPublic raw
  unfolding not_public
  not_public_iff raw = elim (Option-cases (parse_url raw)) [
    | inl e ↦ (λ h. ground arith, λ v. ground arith)
    | inr (link, e) ↦ (
      λ h. (
        link,
        e,
        ground (arith, eq_iff link.scheme "https"),
        ground (arith, eq_iff link.hostname ""),
        ground arith,
      ),
      λ v. ground (arith, eq_iff link.scheme "https", eq_iff link.hostname ""),
    )
  ]

  pub bad_redirect_iff : (raw : String) → (bad_redirect parse_url raw ≡ false) ↔ IsCallback raw
  unfolding bad_redirect
  bad_redirect_iff raw = elim (Option-cases (parse_url raw)) [
    | inl e ↦ (λ h. ground arith, λ v. ground arith)
    | inr (link, e) ↦ (
      λ h. (
        link,
        e,
        ground (arith, eq_iff link.hostname ""),
        ground (
          arith,
          eq_iff link.scheme "https",
          eq_iff link.scheme "http",
          eq_iff link.hostname "localhost",
          eq_iff link.hostname "127.0.0.1",
        ),
      ),
      λ v. ground (
        arith,
        eq_iff link.scheme "https",
        eq_iff link.hostname "",
        eq_iff link.scheme "http",
        eq_iff link.hostname "localhost",
        eq_iff link.hostname "127.0.0.1",
      ),
    )
  ]
