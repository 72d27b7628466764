-- ===== src/Config/Valid.antt =====
-- The settings that `check` of internal/config/config.go lets pass.
use domains_checker_infomati.Base.{
  ℕ, String, List, Option, true, false, ◌||◌, ◌≡◌, inl, inr, ◌↔◌, arith, Bool-cases,
}
use domains_checker_infomati.Base.Int.{pos, ◌≤ℤ◌}
use domains_checker_infomati.Base.Text.{codes, text_eq}
use domains_checker_infomati.Base.Outcome.{ok}
use domains_checker_infomati.Config.Settings.{Config}
use domains_checker_infomati.Config.Links.{
  IsHttps, IsPublic, IsCallback, IsKey, not_https_iff, not_public_iff, bad_redirect_iff,
  bad_key_iff,
}
use domains_checker_infomati.Config.Checks.{
  Link, blank, check_service, check_sources, check_oauth, check_oauth_values, check_stale, check,
  oauth_configured,
}
use domains_checker_infomati.Config.Bounds.{
  Within, IsBounded, IsMonitor, IsProbe, check_http_iff, check_monitor_iff, check_probe_iff,
}

module _ (parse_url : String → Option Link) where
  pub record IsService (c : Config) : Type 0 where
    pub locale :
        (text_eq c.texts.default_locale (codes "th") || text_eq c.texts.default_locale (codes "en"))
        ≡ true
    pub pool : pos 1 ≤ℤ c.limits.db_max_connections
    pub idle :
        (pos 0 ≤ℤ c.limits.db_min_connections)
        × (c.limits.db_min_connections ≤ℤ c.limits.db_max_connections)
    pub request : Within 1024 10485760 c.limits.api_max_body_bytes
    pub batch : Within 1 1000 c.limits.outbox_batch_size
    pub attempts : Within 1 100 c.limits.outbox_max_attempts
    pub endpoint : IsHttps parse_url c.texts.doh_endpoint
    pub answer : Within 4096 1048576 c.limits.doh_max_bytes

  check_service_iff : (c : Config) → (check_service parse_url c ≡ ok tt) ↔ IsService c
  unfolding check_service
  check_service_iff c = (
    λ h. record {
      endpoint = (not_https_iff parse_url c.texts.doh_endpoint).0 (ground arith);
      locale = ground arith;
      pool = ground arith;
      idle = ground arith;
      request = ground arith;
      batch = ground arith;
      attempts = ground arith;
      answer = ground arith;
    },
    λ v.
        let endpoint_passes = (not_https_iff parse_url c.texts.doh_endpoint).1 v.endpoint in
        ground arith,
  )

  pub record IsSources (c : Config) : Type 0 where
    pub rdap : IsPublic parse_url c.texts.rdap_bootstrap_url
    pub sheets : IsPublic parse_url c.texts.google_sheets_api_base
    pub drive : IsPublic parse_url c.texts.google_drive_api_base
    pub responses :
        Within 4096 4194304 c.limits.rdap_max_bytes
        × Within 4096 16777216 c.limits.google_sheets_max_bytes
    pub workbook : Within 1048576 52428800 c.limits.excel_import_max_bytes
    pub unpacked :
        (c.limits.excel_import_max_bytes ≤ℤ c.limits.excel_unzip_max_bytes)
        × (c.limits.excel_unzip_max_bytes ≤ℤ pos 268435456)
    pub rows : Within 1 100000 c.limits.excel_import_max_rows
    pub columns : Within 1 500 c.limits.excel_import_max_columns

  check_sources_iff : (c : Config) → (check_sources parse_url c ≡ ok tt) ↔ IsSources c
  unfolding check_sources
  check_sources_iff c = (
    λ h. record {
      rdap = (not_public_iff parse_url c.texts.rdap_bootstrap_url).0 (ground arith);
      sheets = (not_public_iff parse_url c.texts.google_sheets_api_base).0 (ground arith);
      drive = (not_public_iff parse_url c.texts.google_drive_api_base).0 (ground arith);
      responses = ground arith;
      workbook = ground arith;
      unpacked = ground arith;
      rows = ground arith;
      columns = ground arith;
    },
    λ v.
        let rdap_passes = (not_public_iff parse_url c.texts.rdap_bootstrap_url).1 v.rdap in
        let sheets_passes = (not_public_iff parse_url c.texts.google_sheets_api_base).1 v.sheets in
        let drive_passes = (not_public_iff parse_url c.texts.google_drive_api_base).1 v.drive in
        ground arith,
  )

  module _ (decode_base64 : String → Option (List ℕ)) where
    pub record IsSignIn (c : Config) : Type 0 where
      pub id : blank c.texts.google_oauth_client_id ≡ false
      pub secret : blank c.texts.google_oauth_client_secret ≡ false
      pub redirect : blank c.texts.google_oauth_redirect_url ≡ false
      pub key : blank c.texts.google_oauth_encryption_key ≡ false
      pub authorize : IsPublic parse_url c.texts.google_oauth_auth_url
      pub exchange : IsPublic parse_url c.texts.google_oauth_token_url
      pub user : IsPublic parse_url c.texts.google_oauth_userinfo_url
      pub callback : IsCallback parse_url c.texts.google_oauth_redirect_url
      pub scopes : blank c.texts.google_oauth_scopes ≡ false
      pub bytes : IsKey decode_base64 c.texts.google_oauth_encryption_key

    check_oauth_values_iff :
        (c : Config) → (check_oauth_values parse_url decode_base64 c ≡ ok tt) ↔ IsSignIn c
    unfolding check_oauth_values
    check_oauth_values_iff c = (
      λ h. record {
        authorize = (not_public_iff parse_url c.texts.google_oauth_auth_url).0 (ground arith);
        exchange = (not_public_iff parse_url c.texts.google_oauth_token_url).0 (ground arith);
        user = (not_public_iff parse_url c.texts.google_oauth_userinfo_url).0 (ground arith);
        callback = (bad_redirect_iff parse_url c.texts.google_oauth_redirect_url).0 (ground arith);
        bytes = (bad_key_iff decode_base64 c.texts.google_oauth_encryption_key).0 (ground arith);
        id = ground arith;
        secret = ground arith;
        redirect = ground arith;
        key = ground arith;
        scopes = ground arith;
      },
      λ v.
          let authorize_passes =
            (not_public_iff parse_url c.texts.google_oauth_auth_url).1 v.authorize in
          let exchange_passes =
            (not_public_iff parse_url c.texts.google_oauth_token_url).1 v.exchange in
          let user_passes = (not_public_iff parse_url c.texts.google_oauth_userinfo_url).1 v.user in
          let callback_passes =
            (bad_redirect_iff parse_url c.texts.google_oauth_redirect_url).1 v.callback in
          let bytes_passes =
            (bad_key_iff decode_base64 c.texts.google_oauth_encryption_key).1 v.bytes in
          ground arith,
    )

    -- What `check` demands of the settings.
    pub record IsUsable (c : Config) : Type 0 where
      pub service : IsService c
      pub bounded : IsBounded c
      pub monitor : IsMonitor c
      pub probe : IsProbe c
      pub sources : IsSources c
      pub sign_in : oauth_configured c ≡ true → IsSignIn c
      pub stale : c.lookup.rdap_bootstrap_ttl ≤ℤ c.lookup.rdap_bootstrap_max_stale

    check_oauth_iff :
        (c : Config)
        → (check_oauth parse_url decode_base64 c ≡ ok tt) ↔ (oauth_configured c ≡ true → IsSignIn c)
    unfolding check_oauth
    check_oauth_iff c = elim (Bool-cases (oauth_configured c)) [
      | inl e ↦ (
        λ h _. (check_oauth_values_iff c).0 (rw e at h),
        λ v. rw e ((check_oauth_values_iff c).1 (v e)),
      )
      | inr e ↦ (λ h on. cc, λ v. rw e)
    ]

    check_stale_iff :
        (c : Config)
        → (check_stale parse_url decode_base64 c ≡ ok tt)
          ↔ (c.lookup.rdap_bootstrap_ttl ≤ℤ c.lookup.rdap_bootstrap_max_stale)
    unfolding check_stale
    check_stale_iff c = (λ h. ground arith, λ v. ground arith)

    -- The checks accept exactly the settings that meet every bound: each size, count and text length is
    -- within its limits, the pool, the excerpt, the retry delays, the job lease, the unpacked workbook
    -- and the stale bootstrap are in order with one another, each address is an absolute HTTPS URL, and
    -- the sign-in is not configured at all or completely, with a key of 32 bytes.
    pub check_iff : (c : Config) → (check parse_url decode_base64 c ≡ ok tt) ↔ IsUsable c
    unfolding check
    check_iff c = (
      λ h. record {
        service = (check_service_iff c).0 (ground arith);
        bounded = (check_http_iff parse_url c).0 (ground arith);
        monitor = (check_monitor_iff parse_url c).0 (ground arith);
        probe = (check_probe_iff parse_url c).0 (ground arith);
        sources = (check_sources_iff c).0 (ground arith);
        sign_in = (check_oauth_iff c).0 (ground arith);
        stale = (check_stale_iff c).0 (ground arith);
      },
      λ v.
          let service = (check_service_iff c).1 v.service in
          let bounded = (check_http_iff parse_url c).1 v.bounded in
          let monitor = (check_monitor_iff parse_url c).1 v.monitor in
          let probe = (check_probe_iff parse_url c).1 v.probe in
          let sources = (check_sources_iff c).1 v.sources in
          let sign_in = (check_oauth_iff c).1 v.sign_in in
          let stale = (check_stale_iff c).1 v.stale in ground arith,
    )
