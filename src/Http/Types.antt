-- ===== src/Http/Types.antt =====
-- internal/httpcheck/types.go, and the status of a TLS inspection (internal/tlscheck). Durations,
-- sizes and times are numbers; a status code is 0 where there was no response. The selected headers,
-- the hash and the excerpt of the body, which nothing else reads, are left out.
use domains_checker_infomati.Base.{ℕ, String, List, Option, Bool}
use domains_checker_infomati.Base.Int.{ℤ}
use domains_checker_infomati.Netcheck.{Code}
use domains_checker_infomati.Status.{ContentStatus, TlsStatus}

pub data ContentMode : Type 0 where
  html any status_only : ContentMode

pub record Timing : Type 0 where
  pub dns : ℕ
  pub connect : ℕ
  pub tls : ℕ
  pub ttfb : ℕ
  pub total : ℕ
  pub reused : Bool

pub record RedirectHop : Type 0 where
  pub hop : ℕ
  pub source_url : String
  pub status_code : ℕ
  pub location : String
  pub resolved_target : String
  pub cross_domain : Bool
  pub https_downgrade : Bool
  pub duration : ℕ
  pub error_code : Code

pub record ContentEvidence : Type 0 where
  pub status : ContentStatus
  pub content_type : String
  pub declared_content_length : ℤ
  pub body_size : ℕ
  pub hash_complete : Bool
  pub title : String
  pub error_code : Code
  pub error_message : String

-- The part of `tlscheck.Result` that the classification reads.
pub record TlsResult : Type 0 where
  pub status : TlsStatus
  pub error_code : Code

pub record Attempt : Type 0 where
  pub attempt : ℕ
  pub request_url : String
  pub effective_url : String
  pub protocol : String
  pub initial_status_code : ℕ
  pub final_status_code : ℕ
  pub redirects : List RedirectHop
  pub timing : Timing
  pub content : ContentEvidence
  pub server_header : String
  pub tls : Option TlsResult
  pub error_code : Code
  pub error_message : String
  pub checked_at : ℕ
  pub retry_after : ℕ
  pub retryable : Bool

pub record OriginResult : Type 0 where
  pub https : List Attempt
  pub http : List Attempt
  pub used_http_fallback : Bool
