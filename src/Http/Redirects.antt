-- ===== src/Http/Redirects.antt =====
-- internal/httpcheck/checker.go: `checkAttempt`, which follows redirects. The transport's replies and
-- the clock are parameters, by the number of the request, and `read` is `readContent`; a loop of requests is recursion on fuel,
-- which runs out only in the `none` that no attempt meets.
pub mod Hops
pub mod Chain
use Prim.Native.String.{◌++◌ as append}
use domains_checker_infomati.Base.{
  ℕ, zero, suc, ◌+◌, String, List, [], ◌∷◌, ◌++◌, Option, none, some, Bool, true, false, not, ◌&&◌,
  ◌||◌, if◌then◌else◌, leb, ◌==◌, str_eq, has_text, length,
}
use domains_checker_infomati.Base.Text.{Text}
use domains_checker_infomati.Base.Int.{pos}
use domains_checker_infomati.Netcheck.{Code, Code-discrete, Error, ContextState, error_text}
use domains_checker_infomati.Status.{ContentStatus}
use domains_checker_infomati.Dns.Types.{code_eq}
use domains_checker_infomati.Http.Types.{Timing, RedirectHop, ContentEvidence, TlsResult, Attempt}
use domains_checker_infomati.Http.Content.{Body}
use domains_checker_infomati.Http.Requests.{
  Url, Checked, RequestFailure, is_http, is_https, resolve_redirect, canonical, cross_domain,
  classify_request_error, classify_status, is_redirect,
}

-- A response: its headers that are read, what the inspection of its connection gave, what
-- `parseRetryAfter` makes of it, and its body.
pub record Response : Type 0 where
  pub status_code : ℕ
  pub location : String
  pub proto : String
  pub server : String
  pub retry_after : ℕ
  pub tls : Option TlsResult
  pub body : Body

pub data Reply : Type 0 where
  failed : ContextState → RequestFailure → Reply
  received : Response → Reply

-- `accumulateTiming`.
unfoldable pub accumulate : Timing → Timing → Timing
accumulate total current = record total {
  dns = total.dns + current.dns;
  connect = total.connect + current.connect;
  tls = total.tls + current.tls;
  ttfb = total.ttfb + current.ttfb;
  reused = total.reused || current.reused;
}

-- The attempt before its first request.
abbrev pub fresh_attempt : String → ℕ → ℕ → Attempt
fresh_attempt url attempt checked_at = record {
  attempt = attempt;
  request_url = url;
  effective_url = "";
  protocol = "";
  initial_status_code = 0;
  final_status_code = 0;
  redirects = [];
  timing = record { dns = 0; connect = 0; tls = 0; ttfb = 0; total = 0; reused = false };
  content = record {
    status = ContentStatus.unknown;
    content_type = "";
    declared_content_length = pos 0;
    body_size = 0;
    hash_complete = false;
    title = "";
    error_code = Code.no_code;
    error_message = "";
  };
  server_header = "";
  tls = none;
  error_code = Code.no_code;
  error_message = "";
  checked_at = checked_at;
  retry_after = 0;
  retryable = false;
}

module _ (resolve : Url → String → Checked) (render : Url → String)
    (registrable : Text → Option Text) (decimal : ℕ → String) (reply : ℕ → Url → Reply)
    (timing : ℕ → Timing) (elapsed : ℕ → ℕ) (read : Body → ContentEvidence)
    (most_redirects : ℕ) where
  -- The end of an attempt with an error: its code and message, the effective URL and the time.
  unfoldable pub stopped : ℕ → Code → String → Url → Attempt → Attempt
  stopped n code message at a = record a {
    error_code = code;
    error_message = message;
    effective_url = render at;
    timing = record a.timing { total = elapsed n };
  }

  unfoldable pub with_hop : RedirectHop → Attempt → Attempt
  with_hop hop a = record a { redirects = a.redirects ++ hop ∷ [] }

  -- The hop that is recorded of a response of the request `n`, before its target is known.
  unfoldable pub new_hop : ℕ → Url → Response → Attempt → RedirectHop
  new_hop n current r a = record {
    hop = length a.redirects;
    source_url = render current;
    status_code = r.status_code;
    location = r.location;
    resolved_target = "";
    cross_domain = false;
    https_downgrade = false;
    duration = (timing n).total;
    error_code = Code.no_code;
  }

  -- What an answer that is no redirect leaves.
  unfoldable pub finished : ℕ → Url → Response → Attempt → Attempt
  unfolding classify_status
  finished n current r a =
      let b = record a {
        final_status_code = r.status_code;
        effective_url = render current;
        protocol = r.proto;
        server_header = r.server;
        retry_after = r.retry_after;
        tls = r.tls;
        content = read r.body;
        timing = record a.timing { total = elapsed n };
      } in
      elim (classify_status decimal r.status_code) [
        | some e ↦ record b {
          error_code = e.code;
          error_message = error_text e;
          retryable = e.retryable;
        }
        | none ↦ if code_eq (read r.body).error_code Code.no_code then b else record b {
          error_code = (read r.body).error_code;
          error_message = (read r.body).error_message;
        }
      ]

  -- The request failed.
  unfoldable pub unanswered : ℕ → Url → ContextState → RequestFailure → Attempt → Attempt
  unfolding stopped classify_request_error
  unanswered n current ctx f a =
      let e = classify_request_error ctx f in
      record (stopped n e.code (error_text e) current a) { retryable = e.retryable }

  -- The redirect goes to an acceptable target: downgrade, loop, or the next request.
  unfoldable pub redirected :
      ℕ
      → Url
      → Response
      → List String
      → Attempt
      → Url
      → (RedirectHop → Option Attempt)
      → Option Attempt
  unfolding stopped with_hop new_hop canonical cross_domain
  redirected n current r seen a target next =
      let downgrade = is_https current.scheme && is_http target.scheme in
      let hop = record (new_hop n current r a) {
        resolved_target = render target;
        cross_domain = cross_domain registrable current.hostname target.hostname;
        https_downgrade = downgrade;
      } in
      let refused_hop = record hop { error_code = Code.http_https_downgrade } in
      let loop_hop = record hop { error_code = Code.http_redirect_loop } in
      if downgrade
      then some (
          stopped n Code.http_https_downgrade "HTTPS redirect target downgrades to HTTP" current
            (with_hop refused_hop a))
      else if has_text (render (canonical target)) seen
      then some
          (stopped n Code.http_redirect_loop "redirect loop detected" target (with_hop loop_hop a))
      else next hop

  -- The loop: the request `n` goes to `current`; `seen` are the canonical URLs so far.
  unfoldable pub chase : ℕ → ℕ → Url → List String → Attempt → Option Attempt
  unfolding stopped with_hop new_hop finished unanswered redirected canonical resolve_redirect
      is_redirect accumulate
  chase zero n current seen a = none
  chase (suc fuel) n current seen a =
      let b = record a { timing = accumulate a.timing (timing n) } in
      elim (reply n current) [
        | Reply.failed ctx f ↦ some (unanswered n current ctx f b)
        | Reply.received r ↦
            let c = record b {
              initial_status_code =
                  if b.initial_status_code == 0 then r.status_code else b.initial_status_code;
            } in
            let hop = record (new_hop n current r c) {
              error_code = Code.http_malformed_location;
            } in
            if not (is_redirect r.status_code)
            then some (finished n current r c)
            else if leb most_redirects (length c.redirects)
            then some (
                stopped n Code.http_redirect_limit
                  (append "redirect chain exceeds " (append (decimal most_redirects) " hops"))
                  current c)
            else elim (resolve_redirect resolve current r.location) [
              | Checked.refused text ↦
                  some (stopped n Code.http_malformed_location text current (with_hop hop c))
              | Checked.accepted target ↦
                  redirected n current r seen c target (λ h.
                    chase fuel (n + 1) target (render (canonical target) ∷ seen) (with_hop h c))
            ]
      ]

  -- `checkAttempt`, with one request more than there may be redirects.
  unfoldable pub check_attempt : Url → ℕ → ℕ → Option Attempt
  unfolding chase canonical
  check_attempt initial attempt checked_at =
      chase (most_redirects + 1) 0 initial (render (canonical initial) ∷ [])
        (fresh_attempt (render initial) attempt checked_at)
