-- ===== src/Http/Tests.antt =====
-- HTTP checks by example: a page after one redirect, and a name that refuses connections.
use domains_checker_infomati.Base.{
  ℕ, ◌≡◌, inr, refl, String, List, [], Option, none, some, Bool, true, false, ◌==◌, if◌then◌else◌,
  length, arith, replicate,
}
use domains_checker_infomati.Base.Int.{ℤ, pos, negsuc, ◌≤ℤ◌, ◌+ℤ◌}
use domains_checker_infomati.Base.Text.{Text, codes, lower}
use domains_checker_infomati.Netcheck.{Code}
use domains_checker_infomati.Status.{ContentStatus}
use domains_checker_infomati.Retry.{Policy}
use domains_checker_infomati.Http.Types.{ContentMode, Timing, ContentEvidence, Attempt}
use domains_checker_infomati.Http.Content.{Body, read_content, judge, verdict, looks_like_html}
use domains_checker_infomati.Http.Content.Verdict.{IsContent, read_content-IsContent}
use domains_checker_infomati.Http.Requests.{Url, Scheme, Checked}
use domains_checker_infomati.Http.Redirects.{Response, Reply, fresh_attempt}
use domains_checker_infomati.Http.Redirects.Hops.{Hops}
use domains_checker_infomati.Http.Config.{Config}

abbrev media : String → Text
media content_type = codes content_type

abbrev decimal : ℕ → String
decimal n = "10"

abbrev untitled : List ℕ → String
untitled bytes = ""

abbrev body : Body
body = record {
  content_type = "application/json";
  content_length = pos 3;
  bytes = replicate 3 65;
  failure = none;
}

-- The limits: 100 bytes at most, and 2 at least.
abbrev read : Body → ContentEvidence
read = read_content media length untitled decimal 100 2 ContentMode.any

read_valid : (read body).status ≡ ContentStatus.valid_non_html
unfolding read_content judge verdict looks_like_html lower
read_valid = refl

read_content-IsContent_example : IsContent media length untitled decimal 100 2 ContentMode.any body
read_content-IsContent_example =
    (read_content-IsContent media length untitled decimal 100 2 ContentMode.any body).0
      (inr read_valid)

abbrev site : Url
site = record {
  scheme = Scheme.https;
  user = false;
  hostname = codes "a.example";
  port = [];
  path = codes "/";
  query = [];
  fragment = [];
}

abbrev page : Url
page = record site { path = codes "/page" }

abbrev resolve : Url → String → Checked
resolve source location = Checked.accepted page

abbrev render : Url → String
render u = if length u.path == 1 then "https://a.example/" else "https://a.example/page"

abbrev registrable : Text → Option Text
registrable host = some host

abbrev answer : ℕ → Response
answer status = record {
  status_code = status;
  location = "/page";
  proto = "HTTP/2.0";
  server = "";
  retry_after = 0;
  tls = none;
  body = body;
}

abbrev reply : ℕ → Url → Reply
reply n u = Reply.received (if n == 0 then answer 301 else answer 200)

abbrev timing : ℕ → Timing
timing n = record { dns = 0; connect = 0; tls = 0; ttfb = 1; total = 1; reused = false }

abbrev elapsed : ℕ → ℕ
elapsed n = n

abbrev parse : String → Checked
parse text = Checked.accepted site

-- The host refuses every connection.
abbrev refusing : Url → ContentMode → ℕ → Option Attempt
refusing u mode n = some (record (fresh_attempt "https://a.example/" n 0) {
  error_code = Code.tcp_refused;
  retryable = true;
})

abbrev waits : ℕ → ℤ → Bool
waits n d = true

abbrev draw : ℤ → ℤ
draw n = pos 0

abbrev policy : Policy
policy = record { max_attempts = pos 3; base_delay = pos 100; max_delay = pos 1000; jitter = none }

abbrev patient : Attempt
patient = record (fresh_attempt "https://a.example/" 1 0) { retry_after = 120_000_000_000 }

draw_lem : (n : ℤ) → pos 1 ≤ℤ n → (pos 0 ≤ℤ draw n) × (draw n +ℤ pos 1 ≤ℤ n)
unfolding ◌+ℤ◌
draw_lem n h = ground arith

abbrev unset : Config
unset = record {
  max_redirects = pos 0;
  max_body_bytes = pos 0;
  excerpt_bytes = pos 100_000;
  header_bytes = pos 0;
  min_meaningful_bytes = negsuc 0;
  connect_timeout = pos 0;
  tls_handshake_timeout = pos 0;
  response_header_timeout = pos 0;
  chain_timeout = pos 0;
  tls_expiring_soon = pos 0;
  max_certificate_sans = pos 0;
  user_agent = "";
  accept = "";
  accept_language = "";
  retry = policy;
}
