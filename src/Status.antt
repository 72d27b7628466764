-- ===== src/Status.antt =====
-- The status vocabularies. The code keeps them as strings and the database as the enumerations of
-- migrations/00001_foundation.sql; `blank` is the empty string of a field that was never set.
use domains_checker_infomati.Base.{String, Bool, true, false}

pub data Availability : Type 0 where
  blank active degraded unavailable unknown : Availability

pub data DnsStatus : Type 0 where
  blank ok nxdomain servfail refused timeout network_error discrepancy unknown : DnsStatus

pub data HttpStatus : Type 0 where
  blank ok redirect client_error server_error timeout connection_error unknown : HttpStatus

pub data RedirectStatus : Type 0 where
  blank nothing temporary permanent loop invalid https_downgrade unknown : RedirectStatus

pub data IspStatus : Type 0 where
  blank not_detected suspected high_confidence_block unknown : IspStatus

pub data TlsStatus : Type 0 where
  blank valid expiring expired hostname_mismatch invalid error not_applicable unknown : TlsStatus

pub data ContentStatus : Type 0 where
  blank valid_html valid_non_html empty too_small not_meaningful : ContentStatus
  oversized_truncated unsupported_content unknown : ContentStatus

pub data ConfidenceLevel : Type 0 where
  blank low medium high : ConfidenceLevel

unfoldable pub Availability-discrete : Discrete Availability
Availability-discrete = hlevel

unfoldable pub DnsStatus-discrete : Discrete DnsStatus
DnsStatus-discrete = hlevel

unfoldable pub HttpStatus-discrete : Discrete HttpStatus
HttpStatus-discrete = hlevel

unfoldable pub RedirectStatus-discrete : Discrete RedirectStatus
RedirectStatus-discrete = hlevel

unfoldable pub IspStatus-discrete : Discrete IspStatus
IspStatus-discrete = hlevel

unfoldable pub TlsStatus-discrete : Discrete TlsStatus
TlsStatus-discrete = hlevel

unfoldable pub ContentStatus-discrete : Discrete ContentStatus
ContentStatus-discrete = hlevel

abbrev pub is_active : Availability → Bool
is_active Availability.active = true
is_active _ = false

abbrev pub is_unavailable : Availability → Bool
is_unavailable Availability.unavailable = true
is_unavailable _ = false

abbrev pub is_unknown : Availability → Bool
is_unknown Availability.unknown = true
is_unknown _ = false

-- The strings that the code compares and the database stores.
unfoldable pub availability_text : Availability → String
availability_text Availability.blank = ""
availability_text Availability.active = "ACTIVE"
availability_text Availability.degraded = "DEGRADED"
availability_text Availability.unavailable = "UNAVAILABLE"
availability_text Availability.unknown = "UNKNOWN"

unfoldable pub dns_text : DnsStatus → String
dns_text DnsStatus.blank = ""
dns_text DnsStatus.ok = "OK"
dns_text DnsStatus.nxdomain = "NXDOMAIN"
dns_text DnsStatus.servfail = "SERVFAIL"
dns_text DnsStatus.refused = "REFUSED"
dns_text DnsStatus.timeout = "TIMEOUT"
dns_text DnsStatus.network_error = "NETWORK_ERROR"
dns_text DnsStatus.discrepancy = "DISCREPANCY"
dns_text DnsStatus.unknown = "UNKNOWN"

unfoldable pub http_text : HttpStatus → String
http_text HttpStatus.blank = ""
http_text HttpStatus.ok = "OK"
http_text HttpStatus.redirect = "REDIRECT"
http_text HttpStatus.client_error = "CLIENT_ERROR"
http_text HttpStatus.server_error = "SERVER_ERROR"
http_text HttpStatus.timeout = "TIMEOUT"
http_text HttpStatus.connection_error = "CONNECTION_ERROR"
http_text HttpStatus.unknown = "UNKNOWN"

unfoldable pub redirect_text : RedirectStatus → String
redirect_text RedirectStatus.blank = ""
redirect_text RedirectStatus.nothing = "NONE"
redirect_text RedirectStatus.temporary = "TEMPORARY"
redirect_text RedirectStatus.permanent = "PERMANENT"
redirect_text RedirectStatus.loop = "LOOP"
redirect_text RedirectStatus.invalid = "INVALID"
redirect_text RedirectStatus.https_downgrade = "HTTPS_DOWNGRADE"
redirect_text RedirectStatus.unknown = "UNKNOWN"

unfoldable pub isp_text : IspStatus → String
isp_text IspStatus.blank = ""
isp_text IspStatus.not_detected = "NOT_DETECTED"
isp_text IspStatus.suspected = "SUSPECTED"
isp_text IspStatus.high_confidence_block = "HIGH_CONFIDENCE_BLOCK"
isp_text IspStatus.unknown = "UNKNOWN"

unfoldable pub tls_text : TlsStatus → String
tls_text TlsStatus.blank = ""
tls_text TlsStatus.valid = "VALID"
tls_text TlsStatus.expiring = "EXPIRING"
tls_text TlsStatus.expired = "EXPIRED"
tls_text TlsStatus.hostname_mismatch = "HOSTNAME_MISMATCH"
tls_text TlsStatus.invalid = "INVALID"
tls_text TlsStatus.error = "ERROR"
tls_text TlsStatus.not_applicable = "NOT_APPLICABLE"
tls_text TlsStatus.unknown = "UNKNOWN"

unfoldable pub content_text : ContentStatus → String
content_text ContentStatus.blank = ""
content_text ContentStatus.valid_html = "VALID_HTML"
content_text ContentStatus.valid_non_html = "VALID_NON_HTML"
content_text ContentStatus.empty = "EMPTY"
content_text ContentStatus.too_small = "TOO_SMALL"
content_text ContentStatus.not_meaningful = "NOT_MEANINGFUL"
content_text ContentStatus.oversized_truncated = "OVERSIZED_TRUNCATED"
content_text ContentStatus.unsupported_content = "UNSUPPORTED_CONTENT"
content_text ContentStatus.unknown = "UNKNOWN"
