-- ===== src/Dns/Types.antt =====
-- internal/dnscheck/types.go. A query type is one of the four constants; times and durations are
-- numbers; texts that the code walks are lists of code points.
use domains_checker_infomati.Base.{
  ℕ, String, List, Bool, false, true, Option, none, some, if◌then◌else◌, ◌||◌, ite, str_eq,
}
use domains_checker_infomati.Base.Text.{Text}
use domains_checker_infomati.Netcheck.{Code, Code-discrete, Error, new}

pub data QueryType : Type 0 where
  a aaaa cname ns : QueryType

unfoldable pub QueryType-discrete : Discrete QueryType
QueryType-discrete = hlevel

pub data ResolverType : Type 0 where
  local_system cloudflare_doh remote_system : ResolverType

pub record Answer : Type 0 where
  pub name : Text
  pub type : QueryType
  pub value : Text
  pub ttl : ℕ

pub record Result : Type 0 where
  pub resolver : ResolverType
  pub endpoint : String
  pub query_name : Text
  pub query_type : QueryType
  pub attempt : ℕ
  pub r_code : String
  pub authoritative : Bool
  pub truncated : Bool
  pub transport : String
  pub duration : ℕ
  pub answers : List Answer
  pub error_code : Code
  pub error_message : String
  pub checked_at : ℕ

pub record Comparison : Type 0 where
  pub discrepancy : Bool
  pub ns_discrepancy : Bool
  pub reasons : List String

pub record CnameTrace : Type 0 where
  pub chain : List Text
  pub queries : List Result
  pub loop : Bool
  pub limit_reached : Bool
  pub error_code : Code

abbrev pub code_eq : Code → Code → Bool
code_eq c d = ite (Code-discrete c d) true false

abbrev pub type_eq : QueryType → QueryType → Bool
type_eq s t = ite (QueryType-discrete s t) true false

-- `retryableCode`.
unfoldable pub retryable_code : Code → Bool
retryable_code code =
    code_eq code Code.dns_timeout
    || code_eq code Code.dns_network_error
    || code_eq code Code.dns_servfail

error_message : String → Option String
error_message message = if str_eq message "" then none else some message

-- `Result.Err`.
unfoldable pub result_error : Result → Option Error
unfolding retryable_code error_message new
result_error r =
    if code_eq r.error_code Code.no_code
    then none
    else some (
        new r.error_code "dns" "query" (retryable_code r.error_code)
          (error_message r.error_message))
