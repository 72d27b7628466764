-- ===== src/Dns/Query.antt =====
-- internal/dnscheck/checker.go: one query with its retries. What the world answers is a parameter:
-- the exchange of each attempt, the waits between attempts and the clock; so is what the DNS library
-- says of names and response codes.
pub mod Attempts
pub mod Codes
use Prim.Native.String.{◌++◌ as append}
use domains_checker_infomati.Base.{
  ℕ, zero, suc, ◌+◌, String, List, [], ◌∷◌, Option, none, some, Bool, true, false, not, ◌&&◌, ◌||◌,
  if◌then◌else◌, leb, ◌==◌,
}
use domains_checker_infomati.Base.Int.{pos_part}
use domains_checker_infomati.Base.Text.{Text, codes, to_lower, text_eq, trim}
use domains_checker_infomati.Netcheck.{
  Code, Error, Failure, ContextState, new, error_text, is_canceled, is_expired,
}
use domains_checker_infomati.Retry.{Policy, normalized}
use domains_checker_infomati.Dns.Types.{QueryType, ResolverType, Answer, Result}

-- A resource record of a response.
pub data Record : Type 0 where
  a aaaa cname ns : Text → ℕ → Text → Record
  other : Record

-- The header and the answers of a message.
pub record Message : Type 0 where
  pub rcode : ℕ
  pub authoritative : Bool
  pub truncated : Bool
  pub answer : List Record

-- What `Exchange` returns, and the states of the contexts when it returned.
pub data Outcome : Type 0 where
  failed : Failure → Outcome
  nothing : Outcome
  message : Message → Outcome

pub record Exchange : Type 0 where
  pub outcome : Outcome
  pub duration : ℕ
  pub transport : String
  pub truncated : Bool
  pub parent : ContextState
  pub attempt_expired : Bool

-- `parseAnswers`.
unfoldable pub parse_answers : List Record → List Answer
parse_answers [] = []
parse_answers (Record.a name ttl value ∷ rs) =
    record { name = to_lower name; type = QueryType.a; value = value; ttl = ttl } ∷ parse_answers rs
parse_answers (Record.aaaa name ttl value ∷ rs) =
    record { name = to_lower name; type = QueryType.aaaa; value = value; ttl = ttl }
    ∷ parse_answers rs
parse_answers (Record.cname name ttl value ∷ rs) =
    record { name = to_lower name; type = QueryType.cname; value = to_lower value; ttl = ttl }
    ∷ parse_answers rs
parse_answers (Record.ns name ttl value ∷ rs) =
    record { name = to_lower name; type = QueryType.ns; value = to_lower value; ttl = ttl }
    ∷ parse_answers rs
parse_answers (Record.other ∷ rs) = parse_answers rs

-- `classifyExchangeError`; `canceled` and `deadline_exceeded` of the failure are `errors.Is`.
unfoldable pub classify_exchange_error : ContextState → Bool → Failure → Error
unfolding new
classify_exchange_error parent attempt_expired f = elim f.check [
  | some existing ↦ existing
  | none ↦
      if is_canceled parent
      then new Code.run_cancelled "dns" "query" false (some "context canceled")
      else if is_expired parent
      then new Code.run_deadline_exceeded "dns" "query" false (some "context deadline exceeded")
      else if attempt_expired || f.deadline_exceeded
      then new Code.dns_timeout "dns" "query" true (some "context deadline exceeded")
      else if f.net_timeout
      then new Code.dns_timeout "dns" "query" true (some f.text)
      else new Code.dns_network_error "dns" "query" true (some f.text)
]

module _ (rcode_text : ℕ → String) where
  -- `classifyRCode`, by the response codes of RFC 1035.
  unfoldable pub classify_rcode : ℕ → Option Error
  unfolding new
  classify_rcode rcode =
      if rcode == 0
      then none
      else if rcode == 3
      then some (new Code.dns_nxdomain "dns" "query" false (some "DNS response code NXDOMAIN"))
      else if rcode == 2
      then some (new Code.dns_servfail "dns" "query" true (some "DNS response code SERVFAIL"))
      else if rcode == 5
      then some (new Code.dns_refused "dns" "query" false (some "DNS response code REFUSED"))
      else some (
          new Code.dns_network_error "dns" "query" false
            (some (append "DNS response code " (rcode_text rcode))))

  abbrev pub code_of : Option Error → Code
  code_of none = Code.no_code
  code_of (some e) = e.code

  abbrev pub message_of : Option Error → String
  message_of none = ""
  message_of (some e) = error_text e

  abbrev pub retryable_error : Option Error → Bool
  retryable_error none = false
  retryable_error (some e) = e.retryable

  -- The error of one exchange, if it had one.
  exchange_error : Exchange → Option Error
  unfolding classify_exchange_error classify_rcode new
  exchange_error x = elim x.outcome [
    | Outcome.failed f ↦ some (classify_exchange_error x.parent x.attempt_expired f)
    | Outcome.nothing ↦
        some (
          new Code.dns_malformed_response "dns" "query" false (some "resolver returned no message"))
    | Outcome.message m ↦ classify_rcode m.rcode
  ]

  -- Whether the loop goes on to another attempt, were there one left.
  unfoldable pub retries : Exchange → Bool
  unfolding exchange_error
  retries x = retryable_error (exchange_error x)

  module _ (resolver : ResolverType) (endpoint : String) where
    -- The `Result` of one attempt.
    unfoldable pub attempt_result : Text → QueryType → ℕ → ℕ → Exchange → Result
    unfolding exchange_error
    attempt_result name t attempt checked_at x =
        let r : Result = record {
          resolver = resolver;
          endpoint = endpoint;
          query_name = name;
          query_type = t;
          attempt = attempt;
          r_code = "";
          authoritative = false;
          truncated = x.truncated;
          transport = x.transport;
          duration = x.duration;
          answers = [];
          error_code = code_of (exchange_error x);
          error_message = message_of (exchange_error x);
          checked_at = checked_at;
        } in
        elim x.outcome [
          | Outcome.failed f ↦ r
          | Outcome.nothing ↦ r
          | Outcome.message m ↦ record r {
            r_code = rcode_text m.rcode;
            authoritative = m.authoritative;
            truncated = x.truncated || m.truncated;
            answers = parse_answers m.answer;
          }
        ]

    module _ (exchange : ℕ → Exchange) (waits : ℕ → Bool) (now : ℕ → ℕ) where
      -- The loop: `left` attempts from the given one on; `waits n` is whether the wait after attempt
      -- `n` ended without an error.
      unfoldable pub attempts_from : Text → QueryType → ℕ → ℕ → ℕ → List Result
      attempts_from name t most zero attempt = []
      attempts_from name t most (suc left) attempt =
          let rest = attempts_from name t most left (attempt + 1) in
          let r = attempt_result name t attempt (now attempt) (exchange attempt) in
          if not (retries (exchange attempt)) || leb most attempt || not (waits attempt)
          then r ∷ []
          else r ∷ rest

      -- A name that is no domain name ends in this result, without an exchange.
      invalid_name : Text → QueryType → Result
      invalid_name name t = record {
        resolver = resolver;
        endpoint = endpoint;
        query_name = name;
        query_type = t;
        attempt = 1;
        r_code = "";
        authoritative = false;
        truncated = false;
        transport = "";
        duration = 0;
        answers = [];
        error_code = Code.normalization_invalid;
        error_message = "invalid DNS query name";
        checked_at = now 0;
      }

      module _ (is_domain_name : Text → Bool) (fqdn : Text → Text) where
        -- `Query`. The other invalid case, an unsupported type, has no value in `QueryType`.
        unfoldable pub query : Policy → Text → QueryType → List Result
        unfolding attempts_from invalid_name normalized
        query policy name t =
            let cleaned = to_lower (trim name) in
            let most = pos_part (normalized policy).max_attempts in
            if not (is_domain_name cleaned) || text_eq cleaned (codes ".")
            then invalid_name cleaned t ∷ []
            else attempts_from (fqdn cleaned) t most most 1
