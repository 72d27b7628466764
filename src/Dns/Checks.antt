-- ===== src/Dns/Checks.antt =====
-- Queries and traces by example: a name server that fails once, and an alias of itself.
use domains_checker_infomati.Base.{
  ℕ, ◌≡◌, refl, String, List, [], ◌∷◌, ◌++◌, if◌then◌else◌, none, Bool, true, false, ◌==◌, length,
}
use domains_checker_infomati.Base.Int.{pos}
use domains_checker_infomati.Base.Text.{Text, codes, lower, trim}
use domains_checker_infomati.Netcheck.{Code, Code-discrete, ContextState, new}
use domains_checker_infomati.Retry.{Policy, normalized}
use domains_checker_infomati.Dns.Types.{
  QueryType, ResolverType, Result, QueryType-discrete, result_error,
}
use domains_checker_infomati.Dns.Query.{
  Exchange, Message, Outcome, query, retries, attempt_result, attempts_from, classify_rcode,
  retryable_error,
}
use domains_checker_infomati.Dns.Query.Attempts.{Trail, query-Trail}
use domains_checker_infomati.Dns.Query.Codes.{result_error-retryable}
use domains_checker_infomati.Dns.Trace.{trace_cname, follow, target_of}

abbrev rcode_text : ℕ → String
rcode_text rcode = "YXDOMAIN"

abbrev reply : ℕ → Message
reply rcode = record { rcode = rcode; authoritative = false; truncated = false; answer = [] }

abbrev received : ℕ → Exchange
received rcode = record {
  outcome = Outcome.message (reply rcode);
  duration = 1;
  transport = "udp";
  truncated = false;
  parent = ContextState.live;
  attempt_expired = false;
}

-- SERVFAIL first, then an answer.
abbrev exchange : ℕ → Exchange
exchange n = if n == 1 then received 2 else received 0

abbrev waits : ℕ → Bool
waits n = true

abbrev now : ℕ → ℕ
now n = n

abbrev any_name : Text → Bool
any_name name = true

-- `dns.Fqdn` on names without a final dot.
abbrev dotted : Text → Text
dotted name = name ++ codes "."

abbrev policy : Policy
policy = record { max_attempts = pos 3; base_delay = pos 100; max_delay = pos 1000; jitter = none }

abbrev results : List Result
results =
    query rcode_text ResolverType.local_system "system" exchange waits now any_name dotted policy
      (codes " A.example") QueryType.a

two_results : length results ≡ 2
unfolding query attempts_from normalized retries classify_rcode attempt_result new trim lower
two_results = refl

query-Trail_example :
    Trail rcode_text ResolverType.local_system "system" exchange waits now 3 1 results
unfolding normalized trim lower
query-Trail_example =
    query-Trail rcode_text ResolverType.local_system "system" exchange waits now any_name dotted
      policy (codes " A.example") QueryType.a refl

result_error-retryable_example :
    retryable_error rcode_text (
      result_error (
        attempt_result rcode_text ResolverType.local_system "system" [] QueryType.a 1 0
          (received 6)))
    ≡ true
result_error-retryable_example =
    (result_error-retryable rcode_text ResolverType.local_system "system" [] QueryType.a 1 0
      (received 6) (reply 6) refl).1

-- Every name is an alias of one name.
abbrev alias : ℕ → Text → List Result
alias n name =
    record {
      resolver = ResolverType.local_system;
      endpoint = "system";
      query_name = name;
      query_type = QueryType.cname;
      attempt = 1;
      r_code = "NOERROR";
      authoritative = false;
      truncated = false;
      transport = "udp";
      duration = 0;
      answers =
          record { name = name; type = QueryType.cname; value = codes "b.example"; ttl = 60 } ∷ [];
      error_code = Code.no_code;
      error_message = "";
      checked_at = 0;
    }
    ∷ []

loops : (trace_cname dotted alias (codes "a.example") (pos 0)).loop ≡ true
unfolding trace_cname follow target_of trim lower QueryType-discrete Code-discrete
loops = refl
