-- ===== src/Dns/Tests.antt =====
-- Two resolvers compared, and the theorems at their answers.
use domains_checker_infomati.Base.{ℕ, String, List, [], ◌∷◌, ◌≡◌, refl, true, false, none, Option}
use domains_checker_infomati.Base.Text.{Text, codes, lower, trim, trim_dot}
use domains_checker_infomati.Base.Texts.{has}
use domains_checker_infomati.Netcheck.{Code}
use domains_checker_infomati.Dns.Types.{QueryType, ResolverType, Answer, Result, QueryType-discrete}
use domains_checker_infomati.Dns.Compare.{keys, equal_answer_sets}
use domains_checker_infomati.Dns.Compare.Sets.{equal_answer_sets_iff}

-- No text is an address.
abbrev no_address : Text → Option Text
no_address value = none

abbrev answer : QueryType → String → Answer
answer t value = record { name = codes "a.example."; type = t; value = codes value; ttl = 60 }

abbrev result : QueryType → ℕ → List Answer → Result
result t attempt answers = record {
  resolver = ResolverType.local_system;
  endpoint = "system";
  query_name = codes "a.example.";
  query_type = t;
  attempt = attempt;
  r_code = "NOERROR";
  authoritative = false;
  truncated = false;
  transport = "udp";
  duration = 0;
  answers = answers;
  error_code = Code.no_code;
  error_message = "";
  checked_at = 0;
}

abbrev here : List Answer
here = answer QueryType.a "192.0.2.1" ∷ answer QueryType.cname "B.Example." ∷ []

abbrev there : List Answer
there =
    answer QueryType.cname "b.example"
    ∷ answer QueryType.a "192.0.2.1"
    ∷ answer QueryType.a " 192.0.2.1"
    ∷ []

same_sets : equal_answer_sets no_address here there QueryType.a ≡ true
unfolding equal_answer_sets lower trim trim_dot QueryType-discrete
same_sets = refl

equal_answer_sets_iff_example :
    has (codes "192.0.2.1") (keys no_address QueryType.a here)
    ≡ has (codes "192.0.2.1") (keys no_address QueryType.a there)
equal_answer_sets_iff_example =
    (equal_answer_sets_iff no_address here there QueryType.a).0 same_sets (codes "192.0.2.1")

abbrev local : List Result
local = result QueryType.a 1 here ∷ []

abbrev alternate : List Result
alternate = result QueryType.a 1 [] ∷ result QueryType.a 2 there ∷ []
