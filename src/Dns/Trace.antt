-- ===== src/Dns/Trace.antt =====
-- internal/dnscheck/checker.go: `TraceCNAME`, which follows a chain of aliases. `ask n name` are the
-- results of the query of step `n`, and `fqdn` is `dns.Fqdn`.
pub mod Chain
use domains_checker_infomati.Base.{
  ℕ, zero, suc, ◌+◌, List, [], ◌∷◌, ◌++◌, Option, none, some, Bool, true, false, not, ◌&&◌,
  if◌then◌else◌, leb, last?,
}
use domains_checker_infomati.Base.Int.{ℤ, pos, pos_part, ltb_ℤ}
use domains_checker_infomati.Base.Text.{Text, text_eq, to_lower, trim}
use domains_checker_infomati.Netcheck.{Code, Code-discrete}
use domains_checker_infomati.Dns.Types.{QueryType, Answer, Result, CnameTrace, code_eq, type_eq}
use domains_checker_infomati.Base.Texts.{has}

module _ (fqdn : Text → Text) where
  -- The first alias of the name among the answers, as a full name; "" where there is none.
  unfoldable pub target_of : Text → List Answer → Text
  target_of current [] = []
  target_of current (answer ∷ rest) =
      let found = target_of current rest in
      if type_eq answer.type QueryType.cname && text_eq (to_lower answer.name) (to_lower current)
      then fqdn (to_lower answer.value)
      else found

  module _ (ask : ℕ → Text → List Result) where
    -- The loop: `left` steps from step `depth` on.
    unfoldable pub follow : ℕ → ℕ → Text → List Text → CnameTrace → CnameTrace
    unfolding target_of
    follow zero depth current seen trace = record trace {
      limit_reached = true;
      error_code = Code.dns_cname_limit;
    }
    follow (suc left) depth current seen trace =
        let results = ask depth current in
        let asked = record trace { queries = trace.queries ++ results } in
        elim (last? results) [
          | none ↦ asked
          | some latest ↦
              let target = target_of current latest.answers in
              let longer = record asked { chain = asked.chain ++ target ∷ [] } in
              let next = follow left (depth + 1) target (target ∷ seen) longer in
              if not (code_eq latest.error_code Code.no_code)
              then record asked { error_code = latest.error_code }
              else if text_eq target []
              then asked
              else if has target seen
              then record longer { loop = true; error_code = Code.dns_cname_loop }
              else next
        ]

    -- `TraceCNAME`.
    unfoldable pub trace_cname : Text → ℤ → CnameTrace
    unfolding follow
    trace_cname name max_depth =
        let depth = if ltb_ℤ max_depth (pos 1) then 8 else pos_part max_depth in
        let current = fqdn (to_lower (trim name)) in
        follow depth 0 current (current ∷ []) (record {
          chain = current ∷ [];
          queries = [];
          loop = false;
          limit_reached = false;
          error_code = Code.no_code;
        })
