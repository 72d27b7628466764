-- ===== src/Dns/Compare/Flags.antt =====
-- When the comparison of two resolvers reports a discrepancy (internal/dnscheck/compare.go).
use domains_checker_infomati.Base.{
  ◌≡◌, refl, List, [], ◌∷◌, Option, none, some, Bool, true, false, not, ◌&&◌, ◌||◌, arith, str_eq,
  eq_iff,
}
use domains_checker_infomati.Base.Text.{Text}
use domains_checker_infomati.Dns.Types.{QueryType, Result, Comparison, code_eq}
use domains_checker_infomati.Dns.Compare.{
  canonical_values, equal_answer_sets, latest_by_type, compare_type, compare_types, compare,
  compared_types, no_difference,
}
use domains_checker_infomati.Dns.Compare.Sets.{lists_eq_sym}

abbrev is_ns : QueryType → Bool
is_ns QueryType.ns = true
is_ns _ = false

module _ (parse : Text → Option Text) where
  -- Both resolvers answered, and not alike.
  unfoldable pub differs : QueryType → Option Result → Option Result → Bool
  differs t (some left) (some right) =
      not (str_eq left.r_code right.r_code)
      || not (code_eq left.error_code right.error_code)
      || not (equal_answer_sets parse left.answers right.answers t)
  differs t none right = false
  differs t (some left) none = false

  compare_type_flags :
      (t : QueryType) (left right : Option Result) (c : Comparison)
      → ((compare_type parse t left right c).discrepancy
          ≡ (c.discrepancy || (not (is_ns t) && differs t left right)))
        × ((compare_type parse t left right c).ns_discrepancy
            ≡ (c.ns_discrepancy || (is_ns t && differs t left right)))
  unfolding compare_type differs
  compare_type_flags t (some left) (some right) c = ground arith
  compare_type_flags t none right c = ground arith
  compare_type_flags t (some left) none c = ground arith

  -- The flags of a comparison: a discrepancy is reported exactly if the latest results of both
  -- resolvers for A, AAAA or CNAME are there and differ in response code, error code or set of
  -- answers, and a discrepancy of name servers exactly if those for NS do.
  pub compare_flags :
      (local alternate : List Result)
      → let d =
          λ (t : QueryType). differs t (latest_by_type local t) (latest_by_type alternate t) in
        ((compare parse local alternate).discrepancy
          ≡ (d QueryType.a || (d QueryType.aaaa || d QueryType.cname)))
        × ((compare parse local alternate).ns_discrepancy ≡ d QueryType.ns)
  unfolding compare
  compare_flags local alternate =
      let l = latest_by_type local in
      let r = latest_by_type alternate in
      let step = λ (t : QueryType) (c : Comparison). compare_type parse t (l t) (r t) c in
      let c1 = step QueryType.a no_difference in
      let c2 = step QueryType.aaaa c1 in
      let c3 = step QueryType.cname c2 in
      ground (
        arith,
        compare_type_flags QueryType.a (l QueryType.a) (r QueryType.a) no_difference,
        compare_type_flags QueryType.aaaa (l QueryType.aaaa) (r QueryType.aaaa) c1,
        compare_type_flags QueryType.cname (l QueryType.cname) (r QueryType.cname) c2,
        compare_type_flags QueryType.ns (l QueryType.ns) (r QueryType.ns) c3,
      )

  compare_type-sym :
      (t : QueryType) (left right : Option Result) (c : Comparison)
      → compare_type parse t left right c ≡ compare_type parse t right left c
  unfolding compare_type
  compare_type-sym t (some left) (some right) c = ground (
    arith,
    eq_iff left.r_code right.r_code,
    eq_iff right.r_code left.r_code,
    lists_eq_sym (canonical_values parse left.answers t) (canonical_values parse right.answers t),
  )
  compare_type-sym t none none c = refl
  compare_type-sym t none (some right) c = refl
  compare_type-sym t (some left) none c = refl

  compare_types-sym :
      (left right : QueryType → Option Result) (ts : List QueryType) (c : Comparison)
      → compare_types parse left right ts c ≡ compare_types parse right left ts c
  unfolding compare_types
  compare_types-sym left right [] c = refl
  compare_types-sym left right (t ∷ ts) c =
      rw (compare_type-sym t (left t) (right t) c)
        (compare_types-sym left right ts (compare_type parse t (right t) (left t) c))

  -- Which resolver is called local makes no difference: flags and reasons are the same.
  pub compare-sym :
      (local alternate : List Result)
      → compare parse local alternate ≡ compare parse alternate local
  unfolding compare
  compare-sym local alternate =
      compare_types-sym (latest_by_type local) (latest_by_type alternate) compared_types
        no_difference
