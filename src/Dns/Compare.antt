-- ===== src/Dns/Compare.antt =====
-- internal/dnscheck/compare.go. A map from query types is a function; the keys of the set in
-- `canonicalValues` are a list without repetition, which `sort.Strings` then puts in order. `parse`
-- stands for `netip.ParseAddr` with `Unmap` and `String`: the canonical spelling of an address, or
-- nothing where the text is no address.
pub mod Sets
pub mod Flags
use domains_checker_infomati.Base.{
  ℕ, String, List, [], ◌∷◌, ◌++◌, map, Option, none, some, Bool, true, false, not, ◌&&◌, ◌||◌,
  if◌then◌else◌, ltb, leb, ◌==◌, str_eq, has_text,
}
use domains_checker_infomati.Base.Text.{Text, codes, text_eq, to_lower, lower, trim_dot, trim}
use domains_checker_infomati.Base.Texts.{has}
use domains_checker_infomati.Netcheck.{Code}
use domains_checker_infomati.Dns.Types.{QueryType, Answer, Result, Comparison, code_eq, type_eq}

-- The order of Go's strings.
unfoldable pub text_lt : Text → Text → Bool
text_lt xs [] = false
text_lt [] (y ∷ ys) = true
text_lt (x ∷ xs) (y ∷ ys) = ltb x y || (x == y && text_lt xs ys)

-- The keys of a map that is filled in the order of the list.
unfoldable pub distinct : List Text → List Text
distinct [] = []
distinct (x ∷ xs) = let rest = distinct xs in if has x rest then rest else x ∷ rest

insert_sorted : Text → List Text → List Text
unfolding text_lt
insert_sorted x [] = x ∷ []
insert_sorted x (y ∷ ys) = if text_lt y x then y ∷ insert_sorted x ys else x ∷ y ∷ ys

-- `sort.Strings`.
unfoldable pub sort : List Text → List Text
unfolding insert_sorted
sort [] = []
sort (x ∷ xs) = insert_sorted x (sort xs)

abbrev pub type_text : QueryType → Text
type_text QueryType.a = codes "A"
type_text QueryType.aaaa = codes "AAAA"
type_text QueryType.cname = codes "CNAME"
type_text QueryType.ns = codes "NS"

-- An answer that the comparison of the query type looks at.
unfoldable pub relevant : QueryType → Answer → Bool
relevant t answer =
    type_eq answer.type t
    || ((type_eq t QueryType.a || type_eq t QueryType.aaaa) && type_eq answer.type QueryType.cname)

-- The comparison of the two sorted lists, lengths first in the source.
abbrev pub lists_eq : List Text → List Text → Bool
lists_eq [] [] = true
lists_eq [] (y ∷ ys) = false
lists_eq (x ∷ xs) [] = false
lists_eq (x ∷ xs) (y ∷ ys) = text_eq x y && lists_eq xs ys

-- The step of the loop in `latestByType` for one query type.
newer : Result → Option Result → Option Result
newer result none = some result
newer result (some current) =
    if leb current.attempt result.attempt then some result else some current

latest_from : Option Result → QueryType → List Result → Option Result
unfolding newer
latest_from current t [] = current
latest_from current t (result ∷ results) =
    latest_from (if type_eq result.query_type t then newer result current else current) t results

unfoldable pub latest_by_type : List Result → QueryType → Option Result
unfolding latest_from
latest_by_type results t = latest_from none t results

-- `addReason`.
unfoldable pub add_reason : Comparison → String → Comparison
add_reason c reason =
    if has_text reason c.reasons then c else record c { reasons = c.reasons ++ reason ∷ [] }

-- What is noted for a difference: the reason, unless the type is NS.
unfoldable pub note_difference : QueryType → String → Comparison → Comparison
unfolding add_reason
note_difference QueryType.ns reason c =
    add_reason (record c { ns_discrepancy = true }) "DNS_NS_DISCREPANCY"
note_difference t reason c = add_reason (record c { discrepancy = true }) reason

abbrev pub compared_types : List QueryType
compared_types = QueryType.a ∷ QueryType.aaaa ∷ QueryType.cname ∷ QueryType.ns ∷ []

abbrev pub no_difference : Comparison
no_difference = record { discrepancy = false; ns_discrepancy = false; reasons = [] }

module _ (parse : Text → Option Text) where
  spelled : Text → Option Text → Text
  spelled value none = value
  spelled value (some canonical) = canonical

  -- The key of one answer.
  unfoldable pub answer_key : Answer → Text
  unfolding spelled lower trim_dot trim
  answer_key answer =
      let value = to_lower (trim_dot (trim answer.value)) in
      type_text answer.type ++ (b':' ∷ spelled value (parse value))

  unfoldable pub keys : QueryType → List Answer → List Text
  unfolding relevant answer_key
  keys t [] = []
  keys t (answer ∷ answers) =
      let rest = keys t answers in if relevant t answer then answer_key answer ∷ rest else rest

  unfoldable pub canonical_values : List Answer → QueryType → List Text
  unfolding keys distinct sort
  canonical_values answers t = sort (distinct (keys t answers))

  unfoldable pub equal_answer_sets : List Answer → List Answer → QueryType → Bool
  unfolding canonical_values
  equal_answer_sets left right t = lists_eq (canonical_values left t) (canonical_values right t)

  -- The body of the loop in `Compare`.
  unfoldable pub compare_type : QueryType → Option Result → Option Result → Comparison → Comparison
  unfolding note_difference equal_answer_sets
  compare_type t (some left) (some right) c =
      if not (str_eq left.r_code right.r_code) || not (code_eq left.error_code right.error_code)
      then note_difference t "DNS_RCODE_DISCREPANCY" c
      else if not (equal_answer_sets left.answers right.answers t)
      then note_difference t "DNS_ANSWER_DISCREPANCY" c
      else c
  compare_type t none right c = c
  compare_type t (some left) none c = c

  compare_types :
      (QueryType → Option Result)
      → (QueryType → Option Result)
      → List QueryType
      → Comparison
      → Comparison
  unfolding compare_type
  compare_types left right [] c = c
  compare_types left right (t ∷ ts) c =
      compare_types left right ts (compare_type t (left t) (right t) c)

  -- `Compare`.
  unfoldable pub compare : List Result → List Result → Comparison
  unfolding latest_by_type compare_types
  compare local alternate =
      compare_types (latest_by_type local) (latest_by_type alternate) compared_types no_difference
