-- ===== src/Dns/Trace/Chain.antt =====
-- Where the chain of aliases ends (internal/dnscheck/checker.go).
use domains_checker_infomati.Base.{
  ℕ, ◌+◌, ◌≤◌, ◌≡◌, List, [], ◌∷◌, ◌++◌, true, false, length, if◌then◌else◌,
}
use domains_checker_infomati.Base.Int.{ℤ, pos, pos_part, ltb_ℤ}
use domains_checker_infomati.Base.Text.{Text}
use domains_checker_infomati.Base.Texts.{has, Nub}
use domains_checker_infomati.Netcheck.{Code}
use domains_checker_infomati.Dns.Types.{Result, CnameTrace}

-- The three ways in which a trace of at most `depth` steps ends.
pub data IsTrace (depth : ℕ) (t : CnameTrace) : Type 0 where
  -- The last name of the chain closes a loop; the names before it are distinct.
  looped :
      (start : List Text) (again : Text)
      → t.chain ≡ start ++ again ∷ []
      → Nub start
      → has again start ≡ true
      → length start ≤ depth
      → t.loop ≡ true
      → t.limit_reached ≡ false
      → t.error_code ≡ Code.dns_cname_loop
      → IsTrace depth t
  -- Every step found a new name.
  limited :
      Nub t.chain
      → length t.chain ≡ depth + 1
      → t.loop ≡ false
      → t.limit_reached ≡ true
      → t.error_code ≡ Code.dns_cname_limit
      → IsTrace depth t
  -- A step found no alias, or failed.
  ended :
      Nub t.chain
      → length t.chain ≤ depth
      → t.loop ≡ false
      → t.limit_reached ≡ false
      → IsTrace depth t

-- The loop's invariant before the step `n`.
record IsOpen (n : ℕ) (seen : List Text) (t : CnameTrace) : Type 0 where
  no_repeat : Nub t.chain
  known : (x : Text) → has x seen ≡ has x t.chain
  size : length t.chain ≡ n + 1
  no_loop : t.loop ≡ false
  no_limit : t.limit_reached ≡ false

module _ (fqdn : Text → Text) (ask : ℕ → Text → List Result) where
  abbrev steps : ℤ → ℕ
  steps max_depth = if ltb_ℤ max_depth (pos 1) then 8 else pos_part max_depth
