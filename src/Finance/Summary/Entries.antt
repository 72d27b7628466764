-- ===== src/Finance/Summary/Entries.antt =====
-- internal/finance/summary.go: the amounts that a domain adds to the budget, if it adds any.
use domains_checker_infomati.Base.{ℕ, suc, List, [], ◌∷◌, Option, none, some, true, ◌≡◌}
use domains_checker_infomati.Base.Text.{Text}
use domains_checker_infomati.Base.Outcome.{ok}
use domains_checker_infomati.Finance.Decimal.{Decimal, add}
use domains_checker_infomati.Finance.Engine.{CostInput, CostResult, calculate}
use domains_checker_infomati.Finance.Summary.Books.{BudgetCost, Books, convert_for_summary}
use domains_checker_infomati.Finance.Summary.Count.{cost_input}

-- The three amounts of a domain in the reporting currency.
pub record Amounts : Type 0 where
  pub cycle : Decimal
  pub tax : Decimal
  pub annual : Decimal

abbrev pub ConvertsTo : Books → CostResult → Option Text → Decimal → Type 0
ConvertsTo b r printed d =
    (text : Text) × (printed ≡ some text) × (convert_for_summary b text r.currency ≡ some d)

-- The cost is recorded, its calculation is complete and all three amounts have a rate.
pub record IsConverted (b : Books) (c : BudgetCost) (a : Amounts) : Type 0 where
  pub input : CostInput
  pub result : CostResult
  pub recorded : cost_input c ≡ some input
  pub calculated : calculate input ≡ ok result
  pub complete : result.complete ≡ true
  pub cycle : ConvertsTo b result result.cycle_total a.cycle
  pub tax : ConvertsTo b result result.tax_amount a.tax
  pub annual : ConvertsTo b result result.annual_estimate a.annual

abbrev pub IsEntry : Books → BudgetCost → Option Amounts → Type 0
IsEntry b c none = (a : Amounts) → ¬ IsConverted b c a
IsEntry b c (some a) = IsConverted b c a

-- An entry for each domain.
abbrev pub Entries : Books → List BudgetCost → List (Option Amounts) → Type 0
Entries b [] [] = Unit
Entries b (c ∷ cs) [] = ⊥
Entries b [] (e ∷ es) = ⊥
Entries b (c ∷ cs) (e ∷ es) = IsEntry b c e × Entries b cs es

abbrev pub missing : List (Option Amounts) → ℕ
missing [] = 0
missing (none ∷ es) = suc (missing es)
missing (some a ∷ es) = missing es

abbrev pub sum_of : (Amounts → Decimal) → List (Option Amounts) → Decimal → Decimal
sum_of f [] total = total
sum_of f (none ∷ es) total = sum_of f es total
sum_of f (some a ∷ es) total = sum_of f es (add total (f a))

abbrev pub unconverted : Books → List (Text × Text) → ℕ
unconverted b [] = 0
unconverted b ((amount, currency) ∷ rows) =
    let rest = unconverted b rows in
    elim (convert_for_summary b amount currency) [ none ↦ suc rest | some d ↦ rest ]
