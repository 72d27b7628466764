-- ===== src/Finance/Engine/Rates.antt =====
-- `Convert` of internal/finance/engine.go uses only fresh rates.
use domains_checker_infomati.Base.{some, true, ◌≡◌, ◌⊎◌, inl, inr, arith, Bool-cases, Option-cases}
use domains_checker_infomati.Base.Int.{ℤ, pos, ◌≤ℤ◌, ◌-ℤ◌, ◌+ℤ◌}
use domains_checker_infomati.Base.Text.{text_eq, trim, to_upper}
use domains_checker_infomati.Base.Outcome.{ok, Outcome-cases}
use domains_checker_infomati.Finance.Decimal.{
  Decimal, parse_decimal, is_positive, mul, float_string,
}
use domains_checker_infomati.Finance.Engine.{
  FxInput, FxResult, convert, convert_at, is_stale, five_minutes, parse_checked,
}

-- A positive rate that was observed within the age that is allowed, and not in the future.
pub record IsFresh (i : FxInput) (amount rate : Decimal) (observed : ℤ) (r : FxResult)
    : Type 0 where
  pub parsed : parse_decimal i.rate 10 ≡ ok rate
  pub positive : is_positive rate ≡ true
  pub seen : i.observed_at ≡ some observed
  pub allowed : pos 1 ≤ℤ i.max_age
  pub young : (i.now -ℤ observed) ≤ℤ i.max_age
  pub past : observed ≤ℤ (i.now +ℤ pos five_minutes)
  pub result : r.converted_amount ≡ some (float_string 6 (mul amount rate))

abbrev pub Same : FxInput → Type 0
Same i = text_eq (to_upper (trim i.from_currency)) (to_upper (trim i.to_currency)) ≡ true

-- A conversion between two currencies is complete only with a positive rate that was observed at a known
-- time, no longer ago than the maximal age and no more than five minutes ahead, and it is then the
-- product, printed with six decimals.
pub convert-IsFresh :
    (i : FxInput) (r : FxResult)
    → convert i ≡ ok r
    → r.complete ≡ true
    → Same i
      ⊎ ((amount rate : Decimal) × (observed : ℤ) × (parse_decimal i.amount 6 ≡ ok amount)
          × IsFresh i amount rate observed r)
unfolding convert convert_at is_stale parse_checked
convert-IsFresh i r h done = elim (Outcome-cases (parse_decimal i.amount 6)) [
  | inr (e, refused) ↦ absurd (ground arith)
  | inl (amount, read) ↦
      elim (Bool-cases
        (text_eq (to_upper (trim i.from_currency)) (to_upper (trim i.to_currency)))) [
          | inl same ↦ inl same
          | inr other ↦ elim (Outcome-cases (parse_decimal i.rate 10)) [
            | inr (e, missing) ↦ absurd (ground arith)
            | inl (rate, priced) ↦ elim (Option-cases i.observed_at) [
              | inl unseen ↦ absurd (ground arith)
              | inr (observed, seen) ↦ inr (
                amount,
                rate,
                observed,
                read,
                record {
                  parsed = priced;
                  positive = ground arith;
                  seen = seen;
                  allowed = ground arith;
                  young = ground arith;
                  past = ground arith;
                  result = ground arith;
                },
              )
            ]
          ]
        ]
]
