-- ===== src/Finance/Summary/Windows.antt =====
-- internal/finance/summary.go: the windows in which a domain expires. The map of the windows is a
-- function of their names.
use domains_checker_infomati.Base.{
  ℕ, ◌*◌, List, [], ◌∷◌, ◌++◌, Option, none, some, Bool, true, false, not, if◌then◌else◌, ◌==◌,
}
use domains_checker_infomati.Base.Int.{ℤ, pos, ltb_ℤ, ◌+ℤ◌}

pub data WindowName : Type 0 where
  next_30_days next_60_days next_90_days this_year : WindowName

unfoldable pub WindowName-discrete : Discrete WindowName
WindowName-discrete = hlevel

unfoldable pub same_window : WindowName → WindowName → Bool
unfolding WindowName-discrete
same_window a b = elim (WindowName-discrete a b) [ yes e ↦ true | no d ↦ false ]

pub record BudgetWindow : Type 0 where
  pub domain_count : ℕ
  pub known_renewals : ℕ
  pub unknown_costs : ℕ

-- A day in nanoseconds.
abbrev pub day : ℕ
day = 24 * 3600000000000

abbrev pub within : ℤ → ℤ → ℕ → Bool
within now date days = not (ltb_ℤ (now +ℤ pos (days * day)) date)

-- `year` is the year of a time in UTC.
unfoldable pub applicable_windows : (ℤ → ℕ) → ℤ → Option ℤ → List WindowName
applicable_windows year now none = []
applicable_windows year now (some date) =
    if ltb_ℤ date now
    then []
    else (if within now date 30 then next_30_days ∷ [] else [])
      ++ ((if within now date 60 then next_60_days ∷ [] else [])
          ++ ((if within now date 90 then next_90_days ∷ [] else [])
              ++ (if year date == year now then this_year ∷ [] else [])))

-- `for _, name := range windows { m[name] = f(m[name]) }`.
unfoldable pub touch {ℓ} :
    {A : Type ℓ} → (A → A) → List WindowName → (WindowName → A) → WindowName → A
touch f [] m = m
touch f (name ∷ names) m = touch f names (λ key. if same_window name key then f (m key) else m key)
