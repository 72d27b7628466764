-- ===== src/Finance/Summary/Hits.antt =====
-- internal/finance/summary.go: the windows that a date is in, and how often a window is touched.
use domains_checker_infomati.Base.{
  ℕ, suc, ◌+◌, List, [], ◌∷◌, ◌++◌, Option, none, some, Bool, true, false, not, ◌&&◌, ◌≡◌, refl,
  arith, if◌then◌else◌, ◌==◌, Bool-cases, inl, inr,
}
use domains_checker_infomati.Base.Int.{ℤ, ltb_ℤ}
use domains_checker_infomati.Finance.Summary.Books.{BudgetCost}
use domains_checker_infomati.Finance.Summary.Windows.{
  WindowName, next_30_days, next_60_days, next_90_days, this_year, WindowName-discrete, same_window,
  BudgetWindow, within, applicable_windows, touch,
}

-- What a window promises of a date.
abbrev pub in_span : (ℤ → ℕ) → ℤ → WindowName → ℤ → Bool
in_span year now next_30_days date = within now date 30
in_span year now next_60_days date = within now date 60
in_span year now next_90_days date = within now date 90
in_span year now this_year date = year date == year now

-- The domain does not expire before now, and it expires in the window.
abbrev pub expires_in : (ℤ → ℕ) → ℤ → WindowName → Option ℤ → Bool
expires_in year now name none = false
expires_in year now name (some date) = not (ltb_ℤ date now) && in_span year now name date

abbrev pub one : Bool → ℕ
one b = if b then 1 else 0

-- The number of domains that expire in the window.
abbrev pub expiring : (ℤ → ℕ) → ℤ → WindowName → List BudgetCost → ℕ
expiring year now name [] = 0
expiring year now name (c ∷ cs) =
    one (expires_in year now name c.expires_at) + expiring year now name cs

pub hits : List WindowName → WindowName → ℕ
hits [] key = 0
hits (name ∷ names) key = one (same_window name key) + hits names key

hits-if :
    (b : Bool) (name key : WindowName) (ys : List WindowName)
    → hits ((if b then name ∷ [] else []) ++ ys) key ≡ one (b && same_window name key) + hits ys key
unfolding hits
hits-if true name key ys = refl
hits-if false name key ys = omega arith

hits-optional :
    (b : Bool) (name key : WindowName)
    → hits (if b then name ∷ [] else []) key ≡ one (b && same_window name key)
unfolding hits
hits-optional true name key = omega arith
hits-optional false name key = refl

only_one :
    (year : ℤ → ℕ) (now date : ℤ) (key : WindowName)
    → one (within now date 30 && same_window next_30_days key)
        + (one (within now date 60 && same_window next_60_days key)
            + (one (within now date 90 && same_window next_90_days key)
                + one (year date == year now && same_window this_year key)))
      ≡ one (in_span year now key date)
unfolding same_window WindowName-discrete
only_one year now date next_30_days = ground arith
only_one year now date next_60_days = ground arith
only_one year now date next_90_days = ground arith
only_one year now date this_year = ground arith

-- A date is in each window at most once.
pub hits-applicable :
    (year : ℤ → ℕ) (now : ℤ) (date : Option ℤ) (key : WindowName)
    → hits (applicable_windows year now date) key ≡ one (expires_in year now key date)
unfolding applicable_windows hits
hits-applicable year now none key = refl
hits-applicable year now (some date) key = elim (Bool-cases (ltb_ℤ date now)) [
  | inl past ↦ rw past refl
  | inr future ↦
      let by_year = if year date == year now then this_year ∷ [] else [] in
      let by_90 = (if within now date 90 then next_90_days ∷ [] else []) ++ by_year in
      let by_60 = (if within now date 60 then next_60_days ∷ [] else []) ++ by_90 in
      rw future (
        omega (
          arith,
          hits-if (within now date 30) next_30_days key by_60,
          hits-if (within now date 60) next_60_days key by_90,
          hits-if (within now date 90) next_90_days key by_year,
          hits-optional (year date == year now) this_year key,
          only_one year now date key,
        ))
]

module _ (key : WindowName) (f : BudgetWindow → BudgetWindow) (count : BudgetWindow → ℕ) where
  pub touch_counts :
      (names : List WindowName) (m : WindowName → BudgetWindow)
      → ((w : BudgetWindow) → count (f w) ≡ suc (count w))
      → count (touch f names m key) ≡ count (m key) + hits names key
  unfolding touch hits
  touch_counts [] m h = omega arith
  touch_counts (name ∷ names) m h =
      let rest = touch_counts names (λ k. if same_window name k then f (m k) else m k) h in
      elim (Bool-cases (same_window name key)) [
        | inl e ↦ ground (arith, rest, h (m key))
        | inr e ↦ ground (arith, rest)
      ]

  pub touch_keeps :
      (names : List WindowName) (m : WindowName → BudgetWindow)
      → ((w : BudgetWindow) → count (f w) ≡ count w)
      → count (touch f names m key) ≡ count (m key)
  unfolding touch
  touch_keeps [] m h = refl
  touch_keeps (name ∷ names) m h =
      let rest = touch_keeps names (λ k. if same_window name k then f (m k) else m k) h in
      elim (Bool-cases (same_window name key)) [
        | inl e ↦ ground (arith, rest, h (m key))
        | inr e ↦ ground (arith, rest)
      ]
