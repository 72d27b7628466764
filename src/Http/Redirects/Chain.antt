-- ===== src/Http/Redirects/Chain.antt =====
-- How a chain of redirects ends (internal/httpcheck/checker.go).
use domains_checker_infomati.Base.{
  ℕ, ◌≤◌, ◌≡◌, ◌⊎◌, inl, inr, refl, String, Option, some, length, ◌==◌, if◌then◌else◌,
}
use domains_checker_infomati.Base.Text.{Text}
use domains_checker_infomati.Http.Types.{Timing, ContentEvidence, Attempt}
use domains_checker_infomati.Http.Content.{Body}
use domains_checker_infomati.Http.Requests.{Url, Checked}
use domains_checker_infomati.Http.Redirects.{Response, Reply}
use domains_checker_infomati.Http.Redirects.Hops.{Hops}

pub Checked-cases :
    (c : Checked)
    → ((t : String) × (c ≡ Checked.refused t)) ⊎ ((u : Url) × (c ≡ Checked.accepted u))
Checked-cases (Checked.refused t) = inl (t, refl)
Checked-cases (Checked.accepted u) = inr (u, refl)

module _ (resolve : Url → String → Checked) (render : Url → String)
    (registrable : Text → Option Text) (decimal : ℕ → String) (reply : ℕ → Url → Reply)
    (timing : ℕ → Timing) (elapsed : ℕ → ℕ) (read : Body → ContentEvidence)
    (most_redirects : ℕ) where
  -- An attempt was made, of at most the maximal number of hops.
  abbrev IsFollowed : Option Attempt → Type 0
  IsFollowed o =
      (a : Attempt) × (o ≡ some a)
      × (length a.redirects ≤ most_redirects)
      × Hops a.error_code 0 a.redirects

  abbrev answered_by : Response → Attempt → Attempt
  answered_by r b = record b {
    initial_status_code =
        if b.initial_status_code == 0 then r.status_code else b.initial_status_code;
  }
