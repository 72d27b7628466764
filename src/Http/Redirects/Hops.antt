-- ===== src/Http/Redirects/Hops.antt =====
-- Lists of redirect hops (internal/httpcheck/checker.go).
use domains_checker_infomati.Base.{
  ℕ, ◌+◌, ◌≡◌, List, [], ◌∷◌, ◌++◌, Bool, true, false, arith, length,
}
use domains_checker_infomati.Netcheck.{Code}
use domains_checker_infomati.Http.Types.{RedirectHop}

abbrev pub is_downgrade : Code → Bool
is_downgrade Code.http_https_downgrade = true
is_downgrade _ = false

-- Hops numbered from `n` on, none of which has an error or a downgrade.
abbrev pub Steps : ℕ → List RedirectHop → Type 0
Steps n [] = Unit {0}
Steps n (h ∷ hs) =
    (h.hop ≡ n) × (h.error_code ≡ Code.no_code) × (h.https_downgrade ≡ false) × Steps (n + 1) hs

-- Hops numbered from `n` on, of which only the last may have an error, which is then that of the
-- attempt, and of which only one that ended the attempt for it is a downgrade.
pub data Hops (code : Code) : ℕ → List RedirectHop → Type 0 where
  done : {n : ℕ} → Hops code n []
  stop :
      {n : ℕ} {h : RedirectHop}
      → h.hop ≡ n
      → h.error_code ≡ code
      → h.https_downgrade ≡ is_downgrade code
      → Hops code n (h ∷ [])
  step :
      {n : ℕ} {h : RedirectHop} {hs : List RedirectHop}
      → h.hop ≡ n
      → h.error_code ≡ Code.no_code
      → h.https_downgrade ≡ false
      → Hops code (n + 1) hs
      → Hops code n (h ∷ hs)

pub Steps-Hops : (code : Code) (n : ℕ) (hs : List RedirectHop) → Steps n hs → Hops code n hs
Steps-Hops code n [] s = done
Steps-Hops code n (h ∷ hs) (i, e, d, s) = step i e d (Steps-Hops code (n + 1) hs s)

pub Hops-snoc :
    (code : Code) (n : ℕ) (hs : List RedirectHop) (h : RedirectHop)
    → Steps n hs
    → h.hop ≡ n + length hs
    → h.error_code ≡ code
    → h.https_downgrade ≡ is_downgrade code
    → Hops code n (hs ++ h ∷ [])
Hops-snoc code n [] h s i e d = stop (omega (arith, i)) e d
Hops-snoc code n (g ∷ gs) h (j, f, c, s) i e d =
    step j f c (Hops-snoc code (n + 1) gs h s (omega (arith, i)) e d)

pub Steps-snoc :
    (n : ℕ) (hs : List RedirectHop) (h : RedirectHop)
    → Steps n hs
    → h.hop ≡ n + length hs
    → h.error_code ≡ Code.no_code
    → h.https_downgrade ≡ false
    → Steps n (hs ++ h ∷ [])
Steps-snoc n [] h s i e d = (omega (arith, i), e, d, tt)
Steps-snoc n (g ∷ gs) h (j, f, c, s) i e d =
    (j, f, c, Steps-snoc (n + 1) gs h s (omega (arith, i)) e d)
