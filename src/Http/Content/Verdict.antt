-- ===== src/Http/Content/Verdict.antt =====
-- When a response body counts as valid content (internal/httpcheck/content.go).
use domains_checker_infomati.Base.{
  ℕ, zero, suc, ◌+◌, ◌/◌, ◌≤◌, ◌≡◌, ◌↔◌, ◌⊎◌, inl, inr, max, min, refl, sym, ap, String, List, [],
  ◌∷◌, Option, none, some, Bool, true, false, not, if◌then◌else◌, ltb, length, arith, Option-cases,
  subst, if_skipped,
}
use domains_checker_infomati.Netcheck.{Code}
use domains_checker_infomati.Status.{ContentStatus}
use domains_checker_infomati.Http.Types.{ContentMode, ContentEvidence}
use domains_checker_infomati.Http.Content.{
  Body, take, judge, verdict, looks_like_html, read_content,
}

take-all : (n : ℕ) (xs : List ℕ) → length xs ≤ n → take n xs ≡ xs
take-all zero [] h = refl
take-all zero (x ∷ xs) h = absurd (omega (arith, h))
take-all (suc n) [] h = refl
take-all (suc n) (x ∷ xs) h = ap (λ ys. x ∷ ys) (take-all n xs (omega (arith, h)))

length-take : (n : ℕ) (xs : List ℕ) → length (take n xs) ≡ min n (length xs)
length-take zero xs = omega arith
length-take (suc n) [] = omega arith
length-take (suc n) (x ∷ xs) = omega (arith, length-take n xs)

abbrev is_valid : ContentStatus → Bool
is_valid ContentStatus.valid_html = true
is_valid ContentStatus.valid_non_html = true
is_valid _ = false

is_valid_iff :
    (s : ContentStatus)
    → (is_valid s ≡ true) ↔ ((s ≡ ContentStatus.valid_html) ⊎ (s ≡ ContentStatus.valid_non_html))
is_valid_iff s = (λ h. ground arith, λ h. ground arith)

unread : ¬ (
    (ContentStatus.unknown ≡ ContentStatus.valid_html)
    ⊎ (ContentStatus.unknown ≡ ContentStatus.valid_non_html))
unread h = ground arith

unread' : {o : Option String} {t : String} → o ≡ some t → ¬ (o ≡ none)
unread' f g = cc

module _ (media_type : String → List ℕ) (meaningful_text : List ℕ → ℕ) (title_of : List ℕ → String)
    (decimal : ℕ → String) (most_bytes : ℕ) (least_bytes : ℕ) where
  -- A body that the mode takes for content.
  pub record IsContent (mode : ContentMode) (body : Body) : Type 0 where
    pub read : body.failure ≡ none
    pub fits : length body.bytes ≤ most_bytes
    pub some_byte : 1 ≤ length body.bytes
    pub enough :
        (mode ≡ ContentMode.status_only)
        ⊎ (least_bytes ≤ length body.bytes)
          × ((mode ≡ ContentMode.any)
              ⊎ (looks_like_html media_type body.content_type body.bytes ≡ true))
          × ((looks_like_html media_type body.content_type body.bytes ≡ false)
              ⊎ (max 1 (least_bytes / 4) ≤ meaningful_text body.bytes))

  abbrev Enough : ContentMode → String → List ℕ → Type 0
  Enough mode content_type bytes =
      (mode ≡ ContentMode.status_only)
      ⊎ (least_bytes ≤ length bytes)
        × ((mode ≡ ContentMode.any) ⊎ (looks_like_html media_type content_type bytes ≡ true))
        × ((looks_like_html media_type content_type bytes ≡ false)
            ⊎ (max 1 (least_bytes / 4) ≤ meaningful_text bytes))

  judge_valid :
      (mode : ContentMode) (oversized : Bool) (payload : List ℕ) (e : ContentEvidence)
      → let html = looks_like_html media_type e.content_type payload in
        (is_valid
            (judge media_type meaningful_text title_of decimal most_bytes least_bytes mode oversized
              payload e).status
          ≡ true)
        ↔ ((oversized ≡ false)
            × (1 ≤ length payload)
            × ((mode ≡ ContentMode.status_only)
                ⊎ (least_bytes ≤ length payload)
                  × ((mode ≡ ContentMode.any) ⊎ (html ≡ true))
                  × ((html ≡ false) ⊎ (max 1 (least_bytes / 4) ≤ meaningful_text payload))))
  unfolding judge verdict
  judge_valid mode oversized payload e = (λ h. ground arith, λ h. ground arith)

  abbrev kept : List ℕ → List ℕ
  kept bytes =
      let payload = take (most_bytes + 1) bytes in
      if ltb most_bytes (length payload) then take most_bytes payload else payload

  not_oversized :
      (bytes : List ℕ)
      → (ltb most_bytes (length (take (most_bytes + 1) bytes)) ≡ false)
        ↔ (length bytes ≤ most_bytes)
  not_oversized bytes =
      let e = length-take (most_bytes + 1) bytes in (λ h. ground (arith, e), λ h. ground (arith, e))

  kept_all : (bytes : List ℕ) → length bytes ≤ most_bytes → kept bytes ≡ bytes
  kept_all bytes h =
      if_skipped (λ p. p ≡ bytes) _ _ _ ((not_oversized bytes).1 h)
        (take-all (most_bytes + 1) bytes (omega (arith, h)))

  -- The content of a response is valid exactly if the whole body was read and fits into the limit, it
  -- is not empty, and, unless only the status was asked for, it has the minimal size, looks like HTML
  -- if HTML was asked for, and has enough letters and digits if it looks like HTML: a quarter of the
  -- minimal size and at least one.
  pub read_content-IsContent :
      (mode : ContentMode) (body : Body)
      → let e =
          read_content media_type meaningful_text title_of decimal most_bytes least_bytes mode
            body in
        ((e.status ≡ ContentStatus.valid_html) ⊎ (e.status ≡ ContentStatus.valid_non_html))
        ↔ IsContent mode body
  unfolding read_content verdict
  read_content-IsContent mode body =
      let oversized = ltb most_bytes (length (take (most_bytes + 1) body.bytes)) in
      let payload = take (most_bytes + 1) body.bytes in
      let e : ContentEvidence = record {
        status = ContentStatus.unknown;
        content_type = body.content_type;
        declared_content_length = body.content_length;
        body_size = length payload;
        hash_complete = not oversized;
        title = title_of (kept body.bytes);
        error_code = Code.no_code;
        error_message = "";
      } in
      let Q = λ (p : List ℕ). (1 ≤ length p) × Enough mode body.content_type p in
      let (to, from) = judge_valid mode oversized (kept body.bytes) e in
      elim (Option-cases body.failure) [
        | inr (text, f) ↦
            rw (f, read_content) (λ h. absurd (unread h), λ c. absurd (unread' refl c.read))
        | inl f ↦
            rw (f, read_content)
              (
                λ h.
                    let (fits, nonempty, plenty) = to ((is_valid_iff _).1 h) in
                    let short = (not_oversized body.bytes).0 fits in
                    let (some_byte, enough) =
                      subst Q (kept_all body.bytes short) (nonempty, plenty) in
                    record { read = refl; fits = short; some_byte = some_byte; enough = enough },
                λ c. (is_valid_iff _).0 (
                    let (nonempty, plenty) =
                      subst Q (sym (kept_all body.bytes c.fits)) (c.some_byte, c.enough) in
                    from ((not_oversized body.bytes).1 c.fits, nonempty, plenty)),
              )
      ]
