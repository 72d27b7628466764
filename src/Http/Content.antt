-- ===== src/Http/Content.antt =====
-- internal/httpcheck/content.go: `readContent`. `media_type` is `mime.ParseMediaType`, and what the code
-- does with regular expressions is a parameter as well: the title, and how many letters and digits the
-- text of a page has; so is the decimal notation of a number. The hash and the redacted excerpt, which
-- decide nothing, are left out.
pub mod Verdict
use Prim.Native.String.{◌++◌ as append}
use domains_checker_infomati.Base.{
  ℕ, zero, suc, ◌+◌, ◌/◌, max, String, List, [], ◌∷◌, Option, none, some, Bool, true, false, not,
  ◌&&◌, ◌||◌, if◌then◌else◌, ltb, ◌==◌, length,
}
use domains_checker_infomati.Base.Int.{ℤ}
use domains_checker_infomati.Base.Text.{codes, text_eq, to_lower, is_empty}
use domains_checker_infomati.Netcheck.{Code}
use domains_checker_infomati.Status.{ContentStatus}
use domains_checker_infomati.Http.Types.{ContentMode, ContentEvidence}

-- A response body: its bytes, or the text of the error that ended the reading.
pub record Body : Type 0 where
  pub content_type : String
  pub content_length : ℤ
  pub bytes : List ℕ
  pub failure : Option String

abbrev pub take : ℕ → List ℕ → List ℕ
take zero xs = []
take (suc n) [] = []
take (suc n) (x ∷ xs) = x ∷ take n xs

abbrev pub is_status_only : ContentMode → Bool
is_status_only ContentMode.status_only = true
is_status_only _ = false

abbrev pub is_html : ContentMode → Bool
is_html ContentMode.html = true
is_html _ = false

-- `strings.HasPrefix` and `strings.Contains`.
abbrev pub has_prefix : List ℕ → List ℕ → Bool
has_prefix [] s = true
has_prefix (x ∷ xs) [] = false
has_prefix (x ∷ xs) (y ∷ ys) = x == y && has_prefix xs ys

abbrev pub contains_text : List ℕ → List ℕ → Bool
contains_text part [] = is_empty part
contains_text part (y ∷ ys) = has_prefix part (y ∷ ys) || contains_text part ys

-- `looksLikeHTML`.
unfoldable pub looks_like_html : (String → List ℕ) → String → List ℕ → Bool
looks_like_html media_type content_type payload =
    let media = to_lower (media_type content_type) in
    let prefix = to_lower (take 1024 payload) in
    text_eq media (codes "text/html")
    || text_eq media (codes "application/xhtml+xml")
    || contains_text (codes "<!doctype html") prefix
    || contains_text (codes "<html") prefix
    || contains_text (codes "<body") prefix

module _ (media_type : String → List ℕ) (meaningful_text : List ℕ → ℕ) (title_of : List ℕ → String)
    (decimal : ℕ → String) (most_bytes : ℕ) (least_bytes : ℕ) where
  unfoldable pub verdict : ContentEvidence → ContentStatus → Code → String → ContentEvidence
  verdict e status code message = record e {
    status = status;
    error_code = code;
    error_message = message;
  }

  -- The `switch` and what follows it, on a payload that was cut off if it was oversized.
  unfoldable pub judge : ContentMode → Bool → List ℕ → ContentEvidence → ContentEvidence
  unfolding verdict
  judge mode oversized payload e =
      let html = looks_like_html media_type e.content_type payload in
      let valid = if html then ContentStatus.valid_html else ContentStatus.valid_non_html in
      if oversized
      then verdict e ContentStatus.oversized_truncated Code.content_too_large
          (append "decoded response body exceeds " (append (decimal most_bytes) " bytes"))
      else if is_status_only mode && length payload == 0
      then verdict e ContentStatus.empty Code.no_code ""
      else if is_status_only mode
      then verdict e valid Code.no_code ""
      else if length payload == 0
      then verdict e ContentStatus.empty Code.content_empty "response body is empty"
      else if ltb (length payload) least_bytes
      then verdict e ContentStatus.too_small Code.content_too_small
          (append "response body is smaller than " (append (decimal least_bytes) " bytes"))
      else if is_html mode && not html
      then verdict e ContentStatus.unsupported_content Code.content_unsupported
          "response is not HTML"
      else if html && ltb (meaningful_text payload) (max 1 (least_bytes / 4))
      then verdict e ContentStatus.not_meaningful Code.content_not_meaningful
          "HTML response does not contain meaningful text"
      else verdict e valid Code.no_code ""

  -- `readContent`: at most one byte more than the limit is read.
  unfoldable pub read_content : ContentMode → Body → ContentEvidence
  unfolding judge
  read_content mode body =
      let payload = take (most_bytes + 1) body.bytes in
      let oversized = ltb most_bytes (length payload) in
      let kept = if oversized then take most_bytes payload else payload in
      let e : ContentEvidence = record {
        status = ContentStatus.unknown;
        content_type = body.content_type;
        declared_content_length = body.content_length;
        body_size = 0;
        hash_complete = false;
        title = "";
        error_code = Code.no_code;
        error_message = "";
      } in
      elim body.failure [
        | some text ↦
            verdict e ContentStatus.unknown Code.http_body_read (append "read response body: " text)
        | none ↦ judge mode oversized kept (record e {
          body_size = length payload;
          hash_complete = not oversized;
          title = title_of kept;
        })
      ]
