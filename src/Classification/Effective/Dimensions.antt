-- ===== src/Classification/Effective/Dimensions.antt =====
-- The list of changed dimensions names exactly what changed (internal/classification/state.go).
use domains_checker_infomati.Base.{
  String, ◌≡◌, ◌≢◌, ◌↔◌, List, Bool, true, false, arith, has_text, if◌then◌else◌,
}
use domains_checker_infomati.Classification.Effective.{
  EffectiveInput, EffectiveState, changed_dimensions, carried, observe, settle, advance,
}

-- The name is in the list exactly if the values differ.
abbrev pub Reports {ℓ} : {A : Type ℓ} → List String → String → A → A → Type ℓ
Reports names name before after = (has_text name names ≡ true) ↔ (before ≢ after)

-- So for each of the seven dimensions of the effective state `s` that the input `i` led to.
abbrev pub ReportsAll : EffectiveInput → EffectiveState → Type 0
ReportsAll i s =
    let names = s.changed_dimensions in
    Reports names "availability" i.current_availability s.availability
    × Reports names "dns" i.current_dns s.dns
    × Reports names "http" i.current_http s.http
    × Reports names "redirect" i.current_redirect s.redirect
    × Reports names "isp" i.current_isp s.isp
    × Reports names "tls" i.current_tls s.tls
    × Reports names "content" i.current_content s.content

carried-ReportsAll : (i : EffectiveInput) → ReportsAll i (carried i)
unfolding carried
carried-ReportsAll i = ground arith

-- What is left when each entry of the list has been computed for a decision on its two values.
settle-ReportsAll : (i : EffectiveInput) (s : EffectiveState) → ReportsAll i (settle i s)
unfolding settle changed_dimensions
settle-ReportsAll i s = ground arith

by_case :
    (i : EffectiveInput) (s : EffectiveState) (idle : Bool)
    → ReportsAll i (if idle then carried i else settle i s)
by_case i s true = carried-ReportsAll i
by_case i s false = settle-ReportsAll i s

-- The effective state of a run lists a dimension as changed exactly if its value differs from the
-- current one, for each of the seven dimensions and every input.
pub advance-ReportsAll : (i : EffectiveInput) → ReportsAll i (advance i)
unfolding advance
advance-ReportsAll i = by_case i (observe i.observed.availability i (carried i)) _
