-- ===== src/Base/Trim.antt =====
-- Trimming leaves a text without spaces alone.
use mathlib.Core.Path.{◌≡◌, refl, ap, ◌∙◌}
use mathlib.Core.Bool.{false}
use mathlib.Core.List.{[], ◌∷◌}
use native.Mathlib.Omega.{arith}
use domains_checker_infomati.Base.Text.{
  Text, trim, drop_spaces, drop_spaces_end, is_space, contains,
}

drop_spaces_plain : (s : Text) → contains is_space s ≡ false → drop_spaces s ≡ s
unfolding drop_spaces
drop_spaces_plain [] h = refl
drop_spaces_plain (c ∷ s) h = ground arith

drop_spaces_end_plain : (s : Text) → contains is_space s ≡ false → drop_spaces_end s ≡ s
unfolding drop_spaces_end
drop_spaces_end_plain [] h = refl
drop_spaces_end_plain (c ∷ s) h = ground (arith, drop_spaces_end_plain s)

pub trim_plain : (s : Text) → contains is_space s ≡ false → trim s ≡ s
unfolding trim
trim_plain s h = ap drop_spaces (drop_spaces_end_plain s h) ∙ drop_spaces_plain s h
