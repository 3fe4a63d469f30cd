-- ===== src/Common/Text.antt =====
-- Go's `strings` functions on texts of ASCII characters, and decimal printing.
use Prim.Native.Char.{Char, code}
use Prim.Native.String.{String, [], ◌∷◌}
use mathlib.Core.Path.{◌≡◌, refl}
use mathlib.Core.Bool.{Bool, true, false, ◌&&◌, ◌||◌}
use mathlib.Core.Logic.{◌≢◌}
use native.Mathlib.Omega.{arith}
use text.Mathlib.Text.{◌==◌ as str_eq}
use text.Mathlib.TextEquality.{eq_iff}
use text.Mathlib.TextPositions.{eq_refl}
use health_monitor_sre_engin.Common.Tests.{leb, ◌==◌, if◌then◌else◌}

abbrev pub is_empty : String → Bool
is_empty [] = true
is_empty (c ∷ s) = false

-- unicode.IsSpace, within ASCII
abbrev pub is_space : Char → Bool
is_space c = code c == 32 || (leb 9 (code c) && leb (code c) 13)

unfoldable pub trim_left : String → String
trim_left [] = []
trim_left (c ∷ s) = if is_space c then trim_left s else c ∷ s

unfoldable pub trim_right : String → String
trim_right [] = []
trim_right (c ∷ s) = let rest = trim_right s in if is_space c && is_empty rest then [] else c ∷ rest

-- strings.TrimSpace
unfoldable pub trim_space : String → String
unfolding trim_left trim_right
trim_space s = trim_right (trim_left s)

-- the letter of the second row that stands under `c` in the first
unfoldable pub translate : String → String → Char → Char
translate (u ∷ us) (l ∷ ls) c = if code u == code c then l else translate us ls c
translate _ _ c = c

unfoldable pub map_chars : (Char → Char) → String → String
map_chars f [] = []
map_chars f (c ∷ s) = f c ∷ map_chars f s

abbrev upper_row : String
upper_row = "ABCDEFGHIJKLMNOPQRSTUVWXYZ"

abbrev lower_row : String
lower_row = "abcdefghijklmnopqrstuvwxyz"

-- strings.ToLower, strings.ToUpper
unfoldable pub to_lower : String → String
unfolding translate map_chars
to_lower s = map_chars (translate upper_row lower_row) s

unfoldable pub to_upper : String → String
unfolding translate map_chars
to_upper s = map_chars (translate lower_row upper_row) s

-- strings.EqualFold
unfoldable pub equal_fold : String → String → Bool
unfolding to_lower
equal_fold s t = str_eq (to_lower s) (to_lower t)

-- strings.HasPrefix, strings.Contains
unfoldable pub has_prefix : String → String → Bool
has_prefix s [] = true
has_prefix [] (d ∷ p) = false
has_prefix (c ∷ s) (d ∷ p) = code c == code d && has_prefix s p

unfoldable pub contains : String → String → Bool
unfolding has_prefix
contains [] p = has_prefix [] p
contains (c ∷ s) p = has_prefix (c ∷ s) p || contains s p

trimmed : trim_space "  a b " ≡ "a b"
unfolding trim_space
trimmed = refl

lowered : to_lower "INC-A b" ≡ "inc-a b"
unfolding to_lower
lowered = refl

contained : contains "an active incident" "active" ≡ true
unfolding contains
contained = refl

pub texts_differ : (s t : String) → str_eq s t ≡ false → s ≢ t
texts_differ s t h = λ e. ground (arith, e, h, eq_refl s, eq_iff s t)
