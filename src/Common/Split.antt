-- ===== src/Common/Split.antt =====
-- Go's strings.Split, strings.Fields, strings.Trim and strings.Join on texts of ASCII characters, and
-- the bytes of a text.
use Prim.Native.Nat.{ℕ, zero, suc, ◌-◌}
use Prim.Native.Char.{Char, code}
use Prim.Native.String.{String, [], ◌∷◌, ◌++◌}
use mathlib.Core.Path.{◌≡◌, refl}
use mathlib.Core.Bool.{Bool, true, false, ◌&&◌}
use mathlib.Core.List.{List, [], ◌∷◌}
use health_monitor_sre_engin.Common.Tests.{◌==◌, if◌then◌else◌}
use health_monitor_sre_engin.Common.Lists.{length}
use health_monitor_sre_engin.Common.Text.{is_empty, is_space, has_prefix}

-- []byte(s)
unfoldable pub bytes : String → List ℕ
bytes [] = []
bytes (c ∷ s) = code c ∷ bytes s

-- The character goes to the front of the first part.
abbrev push : Char → List String → List String
push c [] = (c ∷ []) ∷ []
push c (p ∷ ps) = (c ∷ p) ∷ ps

-- The first number counts the characters of a separator that are still to be passed over.
unfoldable pub split_from : String → ℕ → String → List String
split_from sep skip [] = [] ∷ []
split_from sep (suc skip) (c ∷ s) = split_from sep skip s
split_from sep zero (c ∷ s) =
    let after = split_from sep (length (bytes sep) - 1) s in
    let rest = split_from sep zero s in if has_prefix (c ∷ s) sep then [] ∷ after else push c rest

-- strings.Split(s, sep) for a separator that is not empty
unfoldable pub split : String → String → List String
unfolding split_from bytes has_prefix
split s sep = split_from sep zero s

abbrev not_blank : String → List String → List String
not_blank w ws = if is_empty w then ws else w ∷ ws

abbrev fields_of : List String → List String
fields_of [] = []
fields_of (w ∷ ws) = not_blank w (fields_of ws)

-- The parts between spaces, empty ones among them.
unfoldable pub spaced : String → List String
spaced [] = [] ∷ []
spaced (c ∷ s) = let rest = spaced s in if is_space c then [] ∷ rest else push c rest

-- strings.Fields
unfoldable pub fields : String → List String
unfolding spaced
fields s = fields_of (spaced s)

abbrev pub in_set : String → Char → Bool
in_set [] c = false
in_set (d ∷ set) c = if code d == code c then true else in_set set c

unfoldable pub drop_set : String → String → String
drop_set set [] = []
drop_set set (c ∷ s) = if in_set set c then drop_set set s else c ∷ s

unfoldable pub drop_set_right : String → String → String
drop_set_right set [] = []
drop_set_right set (c ∷ s) =
    let rest = drop_set_right set s in if in_set set c && is_empty rest then [] else c ∷ rest

-- strings.Trim(s, cutset)
unfoldable pub trim_set : String → String → String
unfolding drop_set drop_set_right
trim_set s set = drop_set_right set (drop_set set s)

-- strings.Join
unfoldable pub join : List String → String → String
join [] sep = ""
join (p ∷ []) sep = p
join (p ∷ q ∷ ps) sep = p ++ (sep ++ join (q ∷ ps) sep)

two_parts : split "api->db" "->" ≡ "api" ∷ "db" ∷ []
unfolding split
two_parts = refl

three_fields : fields "  a bc d" ≡ "a" ∷ "bc" ∷ "d" ∷ []
unfolding fields
three_fields = refl

no_marks : trim_set "'ab.c'!" "'!." ≡ "ab.c"
unfolding trim_set
no_marks = refl
