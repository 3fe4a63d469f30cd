-- ===== src/Update/Versions.antt =====
-- compareVersions of pkg/update/updater.go, and that it orders the versions.
pub mod Order
use Prim.Native.String.{[], ◌∷◌}
use Prim.Native.Char.{code}
use health_monitor_sre_engin.Common.{
  ℕ, zero, suc, ◌+◌, ◌-◌, ◌*◌, String, Bool, true, false, ◌&&◌, List, [], ◌∷◌, ◌≡◌, refl, ltb, leb,
  ◌==◌, ℤ, pos, negsuc, ltz, if◌then◌else◌, is_space, has_prefix, split, length,
}

abbrev negated : ℕ → ℤ
negated zero = pos zero
negated (suc n) = negsuc n

abbrev is_digit : ℕ → Bool
is_digit c = leb 48 c && leb c 57

-- the digits at the front, after those that the number was read from
unfoldable pub scan_digits : ℕ → String → ℕ
scan_digits n [] = n
scan_digits n (c ∷ s) =
    let more = scan_digits (n * 10 + (code c - 48)) s in if is_digit (code c) then more else n

-- The variable that fmt.Sscanf(s, "%d", &p) leaves, which starts at 0: spaces are passed over, then a sign
-- and digits are read. A number that does not fit in 64 bits leaves it unchanged.
abbrev fit : Bool → ℕ → ℤ
fit true n = if leb n 9_223_372_036_854_775_808 then negated n else pos 0
fit false n = if ltb n 9_223_372_036_854_775_808 then pos n else pos 0

unfoldable pub scan_int : String → ℤ
unfolding scan_digits
scan_int [] = pos 0
scan_int (c ∷ s) =
    let rest = scan_int s in
    let number = scan_digits 0 s in
    if code c == b'\n'
    then pos 0
    else if is_space c
    then rest
    else if code c == 45
    then fit true number
    else if code c == 43
    then fit false number
    else fit false (scan_digits 0 (c ∷ s))

-- the results -1, 0 and 1
pub data Comparison : Type 0 where
  older same newer : Comparison

-- parts[i] scanned, where there is one
unfoldable pub part_at : List String → ℕ → ℤ
unfolding scan_int
part_at [] i = pos 0
part_at (p ∷ ps) zero = scan_int p
part_at (p ∷ ps) (suc i) = part_at ps i

-- the loop from index `i`
unfoldable pub compare_from : ℕ → ℕ → List String → List String → Comparison
compare_from zero i parts1 parts2 = same
compare_from (suc rounds) i parts1 parts2 =
    let rest = compare_from rounds (suc i) parts1 parts2 in
    if ltz (part_at parts1 i) (part_at parts2 i)
    then older
    else if ltz (part_at parts2 i) (part_at parts1 i)
    then newer
    else rest

-- strings.TrimPrefix(v, "v")
abbrev pub trim_v : String → String
trim_v [] = []
trim_v (c ∷ s) = if code c == 118 then s else c ∷ s

abbrev pub version_parts : String → List String
version_parts v = split (trim_v v) "."

unfoldable pub compare_versions : String → String → Comparison
unfolding compare_from
compare_versions v1 v2 =
    let parts1 = version_parts v1 in
    let parts2 = version_parts v2 in
    let max_len = if ltb (length parts1) (length parts2) then length parts2 else length parts1 in
    compare_from max_len 0 parts1 parts2

release : compare_versions "v1.2" "1.10.0" ≡ older
unfolding compare_versions part_at scan_int split
release = refl
