-- ===== src/Update/Versions/Order.antt =====
-- compareVersions is an order: reversing the arguments reverses the result, and "not newer" is transitive.
use health_monitor_sre_engin.Common.{
  ℕ, zero, suc, ◌+◌, ◌≤◌, String, true, false, List, [], ◌∷◌, ◌≡◌, ◌≢◌, refl, sym, ◌∙◌, ap, ℤ, pos,
  negsuc, ltz, length, arith,
}
use health_monitor_sre_engin.Update.Versions.{
  Comparison, older, same, newer, part_at, compare_from, version_parts, compare_versions,
}

abbrev pub opposite : Comparison → Comparison
opposite older = newer
opposite same = same
opposite newer = older

ltz_asym : (a b : ℤ) → ltz a b ≡ true → ltz b a ≡ false
ltz_asym (pos a) (pos b) h = ground arith
ltz_asym (pos a) (negsuc b) h = cc
ltz_asym (negsuc a) (pos b) h = refl
ltz_asym (negsuc a) (negsuc b) h = ground arith

-- a ≤ b ≤ c gives a ≤ c
ltz_trans : (a b c : ℤ) → ltz b a ≡ false → ltz c b ≡ false → ltz c a ≡ false
ltz_trans (pos a) (pos b) (pos c) h k = ground arith
ltz_trans (pos a) (pos b) (negsuc c) h k = cc
ltz_trans (pos a) (negsuc b) c h k = cc
ltz_trans (negsuc a) (pos b) (pos c) h k = refl
ltz_trans (negsuc a) (pos b) (negsuc c) h k = cc
ltz_trans (negsuc a) (negsuc b) (pos c) h k = refl
ltz_trans (negsuc a) (negsuc b) (negsuc c) h k = ground arith

-- Behind the parts the number is 0.
part_at_beyond : (parts : List String) (i : ℕ) → length parts ≤ i → part_at parts i ≡ pos 0
unfolding part_at
part_at_beyond [] i h = refl
part_at_beyond (p ∷ ps) zero h = absurd (omega arith)
part_at_beyond (p ∷ ps) (suc i) h = part_at_beyond ps i (omega arith)

-- Rounds behind both lists find nothing.
compare_from_beyond :
    (n i : ℕ) (p q : List String) → length p ≤ i → length q ≤ i → compare_from n i p q ≡ same
unfolding compare_from
compare_from_beyond zero i p q h k = refl
compare_from_beyond (suc n) i p q h k =
    rw (part_at_beyond p i h, part_at_beyond q i k)
      (compare_from_beyond n (suc i) p q (omega arith) (omega arith))

-- More rounds than parts change nothing.
compare_from_enough :
    (n m i : ℕ) (p q : List String)
    → n ≤ m
    → length p ≤ i + n
    → length q ≤ i + n
    → compare_from m i p q ≡ compare_from n i p q
unfolding compare_from
compare_from_enough zero m i p q le h k = compare_from_beyond m i p q (omega arith) (omega arith)
compare_from_enough (suc n) zero i p q le h k = absurd (omega arith)
compare_from_enough (suc n) (suc m) i p q le h k =
    rw (compare_from_enough n m (suc i) p q (omega arith) (omega arith) (omega arith)) refl

compare_from-opposite :
    (n i : ℕ) (p q : List String) → compare_from n i q p ≡ opposite (compare_from n i p q)
unfolding compare_from
compare_from-opposite zero i p q = refl
compare_from-opposite (suc n) i p q = ground (
  arith,
  ltz_asym (part_at p i) (part_at q i),
  ltz_asym (part_at q i) (part_at p i),
  compare_from-opposite n (suc i) p q,
)

-- two numbers of which neither is less
ltz_tight : (a b : ℤ) → ltz a b ≡ false → ltz b a ≡ false → a ≡ b
ltz_tight (pos a) (pos b) h k = ap pos (ground arith)
ltz_tight (pos a) (negsuc b) h k = cc
ltz_tight (negsuc a) (pos b) h k = cc
ltz_tight (negsuc a) (negsuc b) h k = ap negsuc (ground arith)

compare_from_trans :
    (n i : ℕ) (p q r : List String)
    → compare_from n i p q ≢ newer
    → compare_from n i q r ≢ newer
    → compare_from n i p r ≢ newer
unfolding compare_from
compare_from_trans zero i p q r h k = λ e. cc
compare_from_trans (suc n) i p q r h k = ground (
  arith,
  compare_from_trans n (suc i) p q r,
  ltz_trans (part_at p i) (part_at q i) (part_at r i),
  ltz_tight (part_at p i) (part_at q i),
  ltz_tight (part_at q i) (part_at r i),
  ltz_asym (part_at p i) (part_at q i),
  ltz_asym (part_at q i) (part_at r i),
)

-- The loop may as well run for any larger number of rounds.
compare_versions_rounds :
    (v1 v2 : String) (n : ℕ)
    → length (version_parts v1) ≤ n
    → length (version_parts v2) ≤ n
    → compare_versions v1 v2 ≡ compare_from n 0 (version_parts v1) (version_parts v2)
unfolding compare_versions
compare_versions_rounds v1 v2 n h k = sym (
    compare_from_enough _ n 0 (version_parts v1) (version_parts v2) (ground arith) (ground arith)
      (ground arith))

compare_versions-opposite :
    (v1 v2 : String) → compare_versions v2 v1 ≡ opposite (compare_versions v1 v2)
compare_versions-opposite v1 v2 =
    let n = length (version_parts v1) + length (version_parts v2) in
    rw
      (
        compare_versions_rounds v1 v2 n (omega arith) (omega arith),
        compare_versions_rounds v2 v1 n (omega arith) (omega arith),
      )
      (compare_from-opposite n 0 (version_parts v1) (version_parts v2))

-- compareVersions orders the version texts: when it finds neither the first of three newer than the second
-- nor the second newer than the third, it does not find the first newer than the third; and exchanging two
-- versions exchanges older and newer.
pub compare_versions_order :
    (v1 v2 v3 : String)
    → compare_versions v1 v2 ≢ newer
    → compare_versions v2 v3 ≢ newer
    → (compare_versions v1 v3 ≢ newer)
      × (compare_versions v2 v1 ≡ opposite (compare_versions v1 v2))
compare_versions_order v1 v2 v3 h k =
    let n = length (version_parts v1) + length (version_parts v2) + length (version_parts v3) in
    let e12 = compare_versions_rounds v1 v2 n (omega arith) (omega arith) in
    let e23 = compare_versions_rounds v2 v3 n (omega arith) (omega arith) in
    let e13 = compare_versions_rounds v1 v3 n (omega arith) (omega arith) in
    (
      λ e.
          compare_from_trans n 0 (version_parts v1) (version_parts v2) (version_parts v3)
            (λ d. h (e12 ∙ d)) (λ d. k (e23 ∙ d)) (sym e13 ∙ e),
      compare_versions-opposite v1 v2,
    )
