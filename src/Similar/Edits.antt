-- ===== src/Similar/Edits.antt =====
-- What levenshteinDistance promises: the least number of single-byte edits. The recursion on prefixes
-- that the table holds, and its symmetry.

use health_monitor_sre_engin.Common.{
  ℕ, zero, suc, ◌+◌, ◌≤◌, List, ◌≡◌, ◌⊎◌, inl, inr, refl, subst, ◌==◌, ==_iff, if◌then◌else◌,
  Bool-cases, arith,
}
use health_monitor_sre_engin.Similar.Loops.{nth}
use health_monitor_sre_engin.Similar.Distance.{min3}

pub min3_least : (a b c : ℕ) → (min3 a b c ≤ a) × (min3 a b c ≤ b) × (min3 a b c ≤ c)
unfolding min3
min3_least a b c = ground arith

-- It is one of the three.
pub min3_one : (a b c : ℕ) → (min3 a b c ≡ a) ⊎ ((min3 a b c ≡ b) ⊎ (min3 a b c ≡ c))
unfolding min3
min3_one a b c = ground arith

min3_swap : (a b c : ℕ) → min3 a b c ≡ min3 b a c
unfolding min3
min3_swap a b c = ground arith

module _ (s1 s2 : List ℕ) where
  -- one for a byte that has to be replaced
  abbrev pub price : ℕ → ℕ → ℕ
  price i j = if nth s1 i == nth s2 j then 0 else 1

  -- Edits that turn the first bytes of `s1`, as many as the first index says, into the first bytes of
  -- `s2`, with their number.
  pub data Edits : ℕ → ℕ → ℕ → Type 0 where
    nothing : Edits 0 0 0
    delete : {i j n : ℕ} → Edits i j n → Edits (suc i) j (suc n)
    insert : {i j n : ℕ} → Edits i j n → Edits i (suc j) (suc n)
    keep : {i j n : ℕ} → nth s1 i ≡ nth s2 j → Edits i j n → Edits (suc i) (suc j) n
    replace : {i j n : ℕ} → Edits i j n → Edits (suc i) (suc j) (suc n)

  unfoldable pub least_edits : ℕ → ℕ → ℕ
  least_edits zero j = j
  least_edits (suc i) zero = suc i
  least_edits (suc i) (suc j) =
      min3 (least_edits i (suc j) + 1) (least_edits (suc i) j + 1) (least_edits i j + price i j)

  pub least_edits-zero : (i : ℕ) → least_edits i 0 ≡ i
  unfolding least_edits
  least_edits-zero zero = refl
  least_edits-zero (suc i) = refl

  drop_last : (i j : ℕ) → least_edits (suc i) j ≤ suc (least_edits i j)
  unfolding least_edits
  drop_last i zero = omega (arith, least_edits-zero i)
  drop_last i (suc j) = omega (
    arith,
    min3_least (least_edits i (suc j) + 1) (least_edits (suc i) j + 1)
        (least_edits i j + price i j),
  )

  put_last : (i j : ℕ) → least_edits i (suc j) ≤ suc (least_edits i j)
  unfolding least_edits
  put_last zero j = omega arith
  put_last (suc i) j = omega (
    arith,
    min3_least (least_edits i (suc j) + 1) (least_edits (suc i) j + 1)
        (least_edits i j + price i j),
  )

  change_last : (i j : ℕ) → least_edits (suc i) (suc j) ≤ least_edits i j + price i j
  unfolding least_edits
  change_last i j =
      (min3_least (least_edits i (suc j) + 1) (least_edits (suc i) j + 1)
        (least_edits i j + price i j)).2

  -- No sequence of edits is shorter.
  pub least_edits_least : {i j n : ℕ} → Edits i j n → least_edits i j ≤ n
  least_edits_least nothing = omega (arith, least_edits-zero 0)
  least_edits_least (delete {i} {j} e) = omega (arith, least_edits_least e, drop_last i j)
  least_edits_least (insert {i} {j} e) = omega (arith, least_edits_least e, put_last i j)
  least_edits_least (keep {i} {j} same e) =
      ground (arith, least_edits_least e, change_last i j, same)
  least_edits_least (replace {i} {j} e) = ground (arith, least_edits_least e, change_last i j)

  change : {i j n : ℕ} → Edits i j n → Edits (suc i) (suc j) (n + price i j)
  change {i} {j} {n} e = elim (Bool-cases (nth s1 i == nth s2 j)) [
    | inl same ↦
        rw same (subst (Edits (suc i) (suc j)) (omega arith) (keep ((==_iff _ _).0 same) e))
    | inr different ↦ rw different (subst (Edits (suc i) (suc j)) (omega arith) (replace e))
  ]

  one_of_three : {i j a b c : ℕ} → Edits i j a → Edits i j b → Edits i j c → Edits i j (min3 a b c)
  one_of_three {i} {j} {a} {b} {c} x y z = elim (min3_one a b c) [
    | inl e ↦ rw e x
    | inr (inl e) ↦ rw e y
    | inr (inr e) ↦ rw e z
  ]

  -- Some sequence of edits is as short.
  pub least_edits_reached : (i j : ℕ) → Edits i j (least_edits i j)
  unfolding least_edits
  least_edits_reached zero zero = nothing
  least_edits_reached zero (suc j) = insert (least_edits_reached zero j)
  least_edits_reached (suc i) zero =
      delete (subst (Edits i 0) (least_edits-zero i) (least_edits_reached i zero))
  least_edits_reached (suc i) (suc j) =
      one_of_three
        (subst (Edits (suc i) (suc j)) (omega arith) (delete (least_edits_reached i (suc j))))
        (subst (Edits (suc i) (suc j)) (omega arith) (insert (least_edits_reached (suc i) j)))
        (change (least_edits_reached i j))

pub least_edits_comm : (s1 s2 : List ℕ) (i j : ℕ) → least_edits s1 s2 i j ≡ least_edits s2 s1 j i
unfolding least_edits
least_edits_comm s1 s2 zero zero = refl
least_edits_comm s1 s2 zero (suc j) = refl
least_edits_comm s1 s2 (suc i) zero = refl
least_edits_comm s1 s2 (suc i) (suc j) =
    rw
      (
        least_edits_comm s1 s2 i (suc j),
        least_edits_comm s1 s2 (suc i) j,
        least_edits_comm s1 s2 i j,
      )
      (rw (price_comm i j) (min3_swap _ _ _))
  where
    price_comm : (p q : ℕ) → price s1 s2 p q ≡ price s2 s1 q p
    price_comm p q = ground arith
