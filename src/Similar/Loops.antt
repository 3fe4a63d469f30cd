-- ===== src/Similar/Loops.antt =====
-- Counting loops whose body may stop the program by an index out of range, and the table of
-- levenshteinDistance (internal/incident/similarity.go) with its guarded reads and writes.
use health_monitor_sre_engin.Common.{
  ℕ, zero, suc, ◌+◌, ◌<◌, ◌≤◌, ◌&&◌, Option, none, some, List, [], ◌∷◌, ◌≡◌, refl, ap, subst, ltb,
  lt→ltb, ◌==◌, if◌then◌else◌, length, arith,
}

infixl 1 ◌>>=◌
abbrev pub ◌>>=◌ {ℓ κ} : {A : Type ℓ} {B : Type κ} → Option A → (A → Option B) → Option B
none >>= f = none
some a >>= f = f a

-- `rounds` rounds, the first at index `i`
unfoldable pub loop {ℓ} : {S : Type ℓ} → ℕ → ℕ → (ℕ → S → Option S) → S → Option S
loop zero i body s = some s
loop (suc rounds) i body s = body i s >>= loop rounds (suc i) body

-- It does not stop, and what it returns satisfies the predicate.
abbrev pub Returns {ℓ} : {A : Type ℓ} → (A → Type 0) → Option A → Type 0
Returns P none = ⊥
Returns P (some a) = P a

pub Returns-bind {ℓ κ} :
    {A : Type ℓ} {B : Type κ} (P : A → Type 0) (Q : B → Type 0) (r : Option A) (f : A → Option B)
    → Returns P r
    → ((a : A) → P a → Returns Q (f a))
    → Returns Q (r >>= f)
Returns-bind P Q none f h k = absurd h
Returns-bind P Q (some a) f h k = k a h

pub Returns-result {ℓ} :
    {A : Type ℓ} (P : A → Type 0) (r : Option A) → Returns P r → (a : A) × (r ≡ some a) × P a
Returns-result P none h = absurd h
Returns-result P (some a) h = (a, refl, h)

pub Returns-some : {A : Type 0} {x : A} (r : Option A) → Returns (λ y. y ≡ x) r → r ≡ some x
Returns-some none h = absurd h
Returns-some (some a) h = ap some h

-- The rule of an invariant that holds before each index.
pub Returns-loop {ℓ} :
    {S : Type ℓ} (P : ℕ → S → Type 0) (stop : ℕ) (body : ℕ → S → Option S) (rounds i : ℕ) (s : S)
    → i + rounds ≡ stop
    → ((j : ℕ) (t : S) → i ≤ j → j < stop → P j t → Returns (P (suc j)) (body j t))
    → P i s
    → Returns (P stop) (loop rounds i body s)
unfolding loop
Returns-loop P stop body zero i s e keep h = subst (λ j. P j s) (omega arith) h
Returns-loop P stop body (suc rounds) i s e keep h =
    Returns-bind (P (suc i)) (P stop) (body i s) (loop rounds (suc i) body)
      (keep i s (omega arith) (omega arith) h)
      λ t.
        Returns-loop P stop body rounds (suc i) t (omega arith) (λ j u lo. keep j u (omega arith))

-- [][]int, all rows of one length
pub record Matrix : Type 0 where
  pub rows : ℕ
  pub cols : ℕ
  pub cell : ℕ → ℕ → ℕ

-- matrix[i][j], `none` where Go stops with an index out of range
unfoldable pub cell_at : Matrix → ℕ → ℕ → Option ℕ
cell_at t i j = if ltb i t.rows && ltb j t.cols then some (t.cell i j) else none

-- matrix[i][j] = v
unfoldable pub set_cell : ℕ → ℕ → ℕ → Matrix → Option Matrix
set_cell i j v t =
    if ltb i t.rows && ltb j t.cols
    then some (record t { cell = λ p q. if p == i && q == j then v else t.cell p q })
    else none

abbrev pub nth : List ℕ → ℕ → ℕ
nth [] i = 0
nth (c ∷ s) zero = c
nth (c ∷ s) (suc i) = nth s i

-- s[i] of a string as its bytes
unfoldable pub byte_at : List ℕ → ℕ → Option ℕ
byte_at s i = if ltb i (length s) then some (nth s i) else none

pub cell_at_inside :
    (t : Matrix) (i j : ℕ) → i < t.rows → j < t.cols → cell_at t i j ≡ some (t.cell i j)
unfolding cell_at
cell_at_inside t i j p q = rw (lt→ltb i t.rows p, lt→ltb j t.cols q) refl

pub set_cell_inside :
    (i j v : ℕ) (t : Matrix)
    → i < t.rows
    → j < t.cols
    → set_cell i j v t
      ≡ some (record t { cell = λ p q. if p == i && q == j then v else t.cell p q })
unfolding set_cell
set_cell_inside i j v t p q = rw (lt→ltb i t.rows p, lt→ltb j t.cols q) refl

pub byte_inside : (s : List ℕ) (i : ℕ) → i < length s → byte_at s i ≡ some (nth s i)
unfolding byte_at
byte_inside s i p = rw (lt→ltb i (length s) p) refl
