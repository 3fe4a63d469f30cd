-- ===== src/Recorder/Window.antt =====
-- The rolling buffer implements "the last snapshots".
use health_monitor_sre_engin.Common.{
  ℕ, zero, suc, ◌+◌, ◌-◌, ◌≤◌, ◌<◌, List, [], ◌∷◌, ◌++◌, append_assoc, append-nil, ◌≡◌, refl, ap,
  sym, ◌∙◌, leb, if◌then◌else◌, Bool-cases, inl, inr, length, drop, length-append, arith,
}
use health_monitor_sre_engin.Recorder.{Recorder, push_snapshot}

-- The last `n` items, or all where there are fewer.
abbrev pub last_items : {S : Type 0} → ℕ → List S → List S
last_items n xs = drop (length xs - n) xs

-- The snapshots are pushed in order.
unfoldable pub push_all : {S : Type 0} → List S → Recorder S → Recorder S
push_all [] r = r
push_all (s ∷ ss) r = push_all ss (push_snapshot s r)

-- How many snapshots the window holds at most: its size, or what it was loaded with.
abbrev pub capacity : {S : Type 0} → Recorder S → ℕ
capacity r =
    if leb r.buffer_size (length r.rolling_buffer) then length r.rolling_buffer else r.buffer_size

module _ {S : Type 0} where
  drop-append : (k : ℕ) (xs ys : List S) → k ≤ length xs → drop k (xs ++ ys) ≡ drop k xs ++ ys
  drop-append zero xs ys h = refl
  drop-append (suc k) [] ys h = absurd (omega arith)
  drop-append (suc k) (x ∷ xs) ys h = drop-append k xs ys (omega arith)

  drop-drop : (j k n : ℕ) (xs : List S) → k + j ≡ n → drop j (drop k xs) ≡ drop n xs
  drop-drop j zero n xs e = ap (λ m. drop m xs) (omega arith)
  drop-drop j (suc k) zero xs e = absurd (omega arith)
  drop-drop zero (suc k) (suc n) [] e = refl
  drop-drop (suc j) (suc k) (suc n) [] e = refl
  drop-drop j (suc k) (suc n) (x ∷ xs) e = drop-drop j k n xs (omega arith)

  length-drop : (k : ℕ) (xs : List S) → length (drop k xs) ≡ length xs - k
  length-drop zero xs = omega arith
  length-drop (suc k) [] = omega arith
  length-drop (suc k) (x ∷ xs) = omega (arith, length-drop k xs)

  -- The last items of what is left are the last items of the whole.
  last_items-drop :
      (n k : ℕ) (xs : List S) → k + n ≤ length xs → last_items n (drop k xs) ≡ last_items n xs
  last_items-drop n k xs h =
      drop-drop (length (drop k xs) - n) k (length xs - n) xs (omega (arith, length-drop k xs))

  last_items_all : (n : ℕ) (xs : List S) → length xs ≤ n → last_items n xs ≡ xs
  last_items_all n xs h = ap (λ k. drop k xs) {y = 0} (omega arith)

  -- Items that are dropped before others come are dropped for good.
  last_items-append :
      (n : ℕ) (xs ys : List S) → last_items n (last_items n xs ++ ys) ≡ last_items n (xs ++ ys)
  last_items-append n xs ys = elim (Bool-cases (leb n (length xs))) [
    | inl many ↦
        ap (last_items n) (sym (drop-append (length xs - n) xs ys (omega arith)))
        ∙ last_items-drop n (length xs - n) (xs ++ ys) (ground (arith, length-append xs ys))
    | inr few ↦ ap (λ zs. last_items n (zs ++ ys)) (last_items_all n xs (ground arith))
  ]

  shift_one :
      (s : S) (xs : List S)
      → 0 < length xs
      → drop 1 xs ++ s ∷ [] ≡ last_items (length xs) (xs ++ s ∷ [])
  shift_one s xs h =
      sym (drop-append 1 xs (s ∷ []) (omega arith))
      ∙ ap (λ k. drop k (xs ++ s ∷ [])) {x = 1} {y = length (xs ++ s ∷ []) - length xs}
          (omega (arith, length-append xs (s ∷ [])))

  -- what one push leaves of the buffer
  push_snapshot-last_items :
      (s : S) (r : Recorder S)
      → 0 < r.buffer_size
      → (push_snapshot s r).rolling_buffer ≡ last_items (capacity r) (r.rolling_buffer ++ s ∷ [])
  unfolding push_snapshot
  push_snapshot-last_items s r h = elim (Bool-cases (leb r.buffer_size (length r.rolling_buffer))) [
    | inl full ↦ rw full (shift_one s r.rolling_buffer (ground arith))
    | inr free ↦ rw free (
        sym (
          last_items_all r.buffer_size (r.rolling_buffer ++ s ∷ [])
            (ground (arith, length-append r.rolling_buffer (s ∷ [])))))
  ]

  push_snapshot-capacity :
      (s : S) (r : Recorder S) → 0 < r.buffer_size → capacity (push_snapshot s r) ≡ capacity r
  unfolding push_snapshot
  push_snapshot-capacity s r h = ground (
    arith,
    length-append r.rolling_buffer (s ∷ []),
    length-append (drop 1 r.rolling_buffer) (s ∷ []),
    length-drop 1 r.rolling_buffer,
  )

  push_snapshot-size :
      (s : S) (r : Recorder S) → 0 < r.buffer_size → 0 < (push_snapshot s r).buffer_size
  unfolding push_snapshot
  push_snapshot-size s r h = h

  -- Pushing any snapshots leaves the last ones of all that the recorder was loaded with and that were
  -- pushed, in their order: as many as the buffer's size or, where more were loaded, as many as those. The
  -- size is positive.
  pub push_all-last_items :
      (ss : List S) (r : Recorder S)
      → 0 < r.buffer_size
      → (push_all ss r).rolling_buffer ≡ last_items (capacity r) (r.rolling_buffer ++ ss)
  unfolding push_all
  push_all-last_items [] r h =
      rw append-nil (sym (last_items_all (capacity r) r.rolling_buffer (ground arith)))
  push_all-last_items (s ∷ ss) r h =
      push_all-last_items ss (push_snapshot s r) (push_snapshot-size s r h)
      ∙ rw (push_snapshot-capacity s r h, push_snapshot-last_items s r h)
          (rw (← append_assoc r.rolling_buffer (s ∷ []) ss)
            (last_items-append (capacity r) (r.rolling_buffer ++ s ∷ []) ss))
