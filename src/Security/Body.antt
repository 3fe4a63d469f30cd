-- ===== src/Security/Body.antt =====
-- requestBody of internal/security/middleware.go: the body that ValidationMiddleware puts back, and how a
-- handler reads it. A buffer is a list of bytes.
use health_monitor_sre_engin.Common.{
  ℕ, zero, suc, ◌+◌, ◌≤◌, ◌<◌, true, All, leb, List, [], ◌∷◌, ◌++◌, ◌≡◌, refl, sym, subst, ◌∙◌, ap,
  if◌then◌else◌, length, take, drop, take-append-drop, append_assoc, append-nil, inl, inr,
  Bool-cases, arith,
}

pub record RequestBody : Type 0 where
  pub buf : List ℕ
  pub pos : ℕ

-- What Read gives: the bytes copied, or io.EOF
pub data Chunk : Type 0 where
  bytes : List ℕ → Chunk
  eof : Chunk

-- Read into a buffer of `n` bytes
unfoldable pub read : ℕ → RequestBody → Chunk × RequestBody
read n rb =
    if leb (length rb.buf) rb.pos
    then (eof, rb)
    else let got = take n (drop rb.pos rb.buf) in
      (bytes got, record rb { pos = rb.pos + length got })

abbrev pub chunk_bytes : Chunk → List ℕ
chunk_bytes (bytes bs) = bs
chunk_bytes eof = []

-- reads of the given sizes: all that they copied, and the body after them
unfoldable pub read_all : List ℕ → RequestBody → List ℕ × RequestBody
read_all [] rb = ([], rb)
read_all (n ∷ ns) rb =
    let (c, rb') = read n rb in let (rest, last) = read_all ns rb' in (chunk_bytes c ++ rest, last)

drop-nil : (n : ℕ) → drop {A = ℕ} n [] ≡ []
drop-nil zero = refl
drop-nil (suc n) = refl

same_drop : (m n : ℕ) (xs : List ℕ) → m ≡ n → drop m xs ≡ drop n xs
same_drop m n xs h = ap (λ k. drop k xs) h

drop-drop : (a b : ℕ) (xs : List ℕ) → drop b (drop a xs) ≡ drop (a + b) xs
drop-drop zero b xs = ap (λ n. drop n xs) (omega arith)
drop-drop (suc a) b [] = drop-nil b ∙ sym (drop-nil (suc a + b))
drop-drop (suc a) b (x ∷ xs) =
    drop-drop a b xs ∙ same_drop (suc (a + b)) (suc a + b) (x ∷ xs) (omega arith)

drop-length-take : (n : ℕ) (xs : List ℕ) → drop (length (take n xs)) xs ≡ drop n xs
drop-length-take zero xs = refl
drop-length-take (suc n) [] = refl
drop-length-take (suc n) (x ∷ xs) = drop-length-take n xs

-- one read: what it copies is what then is no longer left
read-splits :
    (n : ℕ) (rb : RequestBody)
    → ((read n rb).1.buf ≡ rb.buf)
      × (chunk_bytes (read n rb).0 ++ drop (read n rb).1.pos rb.buf ≡ drop rb.pos rb.buf)
unfolding read
read-splits n rb = elim (Bool-cases (leb (length rb.buf) rb.pos)) [
  | inl e ↦ rw e (refl, refl)
  | inr e ↦ rw e (
    refl,
    let ys = drop rb.pos rb.buf in
        ap (λ zs. take n ys ++ zs)
          (sym (drop-drop rb.pos (length (take n ys)) rb.buf) ∙ drop-length-take n ys)
        ∙ take-append-drop n ys,
  )
]

-- any reads: what they copied followed by what is left
read_all-splits :
    (ns : List ℕ) (rb : RequestBody)
    → ((read_all ns rb).1.buf ≡ rb.buf)
      × ((read_all ns rb).0 ++ drop (read_all ns rb).1.pos rb.buf ≡ drop rb.pos rb.buf)
unfolding read_all
read_all-splits [] rb = (refl, refl)
read_all-splits (n ∷ ns) rb =
    let rb' = (read n rb).1 in
    let (kept, one) = read-splits n rb in
    let (still, rest) = read_all-splits ns rb' in
    (
      still ∙ kept,
      append_assoc (chunk_bytes (read n rb).0) (read_all ns rb').0 _
          ∙ ap (λ zs. chunk_bytes (read n rb).0 ++ zs)
              (subst (λ b. (read_all ns rb').0 ++ drop (read_all ns rb').1.pos b ≡ drop rb'.pos b)
                kept rest)
          ∙ one,
    )

abbrev left : RequestBody → List ℕ
left rb = drop rb.pos rb.buf

length-drop_zero : (n : ℕ) (xs : List ℕ) → length xs ≤ n → drop n xs ≡ []
length-drop_zero zero [] h = refl
length-drop_zero (suc n) [] h = refl
length-drop_zero zero (x ∷ xs) h = absurd (omega (arith, h))
length-drop_zero (suc n) (x ∷ xs) h = length-drop_zero n xs (omega (arith, h))

drop_nil_length : (n : ℕ) (xs : List ℕ) → drop n xs ≡ [] → length xs ≤ n
drop_nil_length zero [] e = omega arith
drop_nil_length (suc n) [] e = omega arith
drop_nil_length zero (x ∷ xs) e = cc
drop_nil_length (suc n) (x ∷ xs) e = omega (arith, drop_nil_length n xs e)

-- a read at the end
read-eof : (n : ℕ) (rb : RequestBody) → left rb ≡ [] → read n rb ≡ (eof, rb)
unfolding read
read-eof n rb e =
    let h : leb (length rb.buf) rb.pos ≡ true = ground (arith, drop_nil_length rb.pos rb.buf e) in
    rw h refl

left-read : (n : ℕ) (rb : RequestBody) → left (read n rb).1 ≡ drop n (left rb)
unfolding read
left-read n rb = elim (Bool-cases (leb (length rb.buf) rb.pos)) [
  | inl e ↦
      let h : left rb ≡ [] = length-drop_zero rb.pos rb.buf (ground (arith, e)) in
      rw e (h ∙ sym (drop-nil n) ∙ ap (λ xs. drop n xs) (sym h))
  | inr e ↦
      rw e
        (sym (drop-drop rb.pos (length (take n (left rb))) rb.buf) ∙ drop-length-take n (left rb))
]

length-drop_some : (n k : ℕ) (xs : List ℕ) → 0 < n → length xs ≤ suc k → length (drop n xs) ≤ k
length-drop_some zero k xs room h = absurd (omega (arith, room))
length-drop_some (suc n) k [] room h = omega arith
length-drop_some (suc n) k (x ∷ xs) room h = omega (arith, h, length-drop_le n xs)
  where
    length-drop_le : (m : ℕ) (ys : List ℕ) → length (drop m ys) ≤ length ys
    length-drop_le zero ys = omega arith
    length-drop_le (suc m) [] = omega arith
    length-drop_le (suc m) (y ∷ ys) = omega (arith, length-drop_le m ys)

-- Enough reads into buffers that are not empty leave nothing.
read_all-left :
    (ns : List ℕ) (rb : RequestBody)
    → All (λ n. 0 < n) ns
    → length (left rb) ≤ length ns
    → left (read_all ns rb).1 ≡ []
unfolding read_all
read_all-left [] rb h k = length_zero (left rb) k
  where
    length_zero : (xs : List ℕ) → length xs ≤ 0 → xs ≡ []
    length_zero [] e = refl
    length_zero (x ∷ xs) e = absurd (omega (arith, e))
read_all-left (n ∷ ns) rb h k = read_all-left ns (read n rb).1 h.1 (
    subst (λ xs. length xs ≤ length ns) (sym (left-read n rb))
      (length-drop_some n (length ns) (left rb) h.0 k))

-- However a handler reads the body that was put back, with buffers that are not empty and as many reads as there
-- are bytes left: it gets all of the bytes that were left, in order, and every read after that is io.EOF.
pub read_all_complete :
    (ns : List ℕ) (rb : RequestBody) (m : ℕ)
    → All (λ n. 0 < n) ns
    → length (drop rb.pos rb.buf) ≤ length ns
    → ((read_all ns rb).0 ≡ drop rb.pos rb.buf) × ((read m (read_all ns rb).1).0 ≡ eof)
read_all_complete ns rb m h k =
    let (kept, splits) = read_all-splits ns rb in
    let last = (read_all ns rb).1 in
    let done = read_all-left ns rb h k in
    let none_left : drop last.pos rb.buf ≡ [] = ap (λ b. drop last.pos b) (sym kept) ∙ done in
    (
      sym (append-nil (read_all ns rb).0)
          ∙ ap (λ xs. (read_all ns rb).0 ++ xs) (sym none_left)
          ∙ splits,
      ap (λ x. x.0) (read-eof m last done),
    )
