-- ===== src/Runbook/Cleanup.antt =====
-- What CleanupOldRunbooks removes.
use Prim.Native.Char.{Char}
use Prim.Native.String
use Prim.Native.String.{[], ◌∷◌}
use text.Mathlib.TextLemmas.{append_cancel_right, cons-append}
use health_monitor_sre_engin.Common.{
  ℕ, ◌&&◌, not, String, Bool, true, false, Option, none, some, List, [], ◌∷◌, ◌≡◌, ◌≢◌, ◌⊎◌, inl,
  inr, refl, sym, ap, ◌∙◌, subst, ltb, ◌==◌, if◌then◌else◌, Bool-cases, Option-cases, str_eq,
  eq_iff, eq_refl, is_empty, Dict, lookup, filter, All, arith,
}
use health_monitor_sre_engin.Storage.{lookup-remove, names_differ}
use health_monitor_sre_engin.Runbook.{
  Runbook, Json, Outside, Result, ok, err, not_found, json_name, get_runbook, of_text, deleted,
  delete_runbook, json_stem, more_stem, add_read, read_named, read_listed, insert_runbook,
  sort_runbooks, matches, list_runbooks, delete_old, cleanup_old_runbooks,
}

-- The id of every runbook that Get reads is the one that it is read for.
abbrev pub IsNamed : Json → Dict String → Type 0
IsNamed json files = (id : String) (r : Runbook) → get_runbook json id files ≡ ok r → r.id ≡ id

-- What is listed can be read for its id.
abbrev IsRead : Outside → Json → Dict String → Runbook → Type 0
IsRead out json files r = (get_runbook json r.id files ≡ ok r) × (out.readable r.id ≡ true)

read_named-IsRead :
    (out : Outside) (json : Json) (stem : Option String) (files : Dict String) (rest : List Runbook)
    → IsNamed json files
    → All (IsRead out json files) rest
    → All (IsRead out json files) (read_named out json stem files rest)
read_named-IsRead out json none files rest named h = h
read_named-IsRead out json (some id) files rest named h = elim (Bool-cases (out.readable id)) [
  | inl t ↦ rw t (added t (get_runbook json id files) refl)
  | inr f ↦ rw f h
]
  where
    added :
        out.readable id ≡ true
        → (found : Result) → get_runbook json id files ≡ found
        → All (IsRead out json files) (add_read found rest)
    added t (err e) eq = h
    added t (ok r) eq = (
      (
        ap (λ i. get_runbook json i files) (named id r eq) ∙ eq,
        ap (λ i. out.readable i) (named id r eq) ∙ t,
      ),
      h,
    )

read_listed-IsRead :
    (out : Outside) (json : Json) (names files : Dict String)
    → IsNamed json files
    → All (IsRead out json files) (read_listed out json names files)
unfolding read_listed
read_listed-IsRead out json [] files named = tt
read_listed-IsRead out json ((name, text) ∷ names) files named =
    read_named-IsRead out json (json_stem name) files _ named
      (read_listed-IsRead out json names files named)

module _ (P : Runbook → Type 0) where
  insert_runbook-All :
      (r : Runbook) (rs : List Runbook) → P r → All P rs → All P (insert_runbook r rs)
  unfolding insert_runbook
  insert_runbook-All r [] p h = (p, tt)
  insert_runbook-All r (s ∷ ss) p h = elim (Bool-cases (ltb r.created_at s.created_at)) [
    | inl older ↦ rw older (h.0, insert_runbook-All r ss p h.1)
    | inr newer ↦ rw newer (p, h)
  ]

  sort_runbooks-All : (rs : List Runbook) → All P rs → All P (sort_runbooks rs)
  unfolding sort_runbooks
  sort_runbooks-All [] h = tt
  sort_runbooks-All (r ∷ rs) h =
      insert_runbook-All r (sort_runbooks rs) h.0 (sort_runbooks-All rs h.1)

  filter-All : (test : Runbook → Bool) (rs : List Runbook) → All P rs → All P (filter test rs)
  unfolding filter
  filter-All test [] h = tt
  filter-All test (r ∷ rs) h = elim (Bool-cases (test r)) [
    | inl t ↦ rw t (h.0, filter-All test rs h.1)
    | inr t ↦ rw t (filter-All test rs h.1)
  ]

All-map :
    {P Q : Runbook → Type 0} (f : (r : Runbook) → P r → Q r) (rs : List Runbook)
    → All P rs
    → All Q rs
All-map f [] h = tt
All-map f (r ∷ rs) h = (f r h.0, All-map f rs h.1)

-- Delete of one id leaves the others.
delete_runbook_other :
    (removable : Bool) (json : Json) (q id : String) (files : Dict String)
    → q ≢ id
    → get_runbook json id (delete_runbook removable q files).1 ≡ get_runbook json id files
unfolding delete_runbook get_runbook
delete_runbook_other removable json q id files other =
    ap (of_text json) (left removable (lookup (json_name q) files))
  where
    apart : json_name q ≢ json_name id
    apart e = other (append_cancel_right q id ".json" e)

    left :
        (b : Bool) (found : Option String)
        → lookup (json_name id) (deleted b found (json_name q) files).1
          ≡ lookup (json_name id) files
    left b none = refl
    left false (some text) = refl
    left true (some text) =
        lookup-remove (json_name q) (json_name id) files
        ∙ rw (names_differ (json_name q) (json_name id) apart) refl

-- Delete of a file that cannot be removed changes nothing.
delete_runbook_stuck :
    (id : String) (files : Dict String) → (delete_runbook false id files).1 ≡ files
unfolding delete_runbook
delete_runbook_stuck id files = stuck (lookup (json_name id) files)
  where
    stuck : (found : Option String) → (deleted false found (json_name id) files).1 ≡ files
    stuck none = refl
    stuck (some text) = refl

-- After Delete of an id whose file can be removed, Get does not find it.
delete_runbook_same :
    (json : Json) (id : String) (files : Dict String)
    → get_runbook json id (delete_runbook true id files).1 ≡ err not_found
unfolding delete_runbook get_runbook
delete_runbook_same json id files = elim (Option-cases (lookup (json_name id) files)) [
  | inl e ↦ rw e (rw e refl)
  | inr (text, e) ↦ rw e (
      ap (of_text json) {y = none}
        (lookup-remove (json_name id) (json_name id) files ∙ rw (eq_refl (json_name id)) refl))
]

abbrev result_of : Runbook → Result → Runbook
result_of r (ok q) = q
result_of r (err e) = r

-- Runbooks that are not of this id, or are not old, or cannot be removed, are left where they are.
delete_old_keeps :
    (out : Outside) (json : Json) (cutoff : ℕ) (rs : List Runbook) (files : Dict String)
    (id : String)
    → All (λ q. (q.id ≢ id) ⊎ ((ltb q.created_at cutoff ≡ false) ⊎ (out.removable q.id ≡ false))) rs
    → get_runbook json id (delete_old out cutoff rs files) ≡ get_runbook json id files
unfolding delete_old
delete_old_keeps out json cutoff [] files id h = refl
delete_old_keeps out json cutoff (q ∷ qs) files id h =
    delete_old_keeps out json cutoff qs _ id h.1 ∙ step (ltb q.created_at cutoff) h.0
  where
    step :
        (old : Bool)
        → (q.id ≢ id) ⊎ ((old ≡ false) ⊎ (out.removable q.id ≡ false))
        → get_runbook json id
            (if old then (delete_runbook (out.removable q.id) q.id files).1 else files)
          ≡ get_runbook json id files
    step false either = refl
    step true (inl other) = delete_runbook_other (out.removable q.id) json q.id id files other
    step true (inr (inl e)) = cc
    step true (inr (inr e)) =
        rw e (ap (λ fs. get_runbook json id fs) (delete_runbook_stuck q.id files))

-- the runbook is removed: it is listed and read, old, and can be removed
abbrev pub is_removed : Outside → ℕ → String → Runbook → Bool
is_removed out days id r =
    out.listed && (out.readable id && (out.removable id && ltb r.created_at (out.days_ago days)))

-- what List reads for the cleanup
abbrev all_read : Outside → Json → Dict String → List Runbook
all_read out json files = sort_runbooks (filter (matches "" "") (read_listed out json files files))

list_runbooks-all_read :
    (out : Outside) (json : Json) (files : Dict String) (listed : Bool)
    → out.listed ≡ listed
    → list_runbooks out json "" "" 0 files
      ≡ (if listed then some (all_read out json files) else none)
unfolding list_runbooks
list_runbooks-all_read out json files true e =
    ap (λ b. if not b then none else some (all_read out json files)) e
list_runbooks-all_read out json files false e =
    ap (λ b. if not b then none else some (all_read out json files)) e

-- what is not to be removed is kept
cleanup_old_runbooks_keeps :
    (out : Outside) (json : Json) (days : ℕ) (files : Dict String) (id : String) (r : Runbook)
    → IsNamed json files
    → get_runbook json id files ≡ ok r
    → is_removed out days id r ≡ false
    → get_runbook json id (cleanup_old_runbooks out json days files).1 ≡ ok r
unfolding cleanup_old_runbooks
cleanup_old_runbooks_keeps out json days files id r named e spared_r =
    elim (Bool-cases (days == 0)) [
      | inl off ↦ rw off e
      | inr on ↦ elim (Bool-cases out.listed) [
        | inr unlisted ↦ rw (on, list_runbooks-all_read out json files false unlisted) e
        | inl listed ↦
            rw (on, list_runbooks-all_read out json files true listed)
              (delete_old_keeps out json (out.days_ago days) _ files id (
                  sort_runbooks-All Spared _ (
                    filter-All Spared _ (read_listed out json files files)
                      (All-map (spare listed) _ (read_listed-IsRead out json files files named))))
                ∙ e)
      ]
    ]
  where
    Spared : Runbook → Type 0
    Spared q =
        (q.id ≢ id)
        ⊎ ((ltb q.created_at (out.days_ago days) ≡ false) ⊎ (out.removable q.id ≡ false))

    of_same :
        out.listed ≡ true
        → (q : Runbook) → q ≡ r
        → q.id ≡ id
        → out.readable q.id ≡ true
        → (ltb q.created_at (out.days_ago days) ≡ false) ⊎ (out.removable q.id ≡ false)
    of_same listed q equal same read =
        let old = ap (λ k. ltb k.created_at (out.days_ago days)) equal in
        let read_id = ap (λ i. out.readable i) (sym same) ∙ read in
        let remove_id = ap (λ i. out.removable i) same in
        ground (arith, spared_r, listed, old, read_id, remove_id)

    spare : out.listed ≡ true → (q : Runbook) → IsRead out json files q → Spared q
    spare listed q h = elim (Bool-cases (str_eq q.id id)) [
      | inl same ↦
          let named_so = (eq_iff q.id id).0 same in
          let found : get_runbook json id files ≡ ok q =
            subst (λ i. get_runbook json i files ≡ ok q) named_so h.0 in
          inr (of_same listed q (ap (result_of r) (sym found ∙ e)) named_so h.1)
      | inr other ↦ inl (λ same. let t : true ≡ false = sym ((eq_iff q.id id).1 same) ∙ other in cc)
    ]

Has : Runbook → List Runbook → Type 0
Has r [] = ⊥
Has r (q ∷ qs) = (q ≡ r) ⊎ Has r qs

insert_runbook-Has :
    (r q : Runbook) (qs : List Runbook) → (q ≡ r) ⊎ Has r qs → Has r (insert_runbook q qs)
unfolding insert_runbook Has
insert_runbook-Has r q [] h = h
insert_runbook-Has r q (s ∷ ss) h = ground (arith, insert_runbook-Has r q ss, h)

sort_runbooks-Has : (r : Runbook) (rs : List Runbook) → Has r rs → Has r (sort_runbooks rs)
unfolding sort_runbooks Has
sort_runbooks-Has r [] h = h
sort_runbooks-Has r (q ∷ qs) (inl e) = insert_runbook-Has r q (sort_runbooks qs) (inl e)
sort_runbooks-Has r (q ∷ qs) (inr h) =
    insert_runbook-Has r q (sort_runbooks qs) (inr (sort_runbooks-Has r qs h))

filter_all :
    (test : Runbook → Bool) (rs : List Runbook)
    → ((r : Runbook) → test r ≡ true)
    → filter test rs ≡ rs
unfolding filter
filter_all test [] h = refl
filter_all test (r ∷ rs) h = rw (h r) (ap (λ qs. r ∷ qs) (filter_all test rs h))

not_empty : (c : Char) (s : String) → ◌≢◌ {A = String} (c ∷ s) ""
not_empty c s e = let t : false ≡ true = ap is_empty e in cc

not_json : (c : Char) (s : String) → str_eq (String.◌++◌ (c ∷ s) ".json") ".json" ≡ false
not_json c s = elim (Bool-cases (str_eq (String.◌++◌ (c ∷ s) ".json") ".json")) [
  | inr other ↦ other
  | inl same ↦ absurd (
      not_empty c s (
        append_cancel_right (c ∷ s) "" ".json"
          ((eq_iff (String.◌++◌ (c ∷ s) ".json") ".json").0 same)))
]

json_stem-json_name : (id : String) → json_stem (json_name id) ≡ some id
unfolding json_stem
json_stem-json_name [] = refl
json_stem-json_name (c ∷ s) =
    let other : str_eq (c ∷ (String.◌++◌ s ".json")) ".json" ≡ false =
      ap (λ t. str_eq t ".json") (sym (cons-append c s ".json")) ∙ not_json c s in
    rw (cons-append c s ".json") (rw other (ap (more_stem c) (json_stem-json_name s)))

-- A runbook that Get finds, and that can be read, is among those that List reads.
read_listed-Has :
    (out : Outside) (json : Json) (id : String) (r : Runbook) (names files : Dict String)
    (text : String)
    → lookup (json_name id) names ≡ some text
    → get_runbook json id files ≡ ok r
    → out.readable id ≡ true
    → Has r (read_listed out json names files)
unfolding read_listed lookup Has
read_listed-Has out json id r [] files text found e t = cc
read_listed-Has out json id r ((name, first) ∷ names) files text found e t =
    elim (Bool-cases (str_eq name (json_name id))) [
      | inl same ↦
          rw ((eq_iff name (json_name id)).0 same)
            (rw (json_stem-json_name id) (rw (t, e) (inl refl)))
      | inr other ↦
          more (json_stem name)
            (read_listed-Has out json id r names files text (rw other at found) e t)
    ]
  where
    added : (res : Result) (rest : List Runbook) → Has r rest → Has r (add_read res rest)
    added (err x) rest h = h
    added (ok q) rest h = inr h

    either :
        (b : Bool) (res : Result) (rest : List Runbook)
        → Has r rest
        → Has r (if b then add_read res rest else rest)
    either true res rest h = added res rest h
    either false res rest h = h

    more :
        (stem : Option String)
        → Has r (read_listed out json names files)
        → Has r (read_named out json stem files (read_listed out json names files))
    more none h = h
    more (some i) h = either (out.readable i) (get_runbook json i files) _ h

-- What is not there stays away.
delete_old_missing :
    (out : Outside) (json : Json) (cutoff : ℕ) (rs : List Runbook) (files : Dict String)
    (id : String)
    → get_runbook json id files ≡ err not_found
    → get_runbook json id (delete_old out cutoff rs files) ≡ err not_found
unfolding delete_old
delete_old_missing out json cutoff [] files id e = e
delete_old_missing out json cutoff (q ∷ qs) files id e =
    delete_old_missing out json cutoff qs _ id (step (ltb q.created_at cutoff) (out.removable q.id))
  where
    step :
        (old removable : Bool)
        → get_runbook json id (if old then (delete_runbook removable q.id files).1 else files)
          ≡ err not_found
    step false b = e
    step true false = ap (λ fs. get_runbook json id fs) (delete_runbook_stuck q.id files) ∙ e
    step true true = elim (Bool-cases (str_eq q.id id)) [
      | inl same ↦
          subst (λ i. get_runbook json id (delete_runbook true i files).1 ≡ err not_found)
            (sym ((eq_iff q.id id).0 same)) (delete_runbook_same json id files)
      | inr other ↦
          delete_runbook_other true json q.id id files
            (λ same. let t : true ≡ false = sym ((eq_iff q.id id).1 same) ∙ other in cc)
          ∙ e
    ]

delete_old_removes :
    (out : Outside) (json : Json) (cutoff : ℕ) (rs : List Runbook) (files : Dict String)
    (id : String) (r : Runbook)
    → Has r rs
    → r.id ≡ id
    → ltb r.created_at cutoff ≡ true
    → out.removable id ≡ true
    → get_runbook json id (delete_old out cutoff rs files) ≡ err not_found
unfolding delete_old Has
delete_old_removes out json cutoff [] files id r h named old t = absurd h
delete_old_removes out json cutoff (q ∷ qs) files id r (inr h) named old t =
    delete_old_removes out json cutoff qs _ id r h named old t
delete_old_removes out json cutoff (q ∷ qs) files id r (inl e) named old t =
    let same : q.id ≡ id = ap (λ k. k.id) e ∙ named in
    let removed : get_runbook json id (delete_runbook (out.removable q.id) q.id files).1
        ≡ err not_found =
      subst (λ i. get_runbook json id (delete_runbook (out.removable i) i files).1 ≡ err not_found)
        (sym same) (rw t (delete_runbook_same json id files)) in
    delete_old_missing out json cutoff qs _ id
      (rw (ap (λ k. ltb k.created_at cutoff) e ∙ old) removed)

stored_text :
    (json : Json) (id : String) (files : Dict String) (r : Runbook)
    → get_runbook json id files ≡ ok r
    → (text : String) × (lookup (json_name id) files ≡ some text)
unfolding get_runbook
stored_text json id files r e = elim (Option-cases (lookup (json_name id) files)) [
  | inr found ↦ found
  | inl missing ↦ let x : err not_found ≡ ok r = ap (of_text json) (sym missing) ∙ e in cc
]

-- what is to be removed is removed
cleanup_old_runbooks_removes :
    (out : Outside) (json : Json) (days : ℕ) (files : Dict String) (id : String) (r : Runbook)
    → IsNamed json files
    → get_runbook json id files ≡ ok r
    → (days == 0) ≡ false
    → is_removed out days id r ≡ true
    → get_runbook json id (cleanup_old_runbooks out json days files).1 ≡ err not_found
unfolding cleanup_old_runbooks
cleanup_old_runbooks_removes out json days files id r named e on removed =
    let (text, found) = stored_text json id files r e in
    let listed : out.listed ≡ true = ground (arith, removed) in
    let here = read_listed-Has out json id r files files text found e (ground (arith, removed)) in
    rw (on, list_runbooks-all_read out json files true listed)
      (delete_old_removes out json (out.days_ago days) _ files id r
        (sort_runbooks-Has r _
          (subst (Has r) (sym (filter_all _ (read_listed out json files files) (λ q. refl))) here))
        (named id r e) (ground (arith, removed)) (ground (arith, removed)))

-- CleanupOldRunbooks with a retention period removes exactly the old runbooks that it can: after it Get does not
-- find an id whose runbook is older than the period, where the directory can be listed, the file be read and the
-- file be removed, and returns any other runbook as before, in a directory in which each runbook is read under
-- its own id.
pub cleanup_old_runbooks-exact :
    (out : Outside) (json : Json) (days : ℕ) (files : Dict String) (id : String) (r : Runbook)
    → IsNamed json files
    → get_runbook json id files ≡ ok r
    → (days == 0) ≡ false
    → get_runbook json id (cleanup_old_runbooks out json days files).1
      ≡ (if is_removed out days id r then err not_found else ok r)
cleanup_old_runbooks-exact out json days files id r named e on =
    elim (Bool-cases (is_removed out days id r)) [
      | inl old ↦ rw old (cleanup_old_runbooks_removes out json days files id r named e on old)
      | inr young ↦ rw young (cleanup_old_runbooks_keeps out json days files id r named e young)
    ]
