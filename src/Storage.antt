-- ===== src/Storage.antt =====
-- internal/storage/atomic.go: AtomicWriteFile, step by step on an explicit file system. A step may fail,
-- and the process may stop after any of them. Contents are texts; directories and permissions are left
-- out, except that their steps may fail.
use health_monitor_sre_engin.Common.{
  String, Bool, true, false, ◌++◌, Option, none, some, List, [], ◌∷◌, ◌≡◌, ◌≢◌, ◌⊎◌, inl, inr, refl,
  sym, ◌∙◌, if◌then◌else◌, str_eq, eq_iff, eq_refl, arith, Dict, lookup, insert, lookup-insert, All,
  Option-cases,
}

-- the steps that may return an error
pub data WriteStep : Type 0 where
  mkdir create chmod write sync close rename : WriteStep

unfoldable pub remove : String → Dict String → Dict String
remove k [] = []
remove k ((j, v) ∷ m) = let rest = remove k m in if str_eq j k then rest else (j, v) ∷ rest

-- os.Rename, of a file that is there
abbrev moved : Option String → String → String → Dict String → Dict String
moved none old new fs = fs
moved (some v) old new fs = insert new v (remove old fs)

unfoldable pub rename_file : String → String → Dict String → Dict String
rename_file old new fs = moved (lookup old fs) old new fs

-- what is left on disk
abbrev pub final_files : Dict String → List (Dict String) → Dict String
final_files fs [] = fs
final_files fs (s ∷ ss) = final_files s ss

-- os.Rename and the end of the function
abbrev pub rename_step : Option WriteStep → String → String → Dict String → List (Dict String)
rename_step (some rename) path tmp fs = []
rename_step _ path tmp fs = rename_file tmp path fs ∷ []

abbrev pub close_step : Option WriteStep → String → String → Dict String → List (Dict String)
close_step (some close) path tmp fs = []
close_step stop path tmp fs = rename_step stop path tmp fs

abbrev pub sync_step : Option WriteStep → String → String → Dict String → List (Dict String)
sync_step (some sync) path tmp fs = []
sync_step stop path tmp fs = close_step stop path tmp fs

-- tmpFile.Write; `part` is what a failed write has written
abbrev pub write_step :
    Option WriteStep → String → String → String → String → Dict String → List (Dict String)
write_step (some write) path tmp content part fs = insert tmp part fs ∷ []
write_step stop path tmp content part fs =
    let written = insert tmp content fs in written ∷ sync_step stop path tmp written

abbrev pub chmod_step :
    Option WriteStep → String → String → String → String → Dict String → List (Dict String)
chmod_step (some chmod) path tmp content part fs = []
chmod_step stop path tmp content part fs = write_step stop path tmp content part fs

-- the deferred call, by whether the `err` that it tests is set
abbrev pub deferred : Bool → String → Dict String → List (Dict String)
deferred true tmp fs = remove tmp fs ∷ []
deferred false tmp fs = []

-- The steps after os.CreateTemp, and then the deferred call. Its `err` is the one of os.CreateTemp, which is
-- nil here: each later step declares its own in an `if`.
abbrev pub created_steps :
    Option WriteStep → String → String → String → String → Dict String → List (Dict String)
created_steps stop path tmp content part created =
    let states = chmod_step stop path tmp content part created in
    states ++ deferred false tmp (final_files created states)

-- AtomicWriteFile: the file system before it and after each step up to the one that fails, or to the end.
unfoldable pub atomic_write_file :
    Option WriteStep → String → String → String → String → Dict String → List (Dict String)
atomic_write_file (some mkdir) path tmp content part fs = fs ∷ []
atomic_write_file (some create) path tmp content part fs = fs ∷ []
atomic_write_file stop path tmp content part fs =
    let created = insert tmp "" fs in
    fs ∷ created ∷ created_steps stop path tmp content part created

pub lookup-remove :
    (k j : String) (m : Dict String)
    → lookup j (remove k m) ≡ (if str_eq k j then none else lookup j m)
unfolding lookup remove
lookup-remove k j [] = ground arith
lookup-remove k j ((i, w) ∷ m) =
    ground (arith, eq_iff k j, eq_iff i k, eq_iff i j, lookup-remove k j m)

abbrev pub OldOrNew : Option String → String → String → Dict String → Type 0
OldOrNew old content path s = (lookup path s ≡ old) ⊎ (lookup path s ≡ some content)

pub names_differ : (s t : String) → s ≢ t → str_eq s t ≡ false
names_differ s t h = ground (arith, h, eq_iff s t)

pub insert_other : (k j v : String) (m : Dict String) → k ≢ j → lookup j (insert k v m) ≡ lookup j m
insert_other k j v m h = lookup-insert k j v m ∙ rw (names_differ k j h) refl

pub insert_same : (k v : String) (m : Dict String) → lookup k (insert k v m) ≡ some v
insert_same k v m = lookup-insert k k v m ∙ rw (eq_refl k) refl

pub rename_target :
    (tmp path content : String) (m : Dict String)
    → lookup tmp m ≡ some content
    → lookup path (rename_file tmp path m) ≡ some content
unfolding rename_file
rename_target tmp path content m h = rw h (insert_same path content (remove tmp m))

rename_source :
    (tmp path content : String) (m : Dict String)
    → tmp ≢ path
    → lookup tmp m ≡ some content
    → lookup tmp (rename_file tmp path m) ≡ none
unfolding rename_file
rename_source tmp path content m d h = rw h (
    insert_other path tmp content (remove tmp m) (λ e. d (sym e))
    ∙ lookup-remove tmp tmp m
    ∙ rw (eq_refl tmp) refl)

rename_other :
    (tmp path q : String) (m : Dict String)
    → tmp ≢ q
    → path ≢ q
    → lookup q (rename_file tmp path m) ≡ lookup q m
unfolding rename_file
rename_other tmp path q m h k = elim (Option-cases (lookup tmp m)) [
  | inl e ↦ rw e refl
  | inr (v, e) ↦ rw e (
      insert_other path q v (remove tmp m) k
      ∙ lookup-remove tmp q m
      ∙ rw (names_differ tmp q h) refl)
]

-- Whichever step fails, or none, and wherever the process stops: the target holds what it held before or
-- all of the new content, provided that the temporary name is not the target's.
pub atomic_write_file-atomic :
    (stop : Option WriteStep) (path tmp content part : String) (fs : Dict String)
    → tmp ≢ path
    → All (OldOrNew (lookup path fs) content path) (atomic_write_file stop path tmp content part fs)
unfolding atomic_write_file
atomic_write_file-atomic stop path tmp content part fs h =
    let created = insert tmp "" fs in
    let old = insert_other tmp path "" fs h in
    let some_part = inl (insert_other tmp path part created h ∙ old) in
    let all_written = inl (insert_other tmp path content created h ∙ old) in
    elim stop
      as (λ k.
        All (OldOrNew (lookup path fs) content path)
          (atomic_write_file k path tmp content part fs)) [
            | some mkdir ↦ (inl refl, tt)
            | some create ↦ (inl refl, tt)
            | some chmod ↦ (inl refl, (inl old, tt))
            | some write ↦ (inl refl, (inl old, (some_part, tt)))
            | some sync ↦ (inl refl, (inl old, (all_written, tt)))
            | some close ↦ (inl refl, (inl old, (all_written, tt)))
            | some rename ↦ (inl refl, (inl old, (all_written, tt)))
            | none ↦ (
              inl refl,
              (
                inl old,
                (
                  all_written,
                  (inr (rename_target tmp path content _ (insert_same tmp content created)), tt),
                ),
              ),
            )
          ]

-- The same for any other file than the temporary one: it is as it was at every point.
pub atomic_write_file-frame :
    (stop : Option WriteStep) (path tmp content part q : String) (fs : Dict String)
    → tmp ≢ q
    → path ≢ q
    → All (λ s. lookup q s ≡ lookup q fs) (atomic_write_file stop path tmp content part fs)
unfolding atomic_write_file
atomic_write_file-frame stop path tmp content part q fs h k =
    let created = insert tmp "" fs in
    let old = insert_other tmp q "" fs h in
    let some_part = insert_other tmp q part created h ∙ old in
    let all_written = insert_other tmp q content created h ∙ old in
    elim stop
      as (λ k. All (λ s. lookup q s ≡ lookup q fs) (atomic_write_file k path tmp content part fs)) [
        | some mkdir ↦ (refl, tt)
        | some create ↦ (refl, tt)
        | some chmod ↦ (refl, (old, tt))
        | some write ↦ (refl, (old, (some_part, tt)))
        | some sync ↦ (refl, (old, (all_written, tt)))
        | some close ↦ (refl, (old, (all_written, tt)))
        | some rename ↦ (refl, (old, (all_written, tt)))
        | none ↦ (refl, (old, (all_written, (rename_other tmp path q _ h k ∙ all_written, tt))))
      ]

-- Whichever step after os.CreateTemp fails, the temporary file is still there at the end, although the
-- deferred call is meant to remove it; after an error of Sync, Close or Rename it holds the whole content.
pub atomic_write_file-leaks :
    (step : WriteStep) (path tmp content part : String) (fs : Dict String)
    → step ≢ mkdir
    → step ≢ create
    → (text : String) × (lookup tmp
          (final_files fs (atomic_write_file (some step) path tmp content part fs))
        ≡ some text)
      × ((step ≡ chmod) ⊎ ((step ≡ write) ⊎ (text ≡ content)))
unfolding atomic_write_file
atomic_write_file-leaks mkdir path tmp content part fs h k = absurd (h refl)
atomic_write_file-leaks create path tmp content part fs h k = absurd (k refl)
atomic_write_file-leaks chmod path tmp content part fs h k = ("", insert_same tmp "" fs, inl refl)
atomic_write_file-leaks write path tmp content part fs h k =
    (part, insert_same tmp part (insert tmp "" fs), inr (inl refl))
atomic_write_file-leaks sync path tmp content part fs h k =
    (content, insert_same tmp content (insert tmp "" fs), inr (inr refl))
atomic_write_file-leaks close path tmp content part fs h k =
    (content, insert_same tmp content (insert tmp "" fs), inr (inr refl))
atomic_write_file-leaks rename path tmp content part fs h k =
    (content, insert_same tmp content (insert tmp "" fs), inr (inr refl))

-- Without a failing step the target ends with the content, and the temporary file is gone.
pub atomic_write_file-done :
    (path tmp content part : String) (fs : Dict String)
    → tmp ≢ path
    → (lookup path (final_files fs (atomic_write_file none path tmp content part fs))
        ≡ some content)
      × (lookup tmp (final_files fs (atomic_write_file none path tmp content part fs)) ≡ none)
unfolding atomic_write_file
atomic_write_file-done path tmp content part fs h =
    let written = insert tmp content (insert tmp "" fs) in
    (
      rename_target tmp path content written (insert_same tmp content (insert tmp "" fs)),
      rename_source tmp path content written h (insert_same tmp content (insert tmp "" fs)),
    )
