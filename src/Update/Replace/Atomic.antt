-- ===== src/Update/Replace/Atomic.antt =====
-- replaceBinary leaves the old binary or the new one in place, unless it restores a backup.
use Prim.Native.String
use text.Mathlib.TextLemmas.{append_cancel_left, append-nil}
use health_monitor_sre_engin.Common.{
  String, texts_differ, Bool, true, false, Option, none, some, List, [], ◌∷◌, ◌++◌, ◌≡◌, ◌≢◌, inl,
  inr, refl, sym, ap, ◌∙◌, subst, if◌then◌else◌, is_empty, Dict, lookup, insert, All,
}
use health_monitor_sre_engin.Storage.{
  remove, rename_file, rename_target, final_files, lookup-remove, insert_other, insert_same,
  names_differ, OldOrNew,
}
use health_monitor_sre_engin.Update.Replace.{
  CopyFailure, no_open, no_create, no_copy, no_sync, Steps, copied, copy_file, Ends, backup_path,
  temp_target, restore_backup, rename_binary, install_copy, copy_new, replace_binary,
}

-- A file that is not written keeps its content.
Keeps : String → Option String → List (Dict String) → Type 0
Keeps q old states = All (λ s. lookup q s ≡ old) states

pub remove_other :
    (path q : String) (fs : Dict String) → path ≢ q → lookup q (remove path fs) ≡ lookup q fs
remove_other path q fs h = lookup-remove path q fs ∙ rw (names_differ path q h) refl

copied-Keeps :
    (content : Option String) (failure : Option CopyFailure) (dst q : String) (fs : Dict String)
    → dst ≢ q
    → Keeps q (lookup q fs) (copied content failure dst fs).1
unfolding Keeps
copied-Keeps none failure dst q fs h = tt
copied-Keeps (some content) (some no_open) dst q fs h = tt
copied-Keeps (some content) (some no_create) dst q fs h = tt
copied-Keeps (some content) (some (no_copy part)) dst q fs h =
    let e = insert_other dst q "" fs h in (e, (insert_other dst q part _ h ∙ e, tt))
copied-Keeps (some content) (some no_sync) dst q fs h =
    let e = insert_other dst q "" fs h in (e, (insert_other dst q content _ h ∙ e, tt))
copied-Keeps (some content) none dst q fs h =
    let e = insert_other dst q "" fs h in (e, (insert_other dst q content _ h ∙ e, tt))

copy_file-Keeps :
    (failure : Option CopyFailure) (src dst q : String) (fs : Dict String)
    → dst ≢ q
    → Keeps q (lookup q fs) (copy_file failure src dst fs).1
unfolding copy_file
copy_file-Keeps failure src dst q fs h = copied-Keeps (lookup src fs) failure dst q fs h

-- What a copy without an error has written.
copied-done :
    (content : String) (failure : Option CopyFailure) (dst : String) (fs : Dict String)
    → (copied (some content) failure dst fs).0 ≡ true
    → lookup dst (final_files fs (copied (some content) failure dst fs).1) ≡ some content
copied-done content (some no_open) dst fs h = cc
copied-done content (some no_create) dst fs h = cc
copied-done content (some (no_copy part)) dst fs h = cc
copied-done content (some no_sync) dst fs h = cc
copied-done content none dst fs h = insert_same dst content (insert dst "" fs)

copy_file-done :
    (failure : Option CopyFailure) (src dst content : String) (fs : Dict String)
    → lookup src fs ≡ some content
    → (copy_file failure src dst fs).0 ≡ true
    → lookup dst (final_files fs (copy_file failure src dst fs).1) ≡ some content
unfolding copy_file
copy_file-done failure src dst content fs e h =
    rw e (copied-done content failure dst fs (rw e at h))

final_files-append :
    (fs : Dict String) (xs ys : List (Dict String))
    → final_files fs (xs ++ ys) ≡ final_files (final_files fs xs) ys
final_files-append fs [] ys = refl
final_files-append fs (x ∷ xs) ys = final_files-append x xs ys

final_files-Keeps :
    (q : String) (old : Option String) (fs : Dict String) (states : List (Dict String))
    → lookup q fs ≡ old
    → Keeps q old states
    → lookup q (final_files fs states) ≡ old
unfolding Keeps
final_files-Keeps q old fs [] e h = e
final_files-Keeps q old fs (s ∷ ss) e h = final_files-Keeps q old s ss h.0 h.1

-- The steps that follow leave the old content or the new one, and the error says which at the end.
record IsReplacement (current : String) (old : Option String) (content : String) (fs : Dict String)
    (steps : Steps) : Type 0 where
  all_old_or_new : All (OldOrNew old content current) steps.1
  at_the_end : lookup current (final_files fs steps.1) ≡ (if steps.0 then some content else old)

module _ (current content : String) where
  Keeps-append :
      (old : Option String) (xs ys : List (Dict String))
      → Keeps current old xs
      → All (OldOrNew old content current) ys
      → All (OldOrNew old content current) (xs ++ ys)
  unfolding Keeps
  Keeps-append old [] ys h k = k
  Keeps-append old (x ∷ xs) ys h k = (inl h.0, Keeps-append old xs ys h.1 k)

  after_Keeps :
      (fs : Dict String) (before : List (Dict String)) (steps : Steps)
      → Keeps current (lookup current fs) before
      → IsReplacement current
          (lookup current (final_files fs before))
          content
          (final_files fs before)
          steps
      → IsReplacement current (lookup current fs) content fs (steps.0, before ++ steps.1)
  after_Keeps fs before steps h given =
      let k =
        subst (λ old. IsReplacement current old content (final_files fs before) steps)
          (final_files-Keeps current (lookup current fs) fs before refl h) given in
      record {
        all_old_or_new = Keeps-append (lookup current fs) before steps.1 h k.all_old_or_new;
        at_the_end = ap (lookup current) (final_files-append fs before steps.1) ∙ k.at_the_end;
      }

-- an extension makes another name
extended : (current ext : String) → ext ≢ "" → String.◌++◌ current ext ≢ current
extended current ext h e = h (append_cancel_left current ext "" (e ∙ sym (append-nil current)))

named : (ext : String) → is_empty ext ≡ false → ext ≢ ""
named ext h e = let k : true ≡ false = sym (ap is_empty e) ∙ h in cc

-- To split on a test.
if_split :
    (P : Steps → Type 0) (test : Bool) (x y : Steps)
    → (test ≡ true → P x)
    → (test ≡ false → P y)
    → P (if test then x else y)
if_split P true x y h k = h refl
if_split P false x y h k = k refl

temp_target-ne : (current : String) → temp_target current ≢ current
temp_target-ne current = extended current ".new" (named ".new" refl)

backup_path-ne : (current : String) → backup_path current ≢ current
backup_path-ne current = extended current ".backup" (named ".backup" refl)

module _ (ends : Ends) (current content : String) where
  abbrev Replaces : Dict String → Steps → Type 0
  Replaces fs = IsReplacement current (lookup current fs) content fs

  rename_binary-Replaces :
      (fs : Dict String)
      → ends.rename_fails ≡ false
      → lookup (temp_target current) fs ≡ some content
      → Replaces fs (rename_binary ends current fs)
  unfolding rename_binary
  rename_binary-Replaces fs works e =
      let renamed = rename_file (temp_target current) current fs in
      let new = rename_target (temp_target current) current content fs e in
      let kept =
        remove_other (backup_path current) current renamed (backup_path-ne current) ∙ new in
      if_split (Replaces fs) ends.rename_fails _ _
        (λ fails. let k : false ≡ true = sym works ∙ fails in cc)
        (λ _. record { all_old_or_new = (inr new, (inr kept, tt)); at_the_end = kept })

  install_copy-Replaces :
      (fs : Dict String)
      → ends.rename_fails ≡ false
      → lookup (temp_target current) fs ≡ some content
      → Replaces fs (install_copy ends current fs)
  unfolding install_copy
  install_copy-Replaces fs works e =
      let cleared = remove (temp_target current) fs in
      let one = remove_other (temp_target current) current fs (temp_target-ne current) in
      let two = remove_other (backup_path current) current cleared (backup_path-ne current) ∙ one in
      if_split (Replaces fs) ends.chmod_fails _ _
        (λ _. record { all_old_or_new = (inl one, (inl two, tt)); at_the_end = two })
        (λ _. rename_binary-Replaces fs works e)

  copy_new-Replaces :
      (new_path : String) (fs : Dict String)
      → ends.rename_fails ≡ false
      → lookup new_path fs ≡ some content
      → Replaces fs (copy_new ends current new_path fs)
  unfolding copy_new
  copy_new-Replaces new_path fs works e =
      let result = copy_file ends.copy new_path (temp_target current) fs in
      let kept =
        copy_file-Keeps ends.copy new_path (temp_target current) current fs
          (temp_target-ne current) in
      let cleared =
        remove_other (backup_path current) current (final_files fs result.1)
          (backup_path-ne current) in
      if_split (Replaces fs) result.0 _ _
        (λ done.
          after_Keeps current content fs result.1
            (install_copy ends current (final_files fs result.1)) kept
            (install_copy-Replaces (final_files fs result.1) works
              (copy_file-done ends.copy new_path (temp_target current) content fs e done)))
        (λ failed.
          after_Keeps current content fs result.1
            (false, remove (backup_path current) (final_files fs result.1) ∷ []) kept
            (record { all_old_or_new = (inl cleared, tt); at_the_end = cleared }))

-- Where os.Rename works, the binary's file holds the old binary or all of the new one after every step of
-- replaceBinary, whichever other steps fail; at the end it holds the new one where replaceBinary returns no
-- error, and the old one where it returns an error. The new binary stands under a name that is not the
-- backup's.
pub replace_binary-atomic :
    (ends : Ends) (current new_path content : String) (fs : Dict String)
    → ends.rename_fails ≡ false
    → lookup new_path fs ≡ some content
    → backup_path current ≢ new_path
    → All (OldOrNew (lookup current fs) content current) (replace_binary ends current new_path fs).1
      × (lookup current (final_files fs (replace_binary ends current new_path fs).1) ≡ (
          if (replace_binary ends current new_path fs).0 then some content else lookup current fs))
unfolding replace_binary
replace_binary-atomic ends current new_path content fs works e other =
    let result = copy_file ends.backup current (backup_path current) fs in
    let kept =
      copy_file-Keeps ends.backup current (backup_path current) current fs
        (backup_path-ne current) in
    let source = final_files-Keeps new_path (some content) fs result.1 e (
      subst (λ old. Keeps new_path old result.1) e
        (copy_file-Keeps ends.backup current (backup_path current) new_path fs other)) in
    let final =
      after_Keeps current content fs result.1
        (copy_new ends current new_path (final_files fs result.1)) kept
        (copy_new-Replaces ends current content new_path (final_files fs result.1) works source) in
    (final.all_old_or_new, final.at_the_end)

temp_target-ne-backup_path : (current : String) → temp_target current ≢ backup_path current
temp_target-ne-backup_path current e =
    let same : ".new" ≡ ".backup" = append_cancel_left current ".new" ".backup" e in
    texts_differ ".new" ".backup" refl same

-- the content of the binary after the copy of a backup with the old content over it
abbrev pub after_restore : Option CopyFailure → String → String
after_restore (some (no_copy part)) old = part
after_restore _ old = old

restore_backup-after_restore :
    (failure : Option CopyFailure) (current old : String) (fs : Dict String)
    → lookup (backup_path current) fs ≡ some old
    → lookup current fs ≡ some old
    → lookup current (final_files fs (restore_backup failure current fs))
      ≡ some (after_restore failure old)
unfolding restore_backup copy_file
restore_backup-after_restore none current old fs saved here = rw saved (
    remove_other (backup_path current) current _ (backup_path-ne current)
    ∙ insert_same current old (insert current "" fs))
restore_backup-after_restore (some no_open) current old fs saved here = rw saved here
restore_backup-after_restore (some no_create) current old fs saved here = rw saved here
restore_backup-after_restore (some no_sync) current old fs saved here =
    rw saved (insert_same current old (insert current "" fs))
restore_backup-after_restore (some (no_copy part)) current old fs saved here =
    rw saved (insert_same current part (insert current "" fs))

-- When os.Rename is the first call that fails, the old binary is still in place, but replaceBinary writes the
-- backup over it. It returns an error, and the binary's file ends with a part of the old content where that copy
-- breaks off, whatever the part; it has the old content where the copy succeeds, or fails to open, to create or
-- to sync its file.
pub failed_restore_truncates :
    (ends : Ends) (current new_path old content : String) (fs : Dict String)
    → ends.backup ≡ none
    → ends.copy ≡ none
    → ends.chmod_fails ≡ false
    → ends.rename_fails ≡ true
    → lookup current fs ≡ some old
    → lookup new_path fs ≡ some content
    → backup_path current ≢ new_path
    → ((replace_binary ends current new_path fs).0 ≡ false)
      × (lookup current (final_files fs (replace_binary ends current new_path fs).1)
          ≡ some (after_restore ends.restore old))
unfolding replace_binary copy_new install_copy rename_binary copy_file
failed_restore_truncates ends current new_path old content fs b c m n here there other =
    let backup = backup_path current in
    let temp = temp_target current in
    let apart = temp_target-ne-backup_path current in
    let fs1 = insert backup old (insert backup "" fs) in
    let fs2 = insert temp content (insert temp "" fs1) in
    let source : lookup new_path fs1 ≡ some content =
      insert_other backup new_path old _ other ∙ insert_other backup new_path "" fs other ∙ there in
    let saved : lookup backup (remove temp fs2) ≡ some old =
      remove_other temp backup fs2 apart
      ∙ insert_other temp backup content _ apart
      ∙ insert_other temp backup "" fs1 apart
      ∙ insert_same backup old (insert backup "" fs) in
    let still : lookup current (remove temp fs2) ≡ some old =
      remove_other temp current fs2 (temp_target-ne current)
      ∙ insert_other temp current content _ (temp_target-ne current)
      ∙ insert_other temp current "" fs1 (temp_target-ne current)
      ∙ insert_other backup current old _ (backup_path-ne current)
      ∙ insert_other backup current "" fs (backup_path-ne current)
      ∙ here in
    rw (b, c, m, n)
      (rw here (
        rw source (
          refl,
          restore_backup-after_restore ends.restore current old (remove temp fs2) saved still,
        )))
