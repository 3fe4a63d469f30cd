-- ===== src/Runbook.antt =====
-- internal/runbook/store.go: runbooks as files of one directory, which is an association list from file
-- names to contents in the order of os.ReadDir. JSON is a pair of functions; of a runbook the fields are kept
-- that the store reads. Creating the directory and its permissions are left out but for their errors.
pub mod Cleanup
pub mod Files
use Prim.Native.Char.{Char}
use Prim.Native.String
use Prim.Native.String.{[], ◌∷◌}
use health_monitor_sre_engin.Common.{
  ℕ, zero, suc, String, Bool, true, false, not, ◌&&◌, ◌||◌, Option, none, some, List, [], ◌∷◌, ◌++◌,
  ◌==◌, ltb, if◌then◌else◌, str_eq, is_empty, Dict, lookup, insert, take, filter,
}
use health_monitor_sre_engin.Storage.{remove}

pub record Runbook : Type 0 where
  pub id : String
  pub service : String
  pub pattern : String
  pub category : String
  pub format : String
  pub content : String
  pub created_at : ℕ
  pub updated_at : ℕ
  pub published : Bool

-- json.MarshalIndent and json.Unmarshal
pub record Json : Type 0 where
  pub encode : Runbook → Option String
  pub decode : String → Option Runbook

pub data StoreError : Type 0 where
  mkdir_failed marshal_failed write_failed not_found unmarshal_failed remove_failed : StoreError
  list_failed : StoreError

pub data Result : Type 0 where
  ok : Runbook → Result
  err : StoreError → Result

-- how the calls of Save go: os.MkdirAll, and os.WriteFile with what a failed write leaves
pub record SaveEnds : Type 0 where
  pub made : Bool
  pub torn : Option String

-- the error, `none` for nil, and the files after the call
abbrev pub Done : Type 0
Done = Option StoreError × Dict String

abbrev pub json_name : String → String
json_name id = String.◌++◌ id ".json"

-- os.WriteFile
abbrev pub write_text : Option String → String → String → Dict String → Done
write_text none name text files = (none, insert name text files)
write_text (some part) name text files = (some write_failed, insert name part files)

abbrev pub write_json : Option String → Option String → String → Dict String → Done
write_json none torn name files = (some marshal_failed, files)
write_json (some text) torn name files = write_text torn name text files

-- FileStore.Save
unfoldable pub save_runbook : Json → SaveEnds → Runbook → Dict String → Done
save_runbook json ends r files =
    let markdown = write_text ends.torn (String.◌++◌ r.id ".md") r.content files in
    let structured = write_json (json.encode r) ends.torn (json_name r.id) files in
    if not ends.made
    then (some mkdir_failed, files)
    else if str_eq r.format "markdown"
    then markdown
    else structured

abbrev pub of_decoded : Option Runbook → Result
of_decoded none = err unmarshal_failed
of_decoded (some r) = ok r

abbrev pub of_text : Json → Option String → Result
of_text json none = err not_found
of_text json (some text) = of_decoded (json.decode text)

-- FileStore.Get
unfoldable pub get_runbook : Json → String → Dict String → Result
get_runbook json id files = of_text json (lookup (json_name id) files)

-- FileStore.Delete; the test is whether os.Remove can remove the file where it is there
abbrev pub deleted : Bool → Option String → String → Dict String → Done
deleted removable none name files = (some not_found, files)
deleted true (some text) name files = (none, remove name files)
deleted false (some text) name files = (some remove_failed, files)

unfoldable pub delete_runbook : Bool → String → Dict String → Done
delete_runbook removable id files =
    deleted removable (lookup (json_name id) files) (json_name id) files

abbrev pub save_update : Json → SaveEnds → ℕ → Runbook → Result → Dict String → Done
save_update json ends now r (err e) files = (some not_found, files)
save_update json ends now r (ok existing) files =
    save_runbook json ends (record r { created_at = existing.created_at; updated_at = now }) files

-- FileStore.Update
unfoldable pub update_runbook : Json → SaveEnds → ℕ → Runbook → Dict String → Done
update_runbook json ends now r files =
    save_update json ends now r (get_runbook json r.id files) files

abbrev pub more_stem : Char → Option String → Option String
more_stem c none = none
more_stem c (some stem) = some (c ∷ stem)

-- the part of a name before ".json"
unfoldable pub json_stem : String → Option String
json_stem [] = none
json_stem (c ∷ s) = if str_eq (c ∷ s) ".json" then some "" else more_stem c (json_stem s)

-- the runbooks of the files that List can read, in the order of the directory
abbrev pub add_read : Result → List Runbook → List Runbook
add_read (err e) rest = rest
add_read (ok r) rest = r ∷ rest

-- How the calls of List and of the cleanup go: whether os.ReadDir succeeds, for which ids os.ReadFile and
-- os.Remove succeed where the file is there, and time.Now().AddDate(0, 0, -days) for a number of days.
pub record Outside : Type 0 where
  pub listed : Bool
  pub readable : String → Bool
  pub removable : String → Bool
  pub days_ago : ℕ → ℕ

module _ (out : Outside) where
  abbrev pub read_named : Json → Option String → Dict String → List Runbook → List Runbook
  read_named json none files rest = rest
  read_named json (some id) files rest =
      if out.readable id then add_read (get_runbook json id files) rest else rest

  unfoldable pub read_listed : Json → Dict String → Dict String → List Runbook
  read_listed json [] files = []
  read_listed json ((name, text) ∷ names) files =
      read_named json (json_stem name) files (read_listed json names files)

abbrev pub matches : String → String → Runbook → Bool
matches service pattern r =
    (is_empty service || str_eq r.service service) && (is_empty pattern || str_eq r.pattern pattern)

-- sort.Slice, the newest first
unfoldable pub insert_runbook : Runbook → List Runbook → List Runbook
insert_runbook r [] = r ∷ []
insert_runbook r (s ∷ ss) =
    let rest = insert_runbook r ss in if ltb r.created_at s.created_at then s ∷ rest else r ∷ s ∷ ss

unfoldable pub sort_runbooks : List Runbook → List Runbook
sort_runbooks [] = []
sort_runbooks (r ∷ rs) = insert_runbook r (sort_runbooks rs)

module _ (out : Outside) where
  -- FileStore.List, `none` for an error; a limit that is not positive is 0
  unfoldable pub list_runbooks : Json → String → String → ℕ → Dict String → Option (List Runbook)
  list_runbooks json service pattern limit files =
      let sorted =
        sort_runbooks (filter (matches service pattern) (read_listed out json files files)) in
      if not out.listed then none else if limit == 0 then some sorted else some (take limit sorted)

  -- the loop of the cleanup, which only reports the errors of Delete
  unfoldable pub delete_old : ℕ → List Runbook → Dict String → Dict String
  delete_old cutoff [] files = files
  delete_old cutoff (r ∷ rs) files = delete_old cutoff rs (
      if ltb r.created_at cutoff then (delete_runbook (out.removable r.id) r.id files).1 else files)

  abbrev pub clean_listed : ℕ → Option (List Runbook) → Dict String → Done
  clean_listed cutoff none files = (some list_failed, files)
  clean_listed cutoff (some rs) files = (none, delete_old cutoff rs files)

  -- CleanupOldRunbooks; a number of days that is not positive is 0
  unfoldable pub cleanup_old_runbooks : Json → ℕ → Dict String → Done
  cleanup_old_runbooks json days files =
      if days == 0
      then (none, files)
      else clean_listed (out.days_ago days) (list_runbooks json "" "" 0 files) files
