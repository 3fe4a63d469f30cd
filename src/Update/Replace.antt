-- ===== src/Update/Replace.antt =====
-- replaceBinary and copyFile of pkg/update/updater.go, step by step on an explicit file system, on which
-- every step may fail. filepath.Join(dir, filename + ext) is the current path with the extension.
pub mod Atomic
use Prim.Native.String
use health_monitor_sre_engin.Common.{
  String, Bool, true, false, Option, none, some, List, [], ◌∷◌, ◌++◌, if◌then◌else◌, Dict, lookup,
  insert,
}
use health_monitor_sre_engin.Storage.{remove, rename_file, final_files}

-- the step of copyFile that returns an error; a failed copy has written a part
pub data CopyFailure : Type 0 where
  no_open no_create no_sync : CopyFailure
  no_copy : String → CopyFailure

-- whether the error is nil, and the file system after each step
abbrev pub Steps : Type 0
Steps = Bool × List (Dict String)

abbrev pub copied : Option String → Option CopyFailure → String → Dict String → Steps
copied none failure dst fs = (false, [])
copied (some content) (some no_open) dst fs = (false, [])
copied (some content) (some no_create) dst fs = (false, [])
copied (some content) (some (no_copy part)) dst fs =
    (false, insert dst "" fs ∷ insert dst part (insert dst "" fs) ∷ [])
copied (some content) (some no_sync) dst fs =
    (false, insert dst "" fs ∷ insert dst content (insert dst "" fs) ∷ [])
copied (some content) none dst fs =
    (true, insert dst "" fs ∷ insert dst content (insert dst "" fs) ∷ [])

unfoldable pub copy_file : Option CopyFailure → String → String → Dict String → Steps
copy_file failure src dst fs = copied (lookup src fs) failure dst fs

-- how the calls of replaceBinary go
pub record Ends : Type 0 where
  pub backup : Option CopyFailure
  pub copy : Option CopyFailure
  pub chmod_fails : Bool
  pub rename_fails : Bool
  pub restore : Option CopyFailure

abbrev pub backup_path : String → String
backup_path current = String.◌++◌ current ".backup"

abbrev pub temp_target : String → String
temp_target current = String.◌++◌ current ".new"

-- the error path of os.Rename
unfoldable pub restore_backup : Option CopyFailure → String → Dict String → List (Dict String)
restore_backup failure current fs =
    let (done, states) = copy_file failure (backup_path current) current fs in
    if done then states ++ remove (backup_path current) (final_files fs states) ∷ [] else states

-- from os.Rename on
unfoldable pub rename_binary : Ends → String → Dict String → Steps
rename_binary ends current fs =
    let cleared = remove (temp_target current) fs in
    let renamed = rename_file (temp_target current) current fs in
    if ends.rename_fails
    then (false, cleared ∷ restore_backup ends.restore current cleared)
    else (true, renamed ∷ remove (backup_path current) renamed ∷ [])

-- from os.Chmod on
unfoldable pub install_copy : Ends → String → Dict String → Steps
install_copy ends current fs =
    let cleared = remove (temp_target current) fs in
    let rest = rename_binary ends current fs in
    if ends.chmod_fails then (false, cleared ∷ remove (backup_path current) cleared ∷ []) else rest

-- from the copy of the new binary on; a copy that fails leaves its temporary file
unfoldable pub copy_new : Ends → String → String → Dict String → Steps
copy_new ends current new_path fs =
    let (done, states) = copy_file ends.copy new_path (temp_target current) fs in
    let copied_fs = final_files fs states in
    let (installed, rest) = install_copy ends current copied_fs in
    if done
    then (installed, states ++ rest)
    else (false, states ++ remove (backup_path current) copied_fs ∷ [])

-- replaceBinary; an error of the backup is only reported
unfoldable pub replace_binary : Ends → String → String → Dict String → Steps
replace_binary ends current new_path fs =
    let (_, states) = copy_file ends.backup current (backup_path current) fs in
    let (installed, rest) = copy_new ends current new_path (final_files fs states) in
    (installed, states ++ rest)
