-- ===== src/Incident/Store.antt =====
-- internal/incident/store.go: incidents as JSON files, partitioned by year and month, with older
-- files at the root of the directory. A file that encoding/json reads back is the incident itself; texts
-- are sequences of Unicode characters, without the invalid UTF-8 that MarshalIndent replaces.
-- Permissions, directories of other kinds and the time that a call waits for the lock are left out.
pub mod Paths
pub mod RoundTrip
use Prim.Native.String.{len, slice, [], ◌∷◌}
use Prim.Native.Char.{Char, code}
use health_monitor_sre_engin.Common.{
  ℕ, ◌+◌, ltb, leb, ◌==◌, String, Bool, true, false, not, ◌&&◌, ◌||◌, Option, none, some, List, [],
  ◌∷◌, ◌++◌, if◌then◌else◌, str_eq, is_empty, trim_space, has_prefix,
}
use health_monitor_sre_engin.Incident.{Incident}

-- filepath.Join(dir, year, month, id + ".json") and filepath.Join(dir, id + ".json"), for an id with
-- no separator in it.
pub data FilePath : Type 0 where
  partition : String → String → String → FilePath
  root : String → FilePath

abbrev is_digit : Char → Bool
is_digit c = leb b'0' (code c) && leb (code c) b'9'

unfoldable pub all_digits : String → Bool
all_digits [] = true
all_digits (c ∷ s) = is_digit c && all_digits s

-- strconv.Atoi succeeds on a text of four bytes: an optional sign and at least one digit.
unfoldable pub atoi_ok : String → Bool
unfolding all_digits
atoi_ok [] = false
atoi_ok (c ∷ s) =
    if code c == b'+' || code c == b'-'
    then not (is_empty s) && all_digits s
    else is_digit c && all_digits s

-- Store.getPath
unfoldable pub get_path : String → FilePath
unfolding atoi_ok has_prefix
get_path id =
    if leb 10 (len id) && has_prefix id "INC-" && atoi_ok (slice id 4 8)
    then partition (slice id 4 8) (slice id 8 10) id
    else root id

abbrev pub path_eq : FilePath → FilePath → Bool
path_eq (partition y m a) (partition y' m' b) = str_eq y y' && str_eq m m' && str_eq a b
path_eq (root a) (root b) = str_eq a b
path_eq _ _ = false

abbrev pub is_partitioned : FilePath → Bool
is_partitioned (partition y m a) = true
is_partitioned (root a) = false

-- What reading a file gives: an incident, a text that is not its JSON, or an error other than
-- "does not exist".
pub data File : Type 0 where
  valid : Incident → File
  invalid : File
  unreadable : File

abbrev pub Files : Type 0
Files = List (FilePath × File)

unfoldable pub file_at : FilePath → Files → Option File
file_at p [] = none
file_at p ((q, f) ∷ fs) = if path_eq q p then some f else file_at p fs

unfoldable pub put_file : FilePath → File → Files → Files
put_file p f [] = (p, f) ∷ []
put_file p f ((q, g) ∷ fs) = if path_eq q p then (p, f) ∷ fs else (q, g) ∷ put_file p f fs

unfoldable pub remove_file : FilePath → Files → Files
remove_file p [] = []
remove_file p ((q, g) ∷ fs) =
    let rest = remove_file p fs in if path_eq q p then rest else (q, g) ∷ rest

-- How a write ends: done, with an error before the new file is in place, or in place with an error
-- of applySudoOwnership.
pub data Outcome : Type 0 where
  done write_failed chown_failed : Outcome

pub data StoreError : Type 0 where
  empty_id incident_exists not_found invalid_file read_failed not_written not_owned : StoreError

abbrev exists : FilePath → Files → Bool
exists p fs = elim (file_at p fs) [ none ↦ false | some f ↦ true ]

-- the error of Save after the write, if any
abbrev owned : Outcome → Option StoreError
owned chown_failed = some not_owned
owned _ = none

-- Store.Save: the error, if any, and the files after it.
unfoldable pub save : Outcome → Incident → Files → Option StoreError × Files
save outcome incident fs =
    if is_empty (trim_space incident.id) then (some empty_id, fs) else (elim outcome [
      | write_failed ↦ (some not_written, fs)
      | other ↦
          let path = get_path incident.id in
          let written = put_file path (valid incident) fs in
          (
            owned other,
            if is_partitioned path then remove_file (root incident.id) written else written,
          )
    ])

-- Store.SaveNew
unfoldable pub save_new : Outcome → Incident → Files → Option StoreError × Files
save_new outcome incident fs =
    if is_empty (trim_space incident.id)
    then (some empty_id, fs)
    else if exists (get_path incident.id) fs
    then (some incident_exists, fs)
    else if exists (root incident.id) fs
    then (some incident_exists, fs)
    else (elim outcome [
      | write_failed ↦ (some not_written, fs)
      | other ↦ (owned other, put_file (get_path incident.id) (valid incident) fs)
    ])

pub data Loaded : Type 0 where
  loaded : Incident → Loaded
  load_failed : StoreError → Loaded

-- json.Unmarshal of what was read
abbrev parse_file : File → Loaded
parse_file (valid i) = loaded i
parse_file invalid = load_failed invalid_file
parse_file unreadable = load_failed read_failed

-- Store.Load
unfoldable pub load : String → Files → Loaded
load id fs =
    if is_empty (trim_space id) then load_failed empty_id else (elim (file_at (get_path id) fs) [
      | some f ↦ parse_file f
      | none ↦ elim (file_at (root id) fs) [ none ↦ load_failed not_found | some f ↦ parse_file f ]
    ])
